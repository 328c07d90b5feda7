-- ===== src/Ui/Health/Polls.antt =====
-- internal/ui/ui.go: the polls of docker agree, and the percentiles of the message are ordered.
use quicshot.Prelude.{
  ℕ, ◌+◌, ◌-◌, ◌≤◌, ◌<◌, ◌≡◌, refl, ap, ◌∙◌, Bool, List, [], ◌∷◌, Option, none, some, ltb, leb,
  length, get_or, if◌then◌else◌, arith,
}
use quicshot.Blast.Config.{split}
use quicshot.Blast.Summary.{sort, place}
use quicshot.Blast.Summary.Latency.{sort-IsAscending, get_or_ordered}
use quicshot.Ui.Flow.{FlowState, connectors_seen}
use quicshot.Ui.Health.{
  entry_of, count_in, count_lines, poll_connectors, ids_in, ServiceHealth, service_health,
  percentile_ms, edge_msg,
}

count_in-ids_in : (lines : List (List ℕ)) → count_in lines ≡ length (ids_in lines)
unfolding count_in ids_in
count_in-ids_in [] = refl
count_in-ids_in (line ∷ lines) = ground (arith, count_in-ids_in lines)

module _ (F : Type 0) (zero_float : F) (gt : F → F → Bool) (parse_float : List ℕ → F) where
  abbrev replicas_or : Option (ServiceHealth F zero_float gt parse_float) → ℕ
  replicas_or none = 0
  replicas_or (some h) = h.replicas

  entry_replicas :
      (ids : List (List ℕ)) (stats : Option (List ℕ)) (now : ℕ)
      (h : ServiceHealth F zero_float gt parse_float)
      → entry_of F zero_float gt parse_float ids stats now ≡ some h
      → length ids ≡ h.replicas
  entry_replicas [] stats now h e = ap replicas_or e
  entry_replicas (id ∷ ids) none now h e = absurd (ground (arith, e))
  entry_replicas (id ∷ ids) (some out) now h e = ap replicas_or e

  -- Two polls of the same output of docker agree: the number of connectors in the diagram is the number
  -- of replicas that the health of the service shows, and the tunnel is shown as up exactly if there is
  -- one.
  pub polls_agree :
      (ps : List ℕ) (stats : Option (List ℕ)) (now : ℕ) (f : FlowState)
      (h : ServiceHealth F zero_float gt parse_float)
      → service_health F zero_float gt parse_float (some ps) stats now ≡ some h
      → ((poll_connectors (some ps) f).connectors ≡ h.replicas)
        × ((poll_connectors (some ps) f).tunnel_up ≡ ltb 0 h.replicas)
  unfolding service_health poll_connectors count_lines connectors_seen
  polls_agree ps stats now f h e =
      let same =
        count_in-ids_in (split 10 ps) ∙ entry_replicas (ids_in (split 10 ps)) stats now h e in
      (same, ap (ltb 0) same)

abbrev clamped : ℕ → ℕ → ℕ
clamped n idx = if leb n idx then n - 1 else idx

length-place : (a : ℕ) (l : List ℕ) → length (place leb a l) ≡ length l + 1
unfolding place
length-place a [] = omega arith
length-place a (b ∷ l) = ground (arith, length-place a l)

length-sort : (l : List ℕ) → length (sort leb l) ≡ length l
unfolding sort
length-sort [] = refl
length-sort (a ∷ l) = omega (arith, length-place a (sort leb l), length-sort l)

percentile_ms-clamped :
    (f : ℕ → ℕ) (l : List ℕ)
    → 0 < length l
    → percentile_ms f l ≡ get_or (sort leb l) (clamped (length l) (f (length l - 1))) 0
unfolding percentile_ms
percentile_ms-clamped f l h = ground arith

clamped_lt : (n i : ℕ) → 0 < n → clamped n i < n
clamped_lt n i h = ground arith

clamped_mono : (n i j : ℕ) → 0 < n → i ≤ j → clamped n i ≤ clamped n j
clamped_mono n i j h k = ground arith

percentile_ms-ordered :
    (f g : ℕ → ℕ) (l : List ℕ)
    → f (length l - 1) ≤ g (length l - 1)
    → percentile_ms f l ≤ percentile_ms g l
percentile_ms-ordered f g [] h = unfold percentile_ms in omega arith
percentile_ms-ordered f g (a ∷ s) h =
    let l = a ∷ s in
    let n : 0 < length l = omega arith in
    rw (percentile_ms-clamped f l n, percentile_ms-clamped g l n)
      (get_or_ordered (sort leb l) (clamped (length l) (f (length l - 1)))
        (clamped (length l) (g (length l - 1))) (sort-IsAscending l)
        (clamped_mono (length l) (f (length l - 1)) (g (length l - 1)) n h)
        (omega (arith, length-sort l, clamped_lt (length l) (g (length l - 1)) n)))

-- In the message of each tick the percentiles of the edge's latency rise with their percentage.
pub edge_msg_ordered :
    (scaled : ℕ → ℕ → ℕ) (f : FlowState)
    → ((n : ℕ) → (scaled 50 n ≤ scaled 95 n) × (scaled 95 n ≤ scaled 99 n))
    → ((edge_msg scaled f).p50 ≤ (edge_msg scaled f).p95)
      × ((edge_msg scaled f).p95 ≤ (edge_msg scaled f).p99)
unfolding edge_msg
edge_msg_ordered scaled f m =
    let n = length f.edge_latency - 1 in
    (
      percentile_ms-ordered (scaled 50) (scaled 95) f.edge_latency (m n).0,
      percentile_ms-ordered (scaled 95) (scaled 99) f.edge_latency (m n).1,
    )

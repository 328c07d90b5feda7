-- ===== src/Quicerr/Ranking.antt =====
-- internal/quicerr/quicerr.go: which of several causes names the disconnect.
use quicshot.Prelude.{
  ℕ, ◌≤◌, ◌<◌, ◌≡◌, ◌≢◌, ◌↔◌, ◌⊎◌, inl, inr, refl, Bool, true, false, List, [], ◌∷◌, Option, none,
  some, min, arith, ltb,
}
use quicshot.Quicerr.{
  Kind, kind_none, idle_timeout, handshake, transport_error, application_err, stream_reset, http3,
  deadline, canceled, Link, h3_link, app_link, transport_link, stream_link, idle_link,
  handshake_link, deadline_link, canceled_link, net_link, plain_link, Err, Verdict, first_of_type,
  as_h3, as_app, as_transport, as_stream, as_idle, as_handshake, classify_quic, text_or_net,
  closed_locally, times_out, as_net, deadline_here, canceled_here, any_link, classify_text,
  classify_fallback, classify, close_reason,
}

-- The order in which causes are preferred: the protocol layer nearest to HTTP first, the context's
-- own errors after all QUIC errors.
abbrev pub rank : Link → ℕ
rank (h3_link c r m) = 0
rank (app_link c r m) = 1
rank (transport_link c r m) = 2
rank (stream_link i c r) = 3
rank idle_link = 4
rank handshake_link = 5
rank deadline_link = 6
rank canceled_link = 7
rank (net_link t) = 8
rank plain_link = 8

unfoldable pub best : List Link → ℕ
best [] = 8
best (l ∷ ls) = min (rank l) (best ls)

abbrev pub rank_of : Kind → ℕ
rank_of http3 = 0
rank_of application_err = 1
rank_of transport_error = 2
rank_of stream_reset = 3
rank_of idle_timeout = 4
rank_of handshake = 5
rank_of deadline = 6
rank_of canceled = 7
rank_of _ = 8

abbrev ranked_kind : Option Verdict → ℕ
ranked_kind none = 6
ranked_kind (some v) = rank_of v.0

-- A test that yields verdicts of one rank only finds nothing or a verdict of that rank.
first_rank :
    (r : ℕ) (f : Link → Option Verdict)
    → ((l : Link) → (f l ≡ none) ⊎ ((v : Verdict) × (f l ≡ some v) × (rank_of v.0 ≡ r)))
    → (ls : List Link)
    → (first_of_type f ls ≡ none)
      ⊎ ((v : Verdict) × (first_of_type f ls ≡ some v) × (rank_of v.0 ≡ r))
unfolding first_of_type
first_rank r f h [] = inl refl
first_rank r f h (l ∷ ls) = ground (arith, h l, first_rank r f h ls)

h3_rank : (l : Link) → (as_h3 l ≡ none) ⊎ ((v : Verdict) × (as_h3 l ≡ some v) × (rank_of v.0 ≡ 0))
h3_rank (h3_link a b d) = inr (_, refl, refl)
h3_rank _ = inl refl

app_rank :
    (l : Link) → (as_app l ≡ none) ⊎ ((v : Verdict) × (as_app l ≡ some v) × (rank_of v.0 ≡ 1))
app_rank (app_link a b d) = inr (_, refl, refl)
app_rank _ = inl refl

transport_rank :
    (l : Link)
    → (as_transport l ≡ none) ⊎ ((v : Verdict) × (as_transport l ≡ some v) × (rank_of v.0 ≡ 2))
transport_rank (transport_link a b d) = inr (_, refl, refl)
transport_rank _ = inl refl

stream_rank :
    (l : Link) → (as_stream l ≡ none) ⊎ ((v : Verdict) × (as_stream l ≡ some v) × (rank_of v.0 ≡ 3))
stream_rank (stream_link a b d) = inr (_, refl, refl)
stream_rank _ = inl refl

idle_rank :
    (l : Link) → (as_idle l ≡ none) ⊎ ((v : Verdict) × (as_idle l ≡ some v) × (rank_of v.0 ≡ 4))
idle_rank idle_link = inr (_, refl, refl)
idle_rank _ = inl refl

handshake_rank :
    (l : Link)
    → (as_handshake l ≡ none) ⊎ ((v : Verdict) × (as_handshake l ≡ some v) × (rank_of v.0 ≡ 5))
handshake_rank handshake_link = inr (_, refl, refl)
handshake_rank _ = inl refl

classify_quic-best : (ls : List Link) → ranked_kind (classify_quic ls) ≡ min 6 (best ls)
unfolding classify_quic first_of_type best
classify_quic-best [] = refl
classify_quic-best (idle_link ∷ ls) = ground (
  arith,
  classify_quic-best ls,
  first_rank 0 as_h3 h3_rank ls,
  first_rank 1 as_app app_rank ls,
  first_rank 2 as_transport transport_rank ls,
  first_rank 3 as_stream stream_rank ls,
  first_rank 4 as_idle idle_rank ls,
  first_rank 5 as_handshake handshake_rank ls,
)
classify_quic-best (_ ∷ ls) = ground (
  arith,
  classify_quic-best ls,
  first_rank 0 as_h3 h3_rank ls,
  first_rank 1 as_app app_rank ls,
  first_rank 2 as_transport transport_rank ls,
  first_rank 3 as_stream stream_rank ls,
  first_rank 4 as_idle idle_rank ls,
  first_rank 5 as_handshake handshake_rank ls,
)

any_deadline-best : (ls : List Link) → 6 ≤ best ls → any_link deadline_here ls ≡ ltb (best ls) 7
unfolding any_link best
any_deadline-best [] h = refl
any_deadline-best (idle_link ∷ ls) h = ground (arith, any_deadline-best ls)
any_deadline-best (_ ∷ ls) h = ground (arith, any_deadline-best ls)

any_canceled-best : (ls : List Link) → 7 ≤ best ls → any_link canceled_here ls ≡ ltb (best ls) 8
unfolding any_link best
any_canceled-best [] h = refl
any_canceled-best (idle_link ∷ ls) h = ground (arith, any_canceled-best ls)
any_canceled-best (_ ∷ ls) h = ground (arith, any_canceled-best ls)

best-le : (ls : List Link) → best ls ≤ 8
unfolding best
best-le [] = omega arith
best-le (l ∷ ls) = omega (arith, best-le ls)

classify_text-rank : (msg : List ℕ) (b : Bool) → rank_of (text_or_net (classify_text msg) b) ≡ 8
unfolding classify_text
classify_text-rank msg true = ground arith
classify_text-rank msg false = ground arith

classify_quic-lt :
    (ls : List Link)
    → (classify_quic ls ≡ none) ⊎ ((v : Verdict) × (classify_quic ls ≡ some v) × (rank_of v.0 < 6))
unfolding classify_quic
classify_quic-lt ls = ground (
  arith,
  first_rank 0 as_h3 h3_rank ls,
  first_rank 1 as_app app_rank ls,
  first_rank 2 as_transport transport_rank ls,
  first_rank 3 as_stream stream_rank ls,
  first_rank 4 as_idle idle_rank ls,
  first_rank 5 as_handshake handshake_rank ls,
)

-- The kind of an error names the most preferred cause anywhere in its chain, whatever the order in
-- which the links are wrapped: HTTP/3, application, transport, stream, idle timeout, handshake
-- timeout, context deadline, cancellation. With none of these in the chain it is one of the other
-- kinds.
pub classify-best : (e : Err) → rank_of (classify (some e)).0 ≡ best e.chain
unfolding classify classify_fallback
classify-best e = ground (
  arith,
  classify_quic-best e.chain,
  classify_quic-lt e.chain,
  any_deadline-best e.chain,
  any_canceled-best e.chain,
  best-le e.chain,
  classify_text-rank e.text (times_out (first_of_type as_net e.chain)),
)

classify_text-ne : (msg : List ℕ) (b : Bool) → text_or_net (classify_text msg) b ≢ kind_none
unfolding classify_text
classify_text-ne msg true = ground arith
classify_text-ne msg false = ground arith

classify-ne : (e : Err) → (classify (some e)).0 ≢ kind_none
unfolding classify classify_fallback
classify-ne e = ground (
  arith,
  classify_quic-lt e.chain,
  classify_text-ne e.text (times_out (first_of_type as_net e.chain)),
)

-- A nil error, and no other, has the kind "none".
pub classify-none : (o : Option Err) → ((classify o).0 ≡ kind_none) ↔ (o ≡ none)
classify-none none = (λ _. refl, λ _. unfold classify in refl)
classify-none (some e) = (λ h. absurd (classify-ne e h), λ h. cc)

-- Without a cause a connection is recorded as closed locally. With a cause it is so exactly when a
-- cancellation is among its causes; otherwise the reason is that of the cause, and its kind is not
-- "none".
pub close_reason_local :
    (e : Err)
    → (close_reason none ≡ (kind_none, closed_locally))
      × (((any_link canceled_here e.chain ≡ true)
            × (close_reason (some e) ≡ (kind_none, closed_locally)))
          ⊎ ((any_link canceled_here e.chain ≡ false)
              × (close_reason (some e) ≡ classify (some e))
              × ((close_reason (some e)).0 ≢ kind_none)))
unfolding close_reason
close_reason_local e = (refl, ground (arith, classify-ne e))

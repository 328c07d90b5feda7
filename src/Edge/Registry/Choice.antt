-- ===== src/Edge/Registry/Choice.antt =====
-- internal/edge/edge.go, `live`, `registeredLocked`, `pickConnector`: which connectors take requests.
use quicshot.Prelude.{
  ℕ, zero, suc, ◌+◌, ◌*◌, ◌≤◌, ◌<◌, ◌≡◌, ◌↔◌, ◌⊎◌, inl, inr, refl, ap, true, List, [], ◌∷◌, none,
  some, length, get_elem?, arith, Bool-cases, dec_lt, sym, ◌∙◌,
}
use quicshot.Prelude.Members.{Member}
use quicshot.Prelude.Int.{ℤ, pos, pos_part, ◌≤ℤ◌, ◌*ℤ◌}
use quicshot.Edge.Balance.{u32_mod, pick_connector_index}
use quicshot.Edge.Balance.Rotation.{pick_connector_index-lt}
use quicshot.Edge.Registry.{
  Edge, ConnectorRef, stale_after, live, count_live, registered_locked, live_refs, pick_connector,
}

length-live_refs :
    (now : ℕ) (stale : ℤ) (cs : List ConnectorRef)
    → length (live_refs now stale cs) ≡ count_live now stale cs
unfolding live_refs count_live
length-live_refs now stale [] = refl
length-live_refs now stale (c ∷ cs) = ground (arith, length-live_refs now stale cs)

count_live-le : (now : ℕ) (stale : ℤ) (cs : List ConnectorRef) → count_live now stale cs ≤ length cs
unfolding count_live
count_live-le now stale [] = omega arith
count_live-le now stale (c ∷ cs) = ground (arith, count_live-le now stale cs)

-- An index in range finds an entry that is live and stands in the table.
live_refs-at :
    (now : ℕ) (stale : ℤ) (cs : List ConnectorRef) (i : ℕ)
    → i < length (live_refs now stale cs)
    → (c : ConnectorRef) × (get_elem? (live_refs now stale cs) i ≡ some c)
      × Member c cs
      × (live c now stale ≡ true)
unfolding live_refs
live_refs-at now stale [] i h = elim h [ ]
live_refs-at now stale (x ∷ cs) zero h = elim (Bool-cases (live x now stale)) [
  | inl up ↦ rw up (x, refl, inl refl, up)
  | inr down ↦
      let (c, at, m, l) = live_refs-at now stale cs zero (rw down at h) in rw down (c, at, inr m, l)
]
live_refs-at now stale (x ∷ cs) (suc i) h = elim (Bool-cases (live x now stale)) [
  | inl up ↦
      let h' : suc i < suc (length (live_refs now stale cs)) = rw up at h in
      let (c, at, m, l) = live_refs-at now stale cs i (omega arith) in rw up (c, at, inr m, l)
  | inr down ↦
      let (c, at, m, l) = live_refs-at now stale cs (suc i) (rw down at h) in
      rw down (c, at, inr m, l)
]

-- As long as a connector is live, every request finds one: the one picked stands in the table and is
-- live at that time. Only the round-robin counter may change.
pub pick_connector-some :
    (e : Edge) (key : List ℕ) (now : ℕ)
    → length e.connectors < u32_mod
    → 0 < registered_locked e now
    → (c : ConnectorRef) × ((pick_connector e key now).0 ≡ some c)
      × Member c e.connectors
      × (live c now (stale_after e) ≡ true)
      × ((pick_connector e key now).1.connectors ≡ e.connectors)
      × ((pick_connector e key now).1.next_connector_id ≡ e.next_connector_id)
unfolding pick_connector registered_locked
pick_connector-some e key now small up =
    let n = length (live_refs now (stale_after e) e.connectors) in
    let len : n ≡ count_live now (stale_after e) e.connectors =
      length-live_refs now (stale_after e) e.connectors in
    let le : count_live now (stale_after e) e.connectors ≤ length e.connectors =
      count_live-le now (stale_after e) e.connectors in
    let lt : (pick_connector_index n key e.tunnel_lb e.rr).0 < n =
      pick_connector_index-lt n key e.tunnel_lb e.rr (omega arith) (omega arith) in
    let (c, at, m, l) =
      live_refs-at now (stale_after e) e.connectors (pick_connector_index n key e.tunnel_lb e.rr).0
        lt in
    (c, ground arith, m, l, ground arith, ground arith)

pub pick_connector_idle :
    (e : Edge) (key : List ℕ) (now : ℕ)
    → registered_locked e now ≡ 0
    → pick_connector e key now ≡ (none, e)
unfolding pick_connector registered_locked
pick_connector_idle e key now z = ground (arith, length-live_refs now (stale_after e) e.connectors)

-- A request finds no connector exactly when none is live, and then nothing changes.
pub pick_connector-none :
    (e : Edge) (key : List ℕ) (now : ℕ)
    → length e.connectors < u32_mod
    → ((pick_connector e key now).0 ≡ none) ↔ (registered_locked e now ≡ 0)
pick_connector-none e key now small = (
  λ h. elim (dec_lt 0 (registered_locked e now)) [
    | yes up ↦
        let (c, at, m, l, same, next) = pick_connector-some e key now small up in
        absurd (some-ne-none c (sym at ∙ h))
    | no down ↦ omega arith
  ],
  λ z. ap (λ p. p.0) (pick_connector_idle e key now z),
)
  where
    some-ne-none : (c : ConnectorRef) → ¬ (some c ≡ none)
    some-ne-none c p = cc

-- A connector is live exactly when it is registered and, if keep-alives are on and it has been heard
-- of, less than three keep-alive intervals have passed since then.
pub live_lem :
    (e : Edge) (c : ConnectorRef) (now : ℕ)
    → (live c now (stale_after e) ≡ true) ↔ (
        (c.registered ≡ true)
        × ((e.tunnel_keep_alive ≤ℤ pos 0)
            ⊎ (c.last_ping ≡ none)
            ⊎ ((t : ℕ) × (c.last_ping ≡ some t) × (now < t + 3 * pos_part e.tunnel_keep_alive))))
unfolding live stale_after ◌*ℤ◌
live_lem e c now = (λ h. ground arith, λ h. ground arith)

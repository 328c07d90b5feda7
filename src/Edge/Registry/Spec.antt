-- ===== src/Edge/Registry/Spec.antt =====
-- internal/edge/edge.go: what the table of connectors promises its callers, as a map from ids, which
-- forgets the order of the entries.
use native.Mathlib.Nat.{mod-eq_of_lt}
use quicshot.Prelude.{
  ℕ, ◌+◌, ◌≤◌, ◌≡◌, refl, ◌∙◌, String, List, [], ◌∷◌, ◌++◌, Option, none, some, ◌==◌, if◌then◌else◌,
  Bool-cases, inl, inr, arith,
}
use quicshot.Prelude.Int.{ℤ}
use quicshot.Edge.Registry.{
  Edge, ConnectorRef, Control, read_failed, register, ping, unregister, other, fresh_ref,
  add_connector, remove_conn, watch_lost, update_ref, update_connector, apply_control,
  serve_control_step, pick_connector,
}
use quicshot.Edge.Registry.Ids.{IsValid, Rising, Absent, DistinctConns}
use quicshot.Edge.Registry.Lifecycle.{find_ref, apply_control-id}
use quicshot.Edge.Registry.Traces.{
  Step, connect, lose, control, pick, Reach, here, next, start, Reach-IsValid,
}

-- The entry that an id has, if it has one.
abbrev pub Table : Type 0
Table = ℕ → Option ConnectorRef

abbrev pub table_of : Edge → Table
table_of e id = find_ref id e.connectors

abbrev pub mapped : (ConnectorRef → ConnectorRef) → Option ConnectorRef → Option ConnectorRef
mapped fn none = none
mapped fn (some c) = some (fn c)

abbrev pub without : ℕ → Option ConnectorRef → Option ConnectorRef
without conn none = none
without conn (some c) = if c.conn == conn then none else some c

-- The four operations on maps: a new id gets a fresh entry, a lost connection takes its entry with it,
-- a control message changes the entry of its id, and a pick changes none.
abbrev pub Change : Type 0
Change = Table → Table

abbrev pub spec : {e f : Edge} → Step e f → Change
spec {e} (connect conn a h) t id =
    if id == e.next_connector_id + 1 then some (fresh_ref (e.next_connector_id + 1) conn) else t id
spec (lose conn) t id = without conn (t id)
spec (control j now m) t id = if id == j then mapped (apply_control m now) (t id) else t id
spec (pick key now) t id = t id

find_ref_above :
    (id lo : ℕ) (cs : List ConnectorRef) (hi : ℕ)
    → Rising lo cs hi
    → id ≤ lo
    → find_ref id cs ≡ none
unfolding find_ref
find_ref_above id lo [] hi r h = refl
find_ref_above id lo (c ∷ cs) hi r h = ground (arith, r.0, find_ref_above id c.id cs hi r.1)

Rising-le : (lo : ℕ) (cs : List ConnectorRef) (hi : ℕ) → Rising lo cs hi → lo ≤ hi
Rising-le lo [] hi r = r
Rising-le lo (c ∷ cs) hi r = omega (arith, r.0, Rising-le c.id cs hi r.1)

Absent-without :
    (conn id : ℕ) (cs : List ConnectorRef)
    → Absent conn cs
    → without conn (find_ref id cs) ≡ find_ref id cs
unfolding find_ref
Absent-without conn id [] a = refl
Absent-without conn id (c ∷ cs) a = ground (arith, a.0, Absent-without conn id cs a.1)

find_ref-snoc :
    (id lo : ℕ) (cs : List ConnectorRef) (hi : ℕ) (c : ConnectorRef)
    → Rising lo cs hi
    → c.id ≡ hi + 1
    → find_ref id (cs ++ (c ∷ [])) ≡ (if id == hi + 1 then some c else find_ref id cs)
unfolding find_ref
find_ref-snoc id lo [] hi c r e = ground arith
find_ref-snoc id lo (d ∷ cs) hi c r e =
    ground (arith, find_ref-snoc id d.id cs hi c r.1 e, Rising-le d.id cs hi r.1)

find_ref-remove_conn :
    (id conn lo : ℕ) (cs : List ConnectorRef) (hi : ℕ)
    → Rising lo cs hi
    → DistinctConns cs
    → find_ref id (remove_conn conn cs) ≡ without conn (find_ref id cs)
unfolding find_ref remove_conn
find_ref-remove_conn id conn lo [] hi r d = refl
find_ref-remove_conn id conn lo (c ∷ cs) hi r d = elim (Bool-cases (c.conn == conn)) [
  | inr n ↦ ground (arith, n, find_ref-remove_conn id conn c.id cs hi r.1 d.1)
  | inl e ↦ elim (Bool-cases (c.id == id)) [
    | inl q ↦ ground (arith, e, q, find_ref_above id c.id cs hi r.1)
    | inr n ↦ ground (arith, e, n, Absent-without c.conn id cs d.0)
  ]
]

find_ref-update_ref :
    (id j now : ℕ) (m : Control) (cs : List ConnectorRef)
    → find_ref id (update_ref j (apply_control m now) cs)
      ≡ (if id == j then mapped (apply_control m now) (find_ref id cs) else find_ref id cs)
unfolding find_ref update_ref
find_ref-update_ref id j now m [] = ground arith
find_ref-update_ref id j now m (c ∷ cs) =
    ground (arith, find_ref-update_ref id j now m cs, apply_control-id m now c)

mapped_other : (now : ℕ) (o : Option ConnectorRef) → mapped (apply_control other now) o ≡ o
unfolding apply_control
mapped_other now none = refl
mapped_other now (some c) = refl

serve_control_step_lem :
    (e : Edge) (j now id : ℕ) (m : Control)
    → table_of (serve_control_step e j now m) id
      ≡ (if id == j then mapped (apply_control m now) (table_of e id) else table_of e id)
unfolding serve_control_step update_connector
serve_control_step_lem e j now id read_failed =
    find_ref-update_ref id j now read_failed e.connectors
serve_control_step_lem e j now id (register h a) =
    find_ref-update_ref id j now (register h a) e.connectors
serve_control_step_lem e j now id ping = find_ref-update_ref id j now ping e.connectors
serve_control_step_lem e j now id unregister = find_ref-update_ref id j now unregister e.connectors
serve_control_step_lem e j now id other = ground (arith, mapped_other now (table_of e id))

pick_connector_lem :
    (e : Edge) (key : List ℕ) (now id : ℕ)
    → table_of (pick_connector e key now).1 id ≡ table_of e id
unfolding pick_connector
pick_connector_lem e key now id = ground arith

Step-spec :
    {e f : Edge} (s : Step e f) → IsValid e → (id : ℕ) → table_of f id ≡ spec s (table_of e) id
unfolding add_connector watch_lost
Step-spec {e} (connect conn a h) v id = rw (mod-eq_of_lt h) (
    find_ref-snoc id 0 e.connectors e.next_connector_id (fresh_ref (e.next_connector_id + 1) conn)
      v.ids refl)
Step-spec {e} (lose conn) v id =
    find_ref-remove_conn id conn 0 e.connectors e.next_connector_id v.ids v.conns
Step-spec {e} (control j now m) v id = serve_control_step_lem e j now id m
Step-spec {e} (pick key now) v id = pick_connector_lem e key now id

-- A run of the specification, from the table without entries.
abbrev pub spec_run : {e f : Edge} → Reach e f → Table → Table
spec_run here t = t
spec_run (next r s) t = spec s (spec_run r t)

spec_same :
    {e f : Edge} (s : Step e f) (t u : Table)
    → ((id : ℕ) → t id ≡ u id)
    → (id : ℕ) → spec s t id ≡ spec s u id
spec_same {e} (connect conn a h) t u q id = rw (q id) refl
spec_same (lose conn) t u q id = rw (q id) refl
spec_same (control j now m) t u q id = rw (q id) refl
spec_same (pick key now) t u q id = q id

Reach-spec :
    {e f : Edge} (r : Reach e f) → IsValid e → (id : ℕ) → table_of f id ≡ spec_run r (table_of e) id
Reach-spec here v id = refl
Reach-spec {e} (next {d} r s) v id =
    Step-spec s (Reach-IsValid v r) id
    ∙ spec_same s (table_of d) (spec_run r (table_of e)) (Reach-spec r v) id

-- Whatever interleaving of accepted and lost connections, control messages and picks has led here from
-- an empty table, the list of connectors holds for each id exactly what the map from ids holds after the
-- same steps: a new id has a fresh entry, a lost connection has none, and a message changes its own
-- entry alone.
pub reachable-spec :
    (keep_alive : ℤ) (lb : String) {e : Edge} (r : Reach (start keep_alive lb) e) (id : ℕ)
    → table_of e id ≡ spec_run r (λ k. none) id
unfolding find_ref
reachable-spec keep_alive lb r id = Reach-spec r (record { ids = omega arith; conns = tt }) id

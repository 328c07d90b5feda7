-- ===== src/Edge/Registry/Ids.antt =====
-- internal/edge/edge.go: the invariant of the connector table, on ids and connections.
use native.Mathlib.Nat.{mod-eq_of_lt}
use quicshot.Prelude.{
  ℕ, ◌+◌, ◌≤◌, ◌<◌, ◌≡◌, ◌≢◌, refl, List, [], ◌∷◌, ◌++◌, ◌==◌, if◌then◌else◌, arith, Bool-cases,
  inl, inr,
}
use quicshot.Edge.Balance.{u64_mod}
use quicshot.Edge.Registry.{
  Edge, ConnectorRef, Control, read_failed, other, fresh_ref, add_connector, remove_conn,
  watch_lost, update_ref, update_connector, apply_control, serve_control_step,
}

-- Ids rise strictly, from above `lo` to at most `hi`.
abbrev pub Rising : ℕ → List ConnectorRef → ℕ → Type 0
Rising lo [] hi = lo ≤ hi
Rising lo (c ∷ cs) hi = (lo < c.id) × Rising c.id cs hi

-- No entry has this connection.
abbrev pub Absent : ℕ → List ConnectorRef → Type 0
Absent conn [] = Unit {0}
Absent conn (c ∷ cs) = (c.conn ≢ conn) × Absent conn cs

abbrev pub DistinctConns : List ConnectorRef → Type 0
DistinctConns [] = Unit {0}
DistinctConns (c ∷ cs) = Absent c.conn cs × DistinctConns cs

pub record IsValid (e : Edge) : Type 0 where
  pub ids : Rising 0 e.connectors e.next_connector_id
  pub conns : DistinctConns e.connectors

Rising-snoc :
    (lo : ℕ) (cs : List ConnectorRef) (hi : ℕ) (c : ConnectorRef)
    → c.id ≡ hi + 1
    → Rising lo cs hi
    → Rising lo (cs ++ (c ∷ [])) c.id
Rising-snoc lo [] hi c e r = omega arith
Rising-snoc lo (d ∷ cs) hi c e r = (r.0, Rising-snoc d.id cs hi c e r.1)

Absent-snoc :
    (conn : ℕ) (cs : List ConnectorRef) (c : ConnectorRef)
    → c.conn ≢ conn
    → Absent conn cs
    → Absent conn (cs ++ (c ∷ []))
Absent-snoc conn [] c n a = (n, tt)
Absent-snoc conn (d ∷ cs) c n a = (a.0, Absent-snoc conn cs c n a.1)

DistinctConns-snoc :
    (cs : List ConnectorRef) (c : ConnectorRef)
    → Absent c.conn cs
    → DistinctConns cs
    → DistinctConns (cs ++ (c ∷ []))
DistinctConns-snoc [] c a d = (tt, tt)
DistinctConns-snoc (x ∷ cs) c a d =
    (Absent-snoc x.conn cs c (λ e. a.0 (omega arith)) d.0, DistinctConns-snoc cs c a.1 d.1)

-- A connection that is not in the table keeps the table well formed, while the id counter has not
-- reached its last value.
pub add_connector-IsValid :
    (e : Edge) (conn : ℕ)
    → e.next_connector_id + 1 < u64_mod
    → Absent conn e.connectors
    → IsValid e
    → IsValid (add_connector e conn).1
unfolding add_connector
add_connector-IsValid e conn h a v = record {
  ids = rw (mod-eq_of_lt h) (
      Rising-snoc 0 e.connectors e.next_connector_id (fresh_ref (e.next_connector_id + 1) conn) refl
        v.ids);
  conns = DistinctConns-snoc e.connectors (fresh_ref _ conn) a v.conns;
}

Rising-lower :
    (lo lo' : ℕ) (cs : List ConnectorRef) (hi : ℕ) → lo ≤ lo' → Rising lo' cs hi → Rising lo cs hi
Rising-lower lo lo' [] hi h r = omega arith
Rising-lower lo lo' (c ∷ cs) hi h r = (omega arith, r.1)

remove_conn-Rising :
    (conn lo : ℕ) (cs : List ConnectorRef) (hi : ℕ)
    → Rising lo cs hi
    → Rising lo (remove_conn conn cs) hi
unfolding remove_conn
remove_conn-Rising conn lo [] hi r = r
remove_conn-Rising conn lo (c ∷ cs) hi r =
    ground (arith, remove_conn-Rising conn c.id cs hi r.1, Rising-lower lo c.id cs hi)

remove_conn-Absent :
    (conn x : ℕ) (cs : List ConnectorRef) → Absent x cs → Absent x (remove_conn conn cs)
unfolding remove_conn
remove_conn-Absent conn x [] a = tt
remove_conn-Absent conn x (c ∷ cs) a = ground (arith, remove_conn-Absent conn x cs a.1)

remove_conn-DistinctConns :
    (conn : ℕ) (cs : List ConnectorRef) → DistinctConns cs → DistinctConns (remove_conn conn cs)
unfolding remove_conn
remove_conn-DistinctConns conn [] d = tt
remove_conn-DistinctConns conn (c ∷ cs) d =
    ground (arith, remove_conn-DistinctConns conn cs d.1, remove_conn-Absent conn c.conn cs d.0)

pub watch_lost-IsValid : (e : Edge) (conn : ℕ) → IsValid e → IsValid (watch_lost e conn)
unfolding watch_lost
watch_lost-IsValid e conn v = record {
  ids = remove_conn-Rising conn 0 e.connectors e.next_connector_id v.ids;
  conns = remove_conn-DistinctConns conn e.connectors v.conns;
}

-- The entries whose connection is another one, in their order.
unfoldable pub others : ℕ → List ConnectorRef → List ConnectorRef
others conn [] = []
others conn (c ∷ cs) = if c.conn == conn then others conn cs else c ∷ others conn cs

others_of_Absent : (conn : ℕ) (cs : List ConnectorRef) → Absent conn cs → others conn cs ≡ cs
unfolding others
others_of_Absent conn [] a = refl
others_of_Absent conn (c ∷ cs) a = ground (arith, others_of_Absent conn cs a.1)

remove_conn-others :
    (conn : ℕ) (cs : List ConnectorRef) → DistinctConns cs → remove_conn conn cs ≡ others conn cs
unfolding remove_conn others
remove_conn-others conn [] d = refl
remove_conn-others conn (c ∷ cs) d =
    ground (arith, remove_conn-others conn cs d.1, others_of_Absent conn cs)

-- On a well-formed table a lost connection takes away exactly its own entries: what is left are all
-- the entries with another connection, in their order.
pub watch_lost-others :
    (e : Edge) (conn : ℕ) → IsValid e → (watch_lost e conn).connectors ≡ others conn e.connectors
unfolding watch_lost
watch_lost-others e conn v = remove_conn-others conn e.connectors v.conns

-- Every message keeps an entry's id and connection.
apply_control_keeps :
    (m : Control) (now : ℕ) (c : ConnectorRef)
    → ((apply_control m now c).id ≡ c.id) × ((apply_control m now c).conn ≡ c.conn)
unfolding apply_control
apply_control_keeps read_failed now c = (refl, refl)
apply_control_keeps _ now c = (refl, refl)

update_ref-Rising :
    (id now : ℕ) (m : Control) (lo : ℕ) (cs : List ConnectorRef) (hi : ℕ)
    → Rising lo cs hi
    → Rising lo (update_ref id (apply_control m now) cs) hi
unfolding update_ref
update_ref-Rising id now m lo [] hi r = r
update_ref-Rising id now m lo (c ∷ cs) hi r = elim (Bool-cases (c.id == id)) [
  | inl hit ↦ rw hit (rw ((apply_control_keeps m now c).0) r)
  | inr miss ↦ rw miss (r.0, update_ref-Rising id now m c.id cs hi r.1)
]

update_ref-Absent :
    (id now : ℕ) (m : Control) (x : ℕ) (cs : List ConnectorRef)
    → Absent x cs
    → Absent x (update_ref id (apply_control m now) cs)
unfolding update_ref
update_ref-Absent id now m x [] a = tt
update_ref-Absent id now m x (c ∷ cs) a = elim (Bool-cases (c.id == id)) [
  | inl hit ↦ rw hit (rw ((apply_control_keeps m now c).1) a)
  | inr miss ↦ rw miss (a.0, update_ref-Absent id now m x cs a.1)
]

update_ref-DistinctConns :
    (id now : ℕ) (m : Control) (cs : List ConnectorRef)
    → DistinctConns cs
    → DistinctConns (update_ref id (apply_control m now) cs)
unfolding update_ref
update_ref-DistinctConns id now m [] d = tt
update_ref-DistinctConns id now m (c ∷ cs) d = elim (Bool-cases (c.id == id)) [
  | inl hit ↦ rw hit (rw ((apply_control_keeps m now c).1) d)
  | inr miss ↦
      rw miss (update_ref-Absent id now m c.conn cs d.0, update_ref-DistinctConns id now m cs d.1)
]

update_control-IsValid :
    (e : Edge) (id now : ℕ) (m : Control)
    → IsValid e
    → IsValid (update_connector e id (apply_control m now))
unfolding update_connector
update_control-IsValid e id now m v = record {
  ids = update_ref-Rising id now m 0 e.connectors e.next_connector_id v.ids;
  conns = update_ref-DistinctConns id now m e.connectors v.conns;
}

pub serve_control_step-IsValid :
    (e : Edge) (id now : ℕ) (m : Control) → IsValid e → IsValid (serve_control_step e id now m)
unfolding serve_control_step
serve_control_step-IsValid e id now other v = v
serve_control_step-IsValid e id now m v = update_control-IsValid e id now m v

-- ===== src/Edge/Registry.antt =====
-- internal/edge/edge.go, the tunnel side: the table of connectors, their control messages, and the
-- liveness test. Each function is the body of one critical section, or of one step of a goroutine.
-- A time is a number of nanoseconds, and the zero `time.Time` is `none`.
pub mod Ids
pub mod Lifecycle
pub mod Choice
pub mod Traces
pub mod Spec
use quicshot.Prelude.{
  ℕ, ◌+◌, ◌%◌, ◌≡◌, Bool, true, false, String, List, [], ◌∷◌, ◌++◌, Option, none, some, ◌==◌,
  if◌then◌else◌, length, get_elem?,
}
use quicshot.Prelude.Int.{ℤ, pos, ◌*ℤ◌, ltb_ℤ, leb_ℤ, sub_ℕ}
use quicshot.Edge.Balance.{u64_mod, pick_connector_index}

-- `conn` stands for the identity of the `*quic.Conn`.
pub record ConnectorRef : Type 0 where
  pub id : ℕ
  pub conn : ℕ
  pub registered : Bool
  pub last_ping : Option ℕ
  pub hostname : String
  pub ha_id : ℤ

-- The fields of `Edge` and of its `config` that the tunnel side reads.
pub record Edge : Type 0 where
  pub tunnel_keep_alive : ℤ
  pub tunnel_lb : String
  pub connectors : List ConnectorRef
  pub rr : ℕ
  pub next_connector_id : ℕ

abbrev pub fresh_ref : ℕ → ℕ → ConnectorRef
fresh_ref id conn = record {
  id = id;
  conn = conn;
  registered = false;
  last_ping = none;
  hostname = "";
  ha_id = pos 0;
}

-- The new connector's id, and the edge with its entry appended.
unfoldable pub add_connector : Edge → ℕ → ℕ × Edge
add_connector e conn =
    let id = (e.next_connector_id + 1) % u64_mod in
    (id, record e { connectors = e.connectors ++ (fresh_ref id conn ∷ []); next_connector_id = id })

-- The loop of `watchLost`: the first entry with this connection is cut out.
unfoldable pub remove_conn : ℕ → List ConnectorRef → List ConnectorRef
remove_conn conn [] = []
remove_conn conn (c ∷ cs) = if c.conn == conn then cs else c ∷ remove_conn conn cs

unfoldable pub watch_lost : Edge → ℕ → Edge
watch_lost e conn = record e { connectors = remove_conn conn e.connectors }

-- The loop of `updateConnector`: `fn` runs on the first entry with this id.
unfoldable pub update_ref :
    ℕ → (ConnectorRef → ConnectorRef) → List ConnectorRef → List ConnectorRef
update_ref id fn [] = []
update_ref id fn (c ∷ cs) = if c.id == id then fn c ∷ cs else c ∷ update_ref id fn cs

unfoldable pub update_connector : Edge → ℕ → (ConnectorRef → ConnectorRef) → Edge
update_connector e id fn = record e { connectors = update_ref id fn e.connectors }

-- What one `tunnelproto.Read` returns: an error, or a message by its type, with the fields the edge
-- reads. `other` is a message whose type no case of the switch names.
pub data Control : Type 0 where
  read_failed : Control
  register : String → ℤ → Control
  ping : Control
  unregister : Control
  other : Control

abbrev pub set_unregistered : ConnectorRef → ConnectorRef
set_unregistered c = record c { registered = false }

-- What the closure that a message hands to `updateConnector` does to the entry.
unfoldable pub apply_control : Control → ℕ → ConnectorRef → ConnectorRef
apply_control read_failed now c = set_unregistered c
apply_control (register hostname ha_id) now c = record c {
  registered = true;
  last_ping = some now;
  hostname = hostname;
  ha_id = ha_id;
}
apply_control ping now c = record c { last_ping = some now }
apply_control unregister now c = set_unregistered c
apply_control other now c = c

-- One round of the loop of `serveControl`. A message of another type leaves the table alone.
unfoldable pub serve_control_step : Edge → ℕ → ℕ → Control → Edge
serve_control_step e id now read_failed = update_connector e id (apply_control read_failed now)
serve_control_step e id now (register h a) =
    update_connector e id (apply_control (register h a) now)
serve_control_step e id now ping = update_connector e id (apply_control ping now)
serve_control_step e id now unregister = update_connector e id (apply_control unregister now)
serve_control_step e id now other = e

-- The loop over what the control stream yields, each with the time at which it is handled. A failed
-- read ends the loop, whatever stands behind it.
unfoldable pub serve_control : Edge → ℕ → List (ℕ × Control) → Edge
serve_control e id [] = e
serve_control e id ((now, read_failed) ∷ reads) = serve_control_step e id now read_failed
serve_control e id ((now, register h a) ∷ reads) =
    serve_control (serve_control_step e id now (register h a)) id reads
serve_control e id ((now, ping) ∷ reads) = serve_control (serve_control_step e id now ping) id reads
serve_control e id ((now, unregister) ∷ reads) =
    serve_control (serve_control_step e id now unregister) id reads
serve_control e id ((now, other) ∷ reads) =
    serve_control (serve_control_step e id now other) id reads

-- 3 * tunnelKeepAlive, or 0 where keep-alives are off. Durations do not overflow here: three times
-- the value fits an int64 below 97 years.
unfoldable pub stale_after : Edge → ℤ
stale_after e = if leb_ℤ e.tunnel_keep_alive (pos 0) then pos 0 else pos 3 *ℤ e.tunnel_keep_alive

abbrev pub fresh_ping : Option ℕ → ℕ → ℤ → Bool
fresh_ping none now stale = true
fresh_ping (some t) now stale = if leb_ℤ stale (pos 0) then true else ltb_ℤ (sub_ℕ now t) stale

unfoldable pub live : ConnectorRef → ℕ → ℤ → Bool
live c now stale = if c.registered then fresh_ping c.last_ping now stale else false

unfoldable pub count_live : ℕ → ℤ → List ConnectorRef → ℕ
count_live now stale [] = 0
count_live now stale (c ∷ cs) = (if live c now stale then 1 else 0) + count_live now stale cs

unfoldable pub registered_locked : Edge → ℕ → ℕ
registered_locked e now = count_live now (stale_after e) e.connectors

unfoldable pub live_refs : ℕ → ℤ → List ConnectorRef → List ConnectorRef
live_refs now stale [] = []
live_refs now stale (c ∷ cs) =
    if live c now stale then c ∷ live_refs now stale cs else live_refs now stale cs

-- `some c` is the pair (c, true) of the source. Afterwards only the counter may have moved.
unfoldable pub pick_connector : Edge → List ℕ → ℕ → Option ConnectorRef × Edge
pick_connector e key now =
    let refs = live_refs now (stale_after e) e.connectors in
    let (i, rr) = pick_connector_index (length refs) key e.tunnel_lb e.rr in
    if length refs == 0 then (none, e) else (get_elem? refs i, record e { rr = rr })

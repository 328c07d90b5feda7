-- ===== src/Edge/Registry/Traces.antt =====
-- internal/edge/edge.go: the goroutines of the tunnel side as interleaved steps on the shared table.
-- Each step is one critical section under `Edge.mu`. One goroutine accepts the connections, so that ids
-- are taken and entries appended in the same order.
use quicshot.Prelude.{ℕ, ◌+◌, ◌<◌, String, List, [], arith}
use quicshot.Prelude.Int.{ℤ}
use quicshot.Edge.Balance.{u64_mod}
use quicshot.Edge.Registry.{
  Edge, Control, add_connector, watch_lost, serve_control_step, pick_connector,
}
use quicshot.Edge.Registry.Ids.{
  IsValid, Absent, add_connector-IsValid, watch_lost-IsValid, serve_control_step-IsValid,
}

-- A new `*quic.Conn` is another pointer than those in the table, and fewer than 2^64 - 1 connections
-- have been accepted so far.
pub data Step (e : Edge) : Edge → Type 0 where
  connect :
      (conn : ℕ)
      → Absent conn e.connectors
      → e.next_connector_id + 1 < u64_mod
      → Step e (add_connector e conn).1
  lose : (conn : ℕ) → Step e (watch_lost e conn)
  control : (id now : ℕ) (m : Control) → Step e (serve_control_step e id now m)
  pick : (key : List ℕ) (now : ℕ) → Step e (pick_connector e key now).1

pub data Reach (e : Edge) : Edge → Type 0 where
  here : Reach e e
  next : {d f : Edge} → Reach e d → Step d f → Reach e f

abbrev pub start : ℤ → String → Edge
start keep_alive lb = record {
  tunnel_keep_alive = keep_alive;
  tunnel_lb = lb;
  connectors = [];
  rr = 0;
  next_connector_id = 0;
}

pick_connector-IsValid :
    (e : Edge) (key : List ℕ) (now : ℕ) → IsValid e → IsValid (pick_connector e key now).1
unfolding pick_connector
pick_connector-IsValid e key now v = ground arith

Step-IsValid : {e f : Edge} → Step e f → IsValid e → IsValid f
Step-IsValid {e} (connect conn a h) v = add_connector-IsValid e conn h a v
Step-IsValid {e} (lose conn) v = watch_lost-IsValid e conn v
Step-IsValid {e} (control id now m) v = serve_control_step-IsValid e id now m v
Step-IsValid {e} (pick key now) v = pick_connector-IsValid e key now v

pub Reach-IsValid : {e f : Edge} → IsValid e → Reach e f → IsValid f
Reach-IsValid v here = v
Reach-IsValid v (next r s) = Step-IsValid s (Reach-IsValid v r)

-- In every interleaving of accepted connections, lost connections, control messages and picks, from
-- an empty table on, the ids in the table rise strictly and stay at or below the id counter, and no
-- two entries share a connection. It is assumed that an accepted connection is not yet in the table
-- and that the id counter has not reached its last value.
pub reachable-IsValid :
    (keep_alive : ℤ) (lb : String) {e : Edge} → Reach (start keep_alive lb) e → IsValid e
reachable-IsValid keep_alive lb r = Reach-IsValid (record { ids = omega arith; conns = tt }) r

-- ===== src/Blast/Transport.antt =====
-- internal/blast/blast.go, `makeTransports`: the `Dial` of a transport and the goroutine that waits for
-- the end of its connection, by what they do to the sockets, the log and the recorder. What quic-go
-- returns is an argument.
pub mod Sockets
mod Tests
use quicshot.Prelude.{
  ℕ, zero, suc, ◌+◌, ◌-◌, Bool, true, false, List, [], ◌∷◌, ◌++◌, map, Option, none, some,
  if◌then◌else◌,
}
use quicshot.Prelude.Int.{ℤ, pos}
use quicshot.Quicerr.{Kind, Detail, Err, classify, close_reason}
use quicshot.Udpsock.Listen.{
  SocketAct, bind, set_read_buffer, set_write_buffer, close, Listened, bad_addr, not_bound,
  no_read_buffer, no_write_buffer, listening, SocketEnv, listen,
}
use quicshot.Blast.Recorder.{Recorder, conn_lost, reset_request_stats}

pub data ConnEvent : Type 0 where
  conn_dial_failed : ℕ → Kind → Detail → ConnEvent
  conn_open : ℕ → ℕ → Bool → ConnEvent  -- with the version and whether 0-RTT was used
  conn_closed : ℕ → Kind → Detail → ConnEvent

pub data Act : Type 0 where
  socket : SocketAct → Act
  emits : ConnEvent → Act
  transport_close : Act

pub record DialEnv : Type 0 where
  pub socket_env : SocketEnv
  pub addr_ok : Bool
  pub dial_err : Option Err
  pub version : ℕ
  pub used_0rtt : Bool

abbrev pub dial_addr : ℕ → DialEnv → List Act × Bool
dial_addr idx env =
    if env.addr_ok
    then elim env.dial_err [
      | some e ↦
          let (kind, detail) = classify (some e) in
          (emits (conn_dial_failed idx kind detail) ∷ socket close ∷ [], false)
      | none ↦ (emits (conn_open idx env.version env.used_0rtt) ∷ [], true)
    ]
    else (socket close ∷ [], false)

abbrev pub if_listening : List SocketAct → Listened → List Act × Bool → List Act × Bool
if_listening acts listening (later, ok) = (map socket acts ++ later, ok)
if_listening acts bad_addr rest = (map socket acts, false)
if_listening acts not_bound rest = (map socket acts, false)
if_listening acts (no_read_buffer n) rest = (map socket acts, false)
if_listening acts (no_write_buffer n) rest = (map socket acts, false)

-- What `Dial` does, and whether it returns a connection.
unfoldable pub dial : ℤ → ℕ → DialEnv → List Act × Bool
dial recv_buf idx env =
    let (acts, r) = listen env.socket_env recv_buf (pos 0) in
    if_listening acts r (dial_addr idx env)

-- The goroutine, once the connection is done.
unfoldable pub when_done : ℕ → Option Err → List Act
when_done idx cause =
    let (kind, detail) = close_reason cause in
    emits (conn_closed idx kind detail) ∷ transport_close ∷ socket close ∷ []

-- The open sockets after some acts, and the events among them.
abbrev pub socket_after : SocketAct → ℕ → ℕ
socket_after bind n = n + 1
socket_after (set_read_buffer b) n = n
socket_after (set_write_buffer b) n = n
socket_after close n = n - 1

abbrev pub sockets_after : List Act → ℕ → ℕ
sockets_after [] n = n
sockets_after (socket a ∷ acts) n = sockets_after acts (socket_after a n)
sockets_after (emits e ∷ acts) n = sockets_after acts n
sockets_after (transport_close ∷ acts) n = sockets_after acts n

abbrev pub opens : List Act → ℕ
opens [] = 0
opens (emits (conn_open idx version used) ∷ acts) = suc (opens acts)
opens (emits (conn_dial_failed idx kind text) ∷ acts) = opens acts
opens (emits (conn_closed idx kind text) ∷ acts) = opens acts
opens (socket a ∷ acts) = opens acts
opens (transport_close ∷ acts) = opens acts

abbrev pub closes : List Act → ℕ
closes [] = 0
closes (emits (conn_open idx version used) ∷ acts) = closes acts
closes (emits (conn_dial_failed idx kind text) ∷ acts) = closes acts
closes (emits (conn_closed idx kind text) ∷ acts) = suc (closes acts)
closes (socket a ∷ acts) = closes acts
closes (transport_close ∷ acts) = closes acts

-- The client of a run: its recorder, its open sockets, the connections whose goroutine waits, and the
-- events that were written.
pub record Client : Type 0 where
  pub recorder : Recorder
  pub sockets : ℕ
  pub waiting : ℕ
  pub opened : ℕ
  pub closed : ℕ
  pub closed_at_reset : ℕ

abbrev pub new_client : Recorder → Client
new_client r = record {
  recorder = r;
  sockets = 0;
  waiting = 0;
  opened = 0;
  closed = 0;
  closed_at_reset = 0;
}

abbrev pub after_acts : List Act → Client → Client
after_acts acts c = record c {
  sockets = sockets_after acts c.sockets;
  opened = c.opened + opens acts;
  closed = c.closed + closes acts;
}

unfoldable pub dial_step : ℤ → ℕ → DialEnv → Client → Client
dial_step recv_buf idx env c =
    let (acts, ok) = dial recv_buf idx env in
    let d = after_acts acts c in record d { waiting = if ok then c.waiting + 1 else c.waiting }

unfoldable pub done_step : ℕ → Option Err → Client → Client
done_step idx cause c =
    let d = after_acts (when_done idx cause) c in
    record d { waiting = c.waiting - 1; recorder = conn_lost c.recorder idx cause }

unfoldable pub reset_step : Client → Client
reset_step c = record c { recorder = reset_request_stats c.recorder; closed_at_reset = c.closed }

-- ===== src/Blast/ZeroRtt.antt =====
-- internal/blast/zerortt.go: `probe0RTT`, by the events that it emits. The dials are arguments.
use quicshot.Prelude.{
  ℕ, Bool, true, false, List, [], ◌∷◌, ◌++◌, Option, none, some, is_empty, if◌then◌else◌,
}
use quicshot.Prelude.Bytes.{codes}
use quicshot.Quicerr.{Kind, Detail, Err, classify}

-- What `dialEarlyOnce` returns: the error, or the connection's state.
pub record EarlyDial : Type 0 where
  pub used_0rtt : Bool
  pub version : List ℕ
  pub local : List ℕ
  pub remote : List ℕ

pub data Dialed : Type 0 where
  dial_error : Err → Dialed
  dialed : EarlyDial → Dialed

-- `dialEarlyOnce` behind its socket and its dial, which may fail, too: the connection is given up when it
-- ends, or the time is over, before the handshake is complete.
pub data Handshake : Type 0 where
  complete : EarlyDial → Handshake
  aborted : Err → Handshake
  timed_out : Err → Handshake

unfoldable pub dial_early_once : Option Err → Option Err → Handshake → Dialed
dial_early_once (some e) dial h = dial_error e
dial_early_once none (some e) h = dial_error e
dial_early_once none none (complete d) = dialed d
dial_early_once none none (aborted e) = dial_error e
dial_early_once none none (timed_out e) = dial_error e

pub data ProbeEvent : Type 0 where
  first_handshake : EarlyDial → ProbeEvent
  second_handshake : EarlyDial → ProbeEvent
  second_failed : Kind → Detail → ProbeEvent
  -- the event of `Main` on an error
  probe_error : ProbeEvent

-- The second dial.
abbrev pub dial_again : Dialed → List ProbeEvent × Bool
dial_again (dialed d) = (second_handshake d ∷ [], true)
dial_again (dial_error e) =
    let (kind, detail) = classify (some e) in (second_failed kind detail ∷ [], false)

abbrev pub with_first : EarlyDial → List ProbeEvent × Bool → List ProbeEvent × Bool
with_first d (events, ok) = (first_handshake d ∷ events, ok)

-- The events, and whether there was no error. `resolves` is the address of the target, `canceled` that
-- the context is done in the pause between the dials.
unfoldable pub probe_0rtt : Bool → Dialed → Bool → Dialed → List ProbeEvent × Bool
probe_0rtt false first canceled second = ([], false)
probe_0rtt true (dial_error e) canceled second = ([], false)
probe_0rtt true (dialed d) canceled second =
    with_first d (if canceled then ([], false) else dial_again second)

abbrev pub report : List ProbeEvent × Bool → List ProbeEvent
report (events, true) = events
report (events, false) = events ++ (probe_error ∷ [])

-- The call in `Main`.
unfoldable pub main_probe : Bool → Bool → Dialed → Bool → Dialed → List ProbeEvent
main_probe wanted resolves first canceled second =
    if wanted then report (probe_0rtt resolves first canceled second) else []

-- `quicDialAddr`: the host, and the port or 443, for `net.JoinHostPort`.
unfoldable pub dial_port : List ℕ → List ℕ
dial_port port = if is_empty port then codes "443" else port

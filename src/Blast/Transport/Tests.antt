-- ===== src/Blast/Transport/Tests.antt =====
-- internal/blast/blast.go, `makeTransports`: two dials, a reset and the end of a connection.
use quicshot.Prelude.{◌<◌, true, false, none, arith}
use quicshot.Prelude.Int.{pos}
use quicshot.Udpsock.Listen.{SocketEnv, listen}
use quicshot.Blast.Recorder.{new_recorder}
use quicshot.Blast.Transport.{DialEnv, Client, new_client, dial, dial_step, done_step, reset_step}
use quicshot.Blast.Transport.Sockets.{IsTight, here, next, dials, ends, resets, reachable-IsTight}

abbrev all_well : SocketEnv
all_well = record { resolves = true; binds = true; sets_read = true; sets_write = true }

abbrev connects : DialEnv
connects = record {
  socket_env = all_well;
  addr_ok = true;
  dial_err = none;
  version = 1;
  used_0rtt = false;
}

-- The receive buffer is refused.
abbrev small_buffer : DialEnv
small_buffer = record connects { socket_env = record all_well { sets_read = false } }

abbrev warmed_up : Client
warmed_up = reset_step (
    dial_step (pos 4096) 1 small_buffer (dial_step (pos 4096) 0 connects (new_client new_recorder)))

one_waits : 0 < warmed_up.waiting
unfolding dial_step reset_step dial listen
one_waits = omega arith

reachable-IsTight_example : IsTight (done_step 0 none warmed_up)
reachable-IsTight_example = reachable-IsTight (pos 4096) (
    next (next (next (next here (dials 0 connects)) (dials 1 small_buffer)) resets)
      (ends 0 none one_waits))

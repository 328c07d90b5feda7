-- ===== src/Blast/Transport/Sockets.antt =====
-- internal/blast/blast.go and internal/udpsock/udpsock.go: the sockets of a run.
use quicshot.Prelude.{ℕ, ◌+◌, ◌<◌, ◌≡◌, Option, arith}
use quicshot.Prelude.Int.{ℤ}
use quicshot.Quicerr.{Err}
use quicshot.Udpsock.Listen.{listen}
use quicshot.Blast.Recorder.{Recorder, conn_lost, emit, reset_request_stats, new_recorder}
use quicshot.Blast.Transport.{
  DialEnv, dial, when_done, Client, new_client, dial_step, done_step, reset_step,
}

-- The books of a client.
pub record IsTight (c : Client) : Type 0 where
  pub no_leak : c.sockets ≡ c.waiting
  pub events : c.opened ≡ c.waiting + c.closed
  pub drops : c.recorder.conn_drops + c.closed_at_reset ≡ c.closed

dial_step-IsTight :
    (recv_buf : ℤ) (idx : ℕ) (env : DialEnv) (c : Client)
    → IsTight c
    → IsTight (dial_step recv_buf idx env c)
unfolding dial_step dial listen
dial_step-IsTight recv_buf idx env c t = ground arith

done_step-IsTight :
    (idx : ℕ) (cause : Option Err) (c : Client)
    → 0 < c.waiting
    → IsTight c
    → IsTight (done_step idx cause c)
unfolding done_step when_done conn_lost emit
done_step-IsTight idx cause c h t = ground arith

reset_step-IsTight : (c : Client) → IsTight c → IsTight (reset_step c)
unfolding reset_step reset_request_stats
reset_step-IsTight c t = ground arith

-- Dials, ends of connections, the reset behind the warm-up, and what else the recorder is told: nothing
-- of that touches the number of lost connections.
pub data Step (recv_buf : ℤ) (c : Client) : Client → Type 0 where
  dials : (idx : ℕ) (env : DialEnv) → Step recv_buf c (dial_step recv_buf idx env c)
  ends : (idx : ℕ) (cause : Option Err) → 0 < c.waiting → Step recv_buf c (done_step idx cause c)
  resets : Step recv_buf c (reset_step c)
  records :
      (r : Recorder)
      → r.conn_drops ≡ c.recorder.conn_drops
      → Step recv_buf c (record c { recorder = r })

pub data Reach (recv_buf : ℤ) (c : Client) : Client → Type 0 where
  here : Reach recv_buf c c
  next : {d e : Client} → Reach recv_buf c d → Step recv_buf d e → Reach recv_buf c e

records-IsTight :
    (c : Client) (r : Recorder)
    → r.conn_drops ≡ c.recorder.conn_drops
    → IsTight c
    → IsTight (record c { recorder = r })
records-IsTight c r e t = ground arith

Step-IsTight : {recv_buf : ℤ} {c d : Client} → Step recv_buf c d → IsTight c → IsTight d
Step-IsTight {recv_buf} {c} (dials idx env) t = dial_step-IsTight recv_buf idx env c t
Step-IsTight {recv_buf} {c} (ends idx cause h) t = done_step-IsTight idx cause c h t
Step-IsTight {recv_buf} {c} resets t = reset_step-IsTight c t
Step-IsTight {recv_buf} {c} (records r e) t = records-IsTight c r e t

Reach-IsTight : {recv_buf : ℤ} {c d : Client} → IsTight c → Reach recv_buf c d → IsTight d
Reach-IsTight t here = t
Reach-IsTight t (next r s) = Step-IsTight s (Reach-IsTight t r)

start-IsTight : IsTight (new_client new_recorder)
unfolding new_recorder
start-IsTight = ground arith

-- In every interleaving of dials, whichever of their calls fail, of ends of connections and of the reset
-- after the warm-up: no socket leaks and none is closed too often, for one is open for each connection
-- that has not ended; each connection that was opened has ended or waits; and the recorder counts as
-- lost those that have ended since the reset.
pub reachable-IsTight :
    (recv_buf : ℤ) {c : Client} → Reach recv_buf (new_client new_recorder) c → IsTight c
reachable-IsTight recv_buf r = Reach-IsTight start-IsTight r

-- ===== src/Blast/Load/Open.antt =====
-- internal/blast/load.go, `runOpen`: the producer and the requests that it starts, interleaved.
use native.Mathlib.Nat.{mod-lt}
use quicshot.Prelude.{ℕ, ◌+◌, ◌%◌, ◌≤◌, ◌<◌, ◌≡◌, refl, Bool, true, ◌⊎◌, inl, inr, dec_lt, arith}
use quicshot.Blast.Load.{OpenRun, omits, starts, open_tick, open_done}

pub data Step (limit room conns : ℕ) (s : OpenRun) : OpenRun → Type 0 where
  tick : (paced : Bool) → Step limit room conns s (open_tick limit room conns paced s).1
  done : 0 < s.inflight → Step limit room conns s (open_done s)

pub data Reach (limit room conns : ℕ) (s : OpenRun) : OpenRun → Type 0 where
  here : Reach limit room conns s s
  next :
      {t u : OpenRun}
      → Reach limit room conns s t
      → Step limit room conns t u
      → Reach limit room conns s u

abbrev pub start : OpenRun
start = record { offered = 0; omitted = 0; inflight = 0; finished = 0; i = 0 }

-- Each offered request was omitted, is in flight or has finished; the channel is never overfull; and
-- the limit is never passed.
pub record Accounted (limit room : ℕ) (s : OpenRun) : Type 0 where
  pub all_offered : s.offered ≡ s.omitted + s.inflight + s.finished
  pub started : s.i ≡ s.inflight + s.finished
  pub within : s.inflight ≤ room
  pub limited : 0 < limit → s.offered ≤ limit

Step-Accounted :
    (limit room conns : ℕ) {s t : OpenRun}
    → Step limit room conns s t
    → Accounted limit room s
    → Accounted limit room t
unfolding open_tick open_done
Step-Accounted limit room conns (tick paced) a = ground arith
Step-Accounted limit room conns (done h) a = ground arith

-- In every interleaving of ticks and finished requests, from the start of the run on: every tick that
-- was offered is omitted, in flight or finished; no more requests are in flight than the channel
-- holds; and with a limit no more are offered than it allows.
pub reachable-Accounted :
    (limit room conns : ℕ) {s : OpenRun} → Reach limit room conns start s → Accounted limit room s
reachable-Accounted limit room conns here = record {
  all_offered = refl;
  started = refl;
  within = omega arith;
  limited = λ _. omega arith;
}
reachable-Accounted limit room conns (next r s) =
    Step-Accounted limit room conns s (reachable-Accounted limit room conns r)

-- What a tick does while the pacer lets it and the limit is not met: it counts as offered, and it
-- starts a request, on a connection that exists, if there is room in flight, and is omitted if there
-- is none.
pub open_tick_lem :
    (limit room conns : ℕ) (s : OpenRun)
    → 0 < conns
    → (limit ≡ 0) ⊎ (s.offered < limit)
    → let (t, s') = open_tick limit room conns true s in
      (s'.offered ≡ s.offered + 1)
      × (((s.inflight < room)
            × ((c : ℕ) × (t ≡ starts c) × (c < conns) × (s'.inflight ≡ s.inflight + 1)))
          ⊎ ((room ≤ s.inflight)
              × (t ≡ omits)
              × (s'.omitted ≡ s.omitted + 1)
              × (s'.inflight ≡ s.inflight)))
unfolding open_tick
open_tick_lem limit room conns s pos go = (
  ground arith,
  elim (dec_lt s.inflight room) [
    | yes h ↦ inl (h, (s.i % conns, ground arith, mod-lt s.i pos, ground arith))
    | no h ↦ inr (omega arith, ground arith, ground arith, ground arith)
  ],
)

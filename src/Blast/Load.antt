-- ===== src/Blast/Load.antt =====
-- internal/blast/load.go: the pacer and the two load loops. Times and intervals are nanoseconds.
pub mod Pacing
pub mod Closed
pub mod Open
use quicshot.Prelude.{
  ℕ, ◌+◌, ◌-◌, ◌*◌, ◌/◌, ◌%◌, Bool, true, false, ◌&&◌, ◌||◌, Option, none, some, ltb, leb, not,
  ◌==◌, if◌then◌else◌,
}
use quicshot.Prelude.Int.{ℤ, pos, pos_part, leb_ℤ}

-- `next` is `none` for the zero `time.Time`.
pub record TokenPacer : Type 0 where
  pub interval : ℕ
  pub next : Option ℕ

-- The rate is num / den per second, den > 0, and the division is exact down to the nanosecond.
unfoldable pub new_token_pacer : ℤ → ℕ → Option TokenPacer
new_token_pacer num den =
    if leb_ℤ num (pos 0)
    then none
    else some (record { interval = 1000000000 * den / pos_part num; next = none })

-- The critical section of `wait`: how long to sleep (`none` for not at all), and the pacer after it.
abbrev pub reserve_at : TokenPacer → ℕ → Option ℕ → Option ℕ × TokenPacer
reserve_at p now none = (none, record p { next = some (now + p.interval) })
reserve_at p now (some t) =
    if ltb now t
    then (some (t - now), record p { next = some (t + p.interval) })
    else (none, record p { next = some (now + p.interval) })

unfoldable pub reserve : TokenPacer → ℕ → Option ℕ × TokenPacer
reserve p now = reserve_at p now p.next

-- `wait`: a nil pacer and a start without sleep ask whether the context is done; a sleep ends by the
-- timer or by the context, whichever is first.
abbrev pub wait_after : Option ℕ → Bool → Bool → Bool
wait_after none ctx_done timer_fired = not ctx_done
wait_after (some d) ctx_done timer_fired = timer_fired

unfoldable pub wait : Option TokenPacer → ℕ → Bool → Bool → Bool × Option TokenPacer
wait none now ctx_done timer_fired = (not ctx_done, none)
wait (some p) now ctx_done timer_fired =
    let (d, p') = reserve p now in (wait_after d ctx_done timer_fired, some p')

-- The workers of `runClosed`, counted by where they stand: before the loop's tests, past them and
-- with a request under way, or returned. `stopped` counts those that the request limit stopped.
pub record Workers : Type 0 where
  pub requests : ℕ
  pub ready : ℕ
  pub busy : ℕ
  pub stopped : ℕ
  pub canceled : ℕ

abbrev pub limit_reached : ℕ → ℕ → Bool
limit_reached limit requests = ltb 0 limit && leb limit requests

-- One worker passes the tests of the loop or returns: `ctx.Err()`, the limit, and the pacer.
unfoldable pub worker_test : ℕ → Bool → Bool → Workers → Workers
worker_test limit ctx_done paced w =
    if ctx_done
    then record w { ready = w.ready - 1; canceled = w.canceled + 1 }
    else if limit_reached limit w.requests
    then record w { ready = w.ready - 1; stopped = w.stopped + 1 }
    else if paced
    then record w { ready = w.ready - 1; busy = w.busy + 1 }
    else record w { ready = w.ready - 1; canceled = w.canceled + 1 }

-- `doRequest` returns: it has counted a request or not (abandoned, or never sent).
unfoldable pub worker_done : Bool → Workers → Workers
worker_done counted w = record w {
  busy = w.busy - 1;
  ready = w.ready + 1;
  requests = if counted then w.requests + 1 else w.requests;
}

-- The producer of `runOpen` and its requests: `i` is the loop's counter, `inflight` the fill of the
-- channel, `finished` the requests that have returned.
pub record OpenRun : Type 0 where
  pub offered : ℕ
  pub omitted : ℕ
  pub inflight : ℕ
  pub finished : ℕ
  pub i : ℕ

-- What one round of the producer's loop does: it stops, drops the tick, or starts a request on a
-- connection.
pub data Tick : Type 0 where
  stops : Tick
  omits : Tick
  starts : ℕ → Tick

unfoldable pub open_tick : ℕ → ℕ → ℕ → Bool → OpenRun → Tick × OpenRun
open_tick limit room conns paced s =
    if not paced || limit_reached limit s.offered
    then (stops, s)
    else if ltb s.inflight room
    then (
      starts (s.i % conns),
      record s { offered = s.offered + 1; inflight = s.inflight + 1; i = s.i + 1 },
    )
    else (omits, record s { offered = s.offered + 1; omitted = s.omitted + 1 })

-- A request returns and frees its place in the channel.
unfoldable pub open_done : OpenRun → OpenRun
open_done s = record s { inflight = s.inflight - 1; finished = s.finished + 1 }

-- ===== src/Blast/Load/Closed.antt =====
-- internal/blast/load.go, `runClosed`: any interleaving of the workers. The test of the request limit and
-- the count are two steps.
use quicshot.Prelude.{ℕ, ◌+◌, ◌≤◌, ◌<◌, ◌≡◌, Bool, arith}
use quicshot.Blast.Load.{Workers, worker_test, worker_done}

-- A worker in front of the tests takes them; the context and the pacer answer as they will. Or a
-- request under way returns.
pub data Step (limit : ℕ) (w : Workers) : Workers → Type 0 where
  test : (ctx_done paced : Bool) → 0 < w.ready → Step limit w (worker_test limit ctx_done paced w)
  done : (counted : Bool) → 0 < w.busy → Step limit w (worker_done counted w)

pub data Reach (limit : ℕ) (w : Workers) : Workers → Type 0 where
  here : Reach limit w w
  next : {u v : Workers} → Reach limit w u → Step limit u v → Reach limit w v

abbrev pub start : ℕ → Workers
start n = record { requests = 0; ready = n; busy = 0; stopped = 0; canceled = 0 }

record Inv (limit n : ℕ) (w : Workers) : Type 0 where
  all_there : w.ready + w.busy + w.stopped + w.canceled ≡ n
  bounded : 0 < limit → w.requests + w.busy < limit + n
  met : 0 < w.stopped → limit ≤ w.requests
  limited : 0 < w.stopped → 0 < limit

Step-Inv : (limit n : ℕ) {w v : Workers} → Step limit w v → Inv limit n w → Inv limit n v
unfolding worker_test worker_done
Step-Inv limit n (test ctx_done paced h) i = ground arith
Step-Inv limit n (done counted h) i = ground arith

Reach-Inv : (limit n : ℕ) {w v : Workers} → Inv limit n w → Reach limit w v → Inv limit n v
Reach-Inv limit n i here = i
Reach-Inv limit n i (next r s) = Step-Inv limit n s (Reach-Inv limit n i r)

reachable-Inv : (limit n : ℕ) {w : Workers} → 0 < n → Reach limit (start n) w → Inv limit n w
reachable-Inv limit n k r = Reach-Inv limit n started r
  where
    started : Inv limit n (start n)
    started = record {
      all_there = omega arith;
      bounded = λ _. omega arith;
      met = λ a. omega arith;
      limited = λ a. omega arith;
    }

-- With a limit, the requests counted and under way stay below the limit plus the number of workers, at
-- every point of every interleaving.
pub overshoot :
    (limit n : ℕ) {w : Workers}
    → 0 < limit
    → 0 < n
    → Reach limit (start n) w
    → w.requests + w.busy < limit + n
overshoot limit n h k r = (reachable-Inv limit n k r).bounded h

-- When every worker has returned and none was cancelled, a limit was set, it has been reached, and it
-- was passed by less than the number of workers.
pub all_stopped :
    (limit n : ℕ) {w : Workers}
    → 0 < n
    → Reach limit (start n) w
    → w.ready ≡ 0
    → w.busy ≡ 0
    → w.canceled ≡ 0
    → (0 < limit) × (limit ≤ w.requests) × (w.requests < limit + n)
all_stopped limit n {w} k r a b c =
    let i = reachable-Inv limit n k r in
    let some_stopped : 0 < w.stopped = omega (arith, i.all_there) in
    let set = i.limited some_stopped in (set, i.met some_stopped, omega (arith, i.bounded set))

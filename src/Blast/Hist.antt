-- ===== src/Blast/Hist.antt =====
-- internal/blast/hist.go: the latency samples that the summary's percentiles are taken from.
-- A duration is a number of nanoseconds.
pub mod Window
use quicshot.Prelude.{
  ℕ, ◌+◌, ◌%◌, List, [], ◌∷◌, ◌++◌, Option, none, some, length, set, ltb, if◌then◌else◌,
}

-- `room` is the capacity of the slice, which `make` sets and no `append` changes.
pub record LatencyHist : Type 0 where
  pub samples : List ℕ
  pub room : ℕ
  pub seen : ℕ

unfoldable pub new_latency_hist : ℕ → LatencyHist
new_latency_hist max = record { samples = []; room = if ltb max 1 then 1 else max; seen = 0 }

-- `add` on a buffer that is there.
unfoldable pub push : LatencyHist → ℕ → LatencyHist
push h d =
    let seen = h.seen + 1 in
    if ltb (length h.samples) h.room
    then record h { samples = h.samples ++ (d ∷ []); seen = seen }
    else record h { samples = set h.samples (seen % h.room) d; seen = seen }

-- A nil receiver is `none`.
unfoldable pub add : Option LatencyHist → ℕ → Option LatencyHist
add none d = none
add (some h) d = some (push h d)

unfoldable pub len : Option LatencyHist → ℕ
len none = 0
len (some h) = length h.samples

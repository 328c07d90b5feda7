-- ===== src/Blast/Recorder/Verdicts.antt =====
-- internal/blast/blast.go, `verdict`: when a run passes.
use quicshot.Prelude.{
  ℕ, ◌*◌, ◌≤◌, ◌≡◌, ◌↔◌, ◌⊎◌, ◌&&◌, Option, none, some, ltb, if◌then◌else◌, arith,
}
use quicshot.Prelude.Int.{ℤ, pos, negsuc, pos_part, ◌≤ℤ◌, leb_ℤ, ltb_ℤ}
use quicshot.Blast.Recorder.{Recorder}

-- `float64` limits are fractions num / den percent, den > 0, compared exactly.
pub record Percent : Type 0 where
  pub num : ℤ
  pub den : ℕ

pub data Refusal : Type 0 where
  failure_rate : ℕ → ℕ → Refusal
  too_many_drops : ℕ → Refusal

unfoldable pub verdict : Recorder → Percent → ℤ → Option Refusal
verdict r max_fail max_drops =
    if leb_ℤ (pos 0) max_fail.num
      && ltb 0 r.requests
      && ltb (pos_part max_fail.num * r.requests) (100 * r.failures * max_fail.den)
    then some (failure_rate r.failures r.requests)
    else if leb_ℤ (pos 0) max_drops && ltb_ℤ max_drops (pos r.conn_drops)
    then some (too_many_drops r.conn_drops)
    else none

-- The failure rate is within the limit: no limit is set, or no request was counted, or the failures
-- are at most num / den percent of the requests.
abbrev pub RateOk : Recorder → Percent → Type 0
RateOk r p =
    (p.num ≤ℤ negsuc 0)
    ⊎ (r.requests ≡ 0)
    ⊎ (100 * r.failures * p.den ≤ pos_part p.num * r.requests)

abbrev pub DropsOk : Recorder → ℤ → Type 0
DropsOk r max_drops = (max_drops ≤ℤ negsuc 0) ⊎ (pos r.conn_drops ≤ℤ max_drops)

-- A run passes exactly when both the failure rate and the number of lost connections are within their
-- limits; a rate or a count that equals its limit passes.
verdict-none :
    (r : Recorder) (p : Percent) (max_drops : ℤ)
    → (verdict r p max_drops ≡ none) ↔ (RateOk r p × DropsOk r max_drops)
unfolding verdict
verdict-none r p max_drops = (λ h. ground arith, λ h. ground arith)

-- The failure rate is reported before the drops, and each report carries the numbers that were
-- compared.
pub verdict-some :
    (r : Recorder) (p : Percent) (max_drops : ℤ) (why : Refusal)
    → verdict r p max_drops ≡ some why
    → ((¬ RateOk r p) × (why ≡ failure_rate r.failures r.requests))
      ⊎ (RateOk r p × (¬ DropsOk r max_drops) × (why ≡ too_many_drops r.conn_drops))
unfolding verdict
verdict-some r p max_drops why h = ground arith

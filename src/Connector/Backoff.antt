-- ===== src/Connector/Backoff.antt =====
-- internal/connector/connector.go, `reconnectLoop`: how long the loop waits.
use quicshot.Prelude.{
  ℕ, zero, suc, ◌≡◌, refl, ap, sym, ◌∙◌, ◌+◌, arith, List, [], ◌∷◌, some, get_elem?,
}
use quicshot.Connector.{
  first_backoff, next_backoff, Round, ended_running, ended_waiting, waited, reconnect_loop,
}

-- Half a second, then twice as long each time, up to sixteen seconds.
abbrev pub wait_at : ℕ → ℕ
wait_at zero = 500000000
wait_at (suc zero) = 1000000000
wait_at (suc (suc zero)) = 2000000000
wait_at (suc (suc (suc zero))) = 4000000000
wait_at (suc (suc (suc (suc zero)))) = 8000000000
wait_at (suc (suc (suc (suc (suc k))))) = 16000000000

next_backoff-wait_at : (j : ℕ) → next_backoff (wait_at j) ≡ wait_at (suc j)
unfolding next_backoff
next_backoff-wait_at zero = refl
next_backoff-wait_at (suc zero) = refl
next_backoff-wait_at (suc (suc zero)) = refl
next_backoff-wait_at (suc (suc (suc zero))) = refl
next_backoff-wait_at (suc (suc (suc (suc zero)))) = refl
next_backoff-wait_at (suc (suc (suc (suc (suc k))))) = refl

-- Counting from the wait `j`.
abbrev from : ℕ → ℕ → ℕ
from j zero = j
from j (suc k) = from (suc j) k

from_wait :
    (j : ℕ) (rounds : List Round) (k w : ℕ)
    → get_elem? (reconnect_loop (wait_at j) rounds) k ≡ some w
    → w ≡ wait_at (from j k)
unfolding reconnect_loop
from_wait j [] k w h = cc
from_wait j (ended_running ∷ rounds) k w h = cc
from_wait j (ended_waiting ∷ rounds) zero w h = cc
from_wait j (ended_waiting ∷ rounds) (suc k) w h = cc
from_wait j (waited ∷ rounds) zero w h = cc
from_wait j (waited ∷ rounds) (suc k) w h =
    from_wait (suc j) rounds k w
      (ap (λ b. get_elem? (reconnect_loop b rounds) k) (sym (next_backoff-wait_at j)) ∙ h)

from_zero : (j k : ℕ) → from j k ≡ j + k
from_zero j zero = omega arith
from_zero j (suc k) = omega (arith, from_zero (suc j) k)

-- Whatever the rounds bring, the wait number `k` of a reconnecting connector is half a second doubled
-- `k` times, and sixteen seconds from the fifth doubling on.
pub reconnect_loop_lem :
    (rounds : List Round) (k w : ℕ)
    → get_elem? (reconnect_loop first_backoff rounds) k ≡ some w
    → w ≡ wait_at k
reconnect_loop_lem rounds k w h =
    from_wait 0 rounds k w h ∙ ap wait_at (from_zero 0 k ∙ omega arith)

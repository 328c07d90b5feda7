-- ===== src/Edge/Startup/Waiting.antt =====
-- internal/edge/edge.go: when the waits for the edge end.
use quicshot.Prelude.{ℕ, zero, suc, ◌+◌, ◌≤◌, ◌<◌, ◌≡◌, ◌⊎◌, subst, Bool, true, false, arith}
use quicshot.Edge.Registry.{Edge, registered_locked}
use quicshot.Edge.Startup.{done, gave_up, wait_registered}

add_zero : (i : ℕ) → i + 0 ≡ i
add_zero i = omega arith

zero_add : (k : ℕ) → k ≡ 0 + k
zero_add k = omega arith

add_suc : (i k : ℕ) → i + suc k ≡ i + 1 + k
add_suc i k = omega arith

-- From round `i` on, so many rounds before the one at which enough are registered.
registers_from :
    (k fuel : ℕ) (edge_at : ℕ → Edge) (now : ℕ → ℕ) (ctx_done : ℕ → Bool) (n i : ℕ)
    → n ≤ registered_locked (edge_at (i + k)) (now (i + k))
    → ((j : ℕ) → j < i + k → ctx_done j ≡ false)
    → k < fuel
    → wait_registered fuel edge_at now ctx_done n i ≡ done
unfolding wait_registered
registers_from k zero edge_at now ctx_done n i r c h = elim h [ ]
registers_from zero (suc fuel) edge_at now ctx_done n i r c h =
    let enough = subst (λ j. n ≤ registered_locked (edge_at j) (now j)) (add_zero i) r in
    ground (arith, enough)
registers_from (suc k) (suc fuel) edge_at now ctx_done n i r c h =
    let enough = subst (λ j. n ≤ registered_locked (edge_at j) (now j)) (add_suc i k) r in
    let later =
      registers_from k fuel edge_at now ctx_done n (i + 1) enough (λ j l. c j (omega arith))
        (omega arith) in
    ground (arith, c i (omega arith), later)

-- If at some round enough connectors are registered and live, and the context was not done at the end of
-- a round before, then `WaitRegistered` returns without an error, at that round or before it. What
-- happens to the table in between does not matter.
pub wait_registered_live :
    (k : ℕ) (edge_at : ℕ → Edge) (now : ℕ → ℕ) (ctx_done : ℕ → Bool) (n : ℕ)
    → n ≤ registered_locked (edge_at k) (now k)
    → ((j : ℕ) → j < k → ctx_done j ≡ false)
    → wait_registered (k + 1) edge_at now ctx_done n 0 ≡ done
wait_registered_live k edge_at now ctx_done n r c =
    registers_from k (k + 1) edge_at now ctx_done n 0
      (subst (λ j. n ≤ registered_locked (edge_at j) (now j)) (zero_add k) r)
      (λ j l. c j (omega arith)) (omega arith)

gives_up_from :
    (k fuel : ℕ) (edge_at : ℕ → Edge) (now : ℕ → ℕ) (ctx_done : ℕ → Bool) (n i : ℕ)
    → ctx_done (i + k) ≡ true
    → k < fuel
    → (wait_registered fuel edge_at now ctx_done n i ≡ done)
      ⊎ (wait_registered fuel edge_at now ctx_done n i ≡ gave_up)
unfolding wait_registered
gives_up_from k zero edge_at now ctx_done n i c h = elim h [ ]
gives_up_from zero (suc fuel) edge_at now ctx_done n i c h =
    ground (arith, subst (λ j. ctx_done j ≡ true) (add_zero i) c)
gives_up_from (suc k) (suc fuel) edge_at now ctx_done n i c h = ground (
  arith,
  gives_up_from k fuel edge_at now ctx_done n (i + 1)
      (subst (λ j. ctx_done j ≡ true) (add_suc i k) c) (omega arith),
)

-- The wait ends at the latest at the round at whose end the context is done.
pub wait_registered_ends :
    (k : ℕ) (edge_at : ℕ → Edge) (now : ℕ → ℕ) (ctx_done : ℕ → Bool) (n : ℕ)
    → ctx_done k ≡ true
    → (wait_registered (k + 1) edge_at now ctx_done n 0 ≡ done)
      ⊎ (wait_registered (k + 1) edge_at now ctx_done n 0 ≡ gave_up)
wait_registered_ends k edge_at now ctx_done n c =
    gives_up_from k (k + 1) edge_at now ctx_done n 0 (subst (λ j. ctx_done j ≡ true) (zero_add k) c)
      (omega arith)

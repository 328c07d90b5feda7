-- ===== src/Blast/Config/Limits.antt =====
-- internal/blast/blast.go: what `validate` accepts, the range of `inflight`, and `percentile`.
use quicshot.Prelude.{
  ℕ, zero, suc, ◌-◌, ◌≤◌, ◌<◌, ◌≡◌, ◌↔◌, ◌⊎◌, sym, subst, List, [], ◌∷◌, none, length, get_or, leb,
  if◌then◌else◌, arith,
}
use quicshot.Prelude.Bytes.{codes, bytes_eq_iff}
use quicshot.Prelude.Int.{pos, ◌≤ℤ◌}
use quicshot.Prelude.Members.{Member, get_or-Member}
use quicshot.Blast.Config.{Config, validate, inflight, percentile}

-- A configuration is accepted exactly when the mode is "closed", or "open" with a positive rate, and
-- there is at least one connection and one worker.
pub validate-none :
    (c : Config)
    → (validate c ≡ none) ↔ (
        ((c.mode ≡ codes "closed") ⊎ ((c.mode ≡ codes "open") × (pos 1 ≤ℤ c.rps_num)))
        × (pos 1 ≤ℤ c.conns)
        × (pos 1 ≤ℤ c.workers))
unfolding validate
validate-none c = (
  λ h. ground (arith, bytes_eq_iff c.mode (codes "closed"), bytes_eq_iff c.mode (codes "open")),
  λ h. ground (arith, bytes_eq_iff c.mode (codes "closed"), bytes_eq_iff c.mode (codes "open")),
)

-- The cap on requests in flight lies between 1 and 4096 for every configuration, also where the
-- product of connections and workers overflows, and a -max-inflight in that range is taken as it is.
pub inflight_bounds :
    (c : Config)
    → (pos 1 ≤ℤ inflight c)
      × (inflight c ≤ℤ pos 4096)
      × ((¬ (pos 1 ≤ℤ c.max_inflight))
          ⊎ (¬ (c.max_inflight ≤ℤ pos 4096))
          ⊎ (inflight c ≡ c.max_inflight))
unfolding inflight
inflight_bounds c = (ground arith, ground arith, ground arith)

abbrev pub IsSorted : List ℕ → Type 0
IsSorted [] = Unit {0}
IsSorted (x ∷ []) = Unit {0}
IsSorted (x ∷ y ∷ xs) = (x ≤ y) × IsSorted (y ∷ xs)

head-le :
    (x : ℕ) (xs : List ℕ) (i : ℕ)
    → IsSorted (x ∷ xs)
    → i < length (x ∷ xs)
    → x ≤ get_or (x ∷ xs) i 0
head-le x xs zero s h = omega arith
head-le x [] (suc i) s h = absurd (omega arith)
head-le x (y ∷ xs) (suc i) s h = omega (arith, head-le y xs i s.1 (omega arith))

get_or_mono :
    (xs : List ℕ) (i j : ℕ) → IsSorted xs → i ≤ j → j < length xs → get_or xs i 0 ≤ get_or xs j 0
get_or_mono [] i j s h k = elim k [ ]
get_or_mono (x ∷ xs) zero j s h k = head-le x xs j s k
get_or_mono (x ∷ xs) (suc i) zero s h k = absurd (omega arith)
get_or_mono (x ∷ []) (suc i) (suc j) s h k = absurd (omega arith)
get_or_mono (x ∷ y ∷ xs) (suc i) (suc j) s h k =
    get_or_mono (y ∷ xs) i j s.1 (omega arith) (omega arith)

abbrev clip : ℕ → ℕ → ℕ
clip n idx = if leb n idx then n - 1 else idx

clip_lt : (n idx : ℕ) → 0 < n → clip n idx < n
clip_lt n idx h = ground arith

clip_mono : (n i j : ℕ) → i ≤ j → clip n i ≤ clip n j
clip_mono n i j h = ground arith

percentile_at :
    (p : ℕ → ℕ) (x : ℕ) (xs : List ℕ)
    → percentile p (x ∷ xs) ≡ get_or (x ∷ xs) (clip (suc (length xs)) (p (suc (length xs)))) 0
unfolding percentile
percentile_at p x xs = ground arith

-- However the float product comes out, the percentile of samples that exist is one of them.
pub percentile-Member : (p : ℕ → ℕ) (x : ℕ) (xs : List ℕ) → Member (percentile p (x ∷ xs)) (x ∷ xs)
percentile-Member p x xs =
    let n : ℕ = suc (length xs) in
    subst (λ v. Member v (x ∷ xs)) (sym (percentile_at p x xs))
      (get_or-Member (x ∷ xs) (clip n (p n)) 0 (clip_lt n (p n) (omega arith)))

-- For sorted samples a larger float product never gives a smaller percentile.
pub percentile_mono :
    (p q : ℕ → ℕ) (x : ℕ) (xs : List ℕ)
    → IsSorted (x ∷ xs)
    → p (length (x ∷ xs)) ≤ q (length (x ∷ xs))
    → percentile p (x ∷ xs) ≤ percentile q (x ∷ xs)
percentile_mono p q x xs s h =
    let n : ℕ = suc (length xs) in
    rw (percentile_at p x xs, percentile_at q x xs)
      (get_or_mono (x ∷ xs) (clip n (p n)) (clip n (q n)) s (clip_mono n (p n) (q n) h)
        (clip_lt n (q n) (omega arith)))

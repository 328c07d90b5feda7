-- ===== src/Prelude/Maps.antt =====
-- Go maps as association lists without repeated keys, over any key type with a Boolean equality.
use Prim.Native.Nat.{ℕ, ◌+◌}
use Prim.Native.String.{String}
use mathlib.Core.Path.{◌≡◌, refl}
use mathlib.Core.Logic.{◌↔◌}
use mathlib.Core.Bool.{Bool, true}
use mathlib.Core.Option.{Option, none, some}
use mathlib.Core.List.{List, [], ◌∷◌}
use native.Mathlib.Omega.{arith}
use text.Mathlib.Text.{◌==◌ as str_eq}
use text.Mathlib.TextEquality.{eq_iff}
use quicshot.Prelude.Cond.{◌==◌ as nat_beq, ==_iff, if◌then◌else◌}

pub record Key {ℓ} (K : Type ℓ) : Type ℓ where
  pub same : K → K → Bool
  pub same_iff : (a b : K) → (same a b ≡ true) ↔ (a ≡ b)

instance abbrev pub nat_key : Key ℕ
nat_key = record { same = nat_beq; same_iff = ==_iff }

instance abbrev pub string_key : Key String
string_key = record { same = str_eq; same_iff = eq_iff }

module _ {ℓ κ} {K : Type ℓ} {V : Type κ} ⦃k : Key K⦄ where
  unfoldable pub lookup : K → List (K × V) → Option V
  lookup a [] = none
  lookup a ((b, v) ∷ m) = if k.same b a then some v else lookup a m

  -- `m[a] = v`.
  unfoldable pub insert : K → V → List (K × V) → List (K × V)
  insert a v [] = (a, v) ∷ []
  insert a v ((b, w) ∷ m) = if k.same b a then (a, v) ∷ m else (b, w) ∷ insert a v m

  pub lookup-insert :
      (a b : K) (v : V) (m : List (K × V))
      → lookup b (insert a v m) ≡ (if k.same a b then some v else lookup b m)
  unfolding lookup insert
  lookup-insert a b v [] = refl
  lookup-insert a b v ((c, w) ∷ m) =
      ground (arith, k.same_iff a b, k.same_iff c a, k.same_iff c b, lookup-insert a b v m)

-- A missing key of a map of numbers reads as 0.
abbrev pub or_zero : Option ℕ → ℕ
or_zero none = 0
or_zero (some n) = n

module _ {ℓ} {K : Type ℓ} ⦃k : Key K⦄ where
  unfoldable pub count_at : K → List (K × ℕ) → ℕ
  count_at a m = or_zero (lookup a m)

  -- `m[a]++`.
  unfoldable pub bump : K → List (K × ℕ) → List (K × ℕ)
  bump a m = insert a (count_at a m + 1) m

  pub count_at-bump :
      (a b : K) (m : List (K × ℕ))
      → count_at b (bump a m) ≡ (if k.same a b then count_at b m + 1 else count_at b m)
  unfolding count_at bump
  count_at-bump a b m =
      ground (arith, lookup-insert a b (or_zero (lookup a m) + 1) m, k.same_iff a b)

  -- The sum of a histogram.
  unfoldable pub total : List (K × ℕ) → ℕ
  total [] = 0
  total ((b, n) ∷ m) = n + total m

  pub total-bump : (a : K) (m : List (K × ℕ)) → total (bump a m) ≡ total m + 1
  unfolding total bump count_at lookup insert
  total-bump a [] = omega arith
  total-bump a ((b, n) ∷ m) = ground (arith, total-bump a m)

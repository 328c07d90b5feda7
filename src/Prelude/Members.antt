-- ===== src/Prelude/Members.antt =====
-- Membership in a list by recursion, so that it computes to a choice of places.
use Prim.Native.Nat.{ℕ, zero, suc, ◌<◌}
use mathlib.Core.Path.{◌≡◌, refl}
use mathlib.Core.Logic.{◌⊎◌, inl, inr}
use mathlib.Core.List.{List, [], ◌∷◌, ◌++◌}
use native.Mathlib.Omega.{arith}
use quicshot.Prelude.Lists.{length, get_or}

abbrev pub Member : {A : Type 0} → A → List A → Type 0
Member a [] = ⊥
Member a (x ∷ xs) = (x ≡ a) ⊎ Member a xs

abbrev pub All : {A : Type 0} → (A → Type 0) → List A → Type 0
All P [] = Unit {0}
All P (x ∷ xs) = P x × All P xs

pub get_or-Member :
    {A : Type 0} (xs : List A) (i : ℕ) (d : A) → i < length xs → Member (get_or xs i d) xs
get_or-Member [] i d h = elim h [ ]
get_or-Member (x ∷ xs) zero d h = inl refl
get_or-Member (x ∷ xs) (suc i) d h = inr (get_or-Member xs i d (omega arith))

pub All-append :
    {A : Type 0} (P : A → Type 0) (xs ys : List A) → All P xs → All P ys → All P (xs ++ ys)
All-append P [] ys hx hy = hy
All-append P (x ∷ xs) ys hx hy = (hx.0, All-append P xs ys hx.1 hy)

-- ===== src/Blast/Summary/Order.antt =====
-- internal/blast/blast.go: the report does not depend on the order in which Go ranges over its maps.
use mathlib.Core.Path.{ap₂}
use mathlib.Core.Logic.{∥∥₁_elim}
use mathlib.Core.List.{Perm}
use mathlib.Core.List.Permᴰ.{Permᴰ}
use quicshot.Prelude.{
  ℕ, ◌≡◌, ℕ_discrete, refl, ◌∙◌, Bool, true, List, [], ◌∷◌, inl, inr, ◌⊎◌, leb, arith,
}
use quicshot.Blast.Recorder.{Recorder}
use quicshot.Blast.Summary.{
  place, sort, bytes_le, Ranges, Texts, summary, write_int_histogram, write_string_histogram,
  write_proto_summary, write_cf_code_summary,
}

-- A test of order that is total, and that tells two that stand in both orders to be one.
pub record IsOrder {A : Type 0} (le : A → A → Bool) : Type 0 where
  pub either : (a b : A) → (le a b ≡ true) ⊎ (le b a ≡ true)
  pub antisym : (a b : A) → le a b ≡ true → le b a ≡ true → a ≡ b
  pub trans : (a b c : A) → le a b ≡ true → le b c ≡ true → le a c ≡ true

module _ {A : Type 0} (le : A → A → Bool) (ord : IsOrder le) where
  place_comm : (a b : A) (l : List A) → place le a (place le b l) ≡ place le b (place le a l)
  unfolding place
  place_comm a b [] = ground (arith, ord.either a b, ord.antisym a b)
  place_comm a b (c ∷ l) = ground (
    arith,
    ord.either a b,
    ord.either a c,
    ord.either b c,
    ord.antisym a b,
    ord.trans a b c,
    ord.trans b a c,
    place_comm a b l,
  )

  sort-permᴰ : {l m : List A} → Permᴰ l m → sort le l ≡ sort le m
  unfolding sort
  sort-permᴰ Permᴰ.nil = refl
  sort-permᴰ (Permᴰ.cons e p) = ap₂ (place le) e (sort-permᴰ p)
  sort-permᴰ (Permᴰ.swap {a = a} {b = b} {l = l} e f) =
      place_comm a b (sort le l) ∙ ap₂ (λ x y. place le x (place le y (sort le l))) f e
  sort-permᴰ (Permᴰ.trans p q) = sort-permᴰ p ∙ sort-permᴰ q

pub leb-IsOrder : IsOrder leb
leb-IsOrder = record {
  either = λ a b. ground arith;
  antisym = λ a b h k. ground arith;
  trans = λ a b c h k. ground arith;
}

bytes_le_either : (s t : List ℕ) → (bytes_le s t ≡ true) ⊎ (bytes_le t s ≡ true)
unfolding bytes_le
bytes_le_either [] t = inl refl
bytes_le_either (a ∷ s) [] = inr refl
bytes_le_either (a ∷ s) (b ∷ t) = ground (arith, bytes_le_either s t)

bytes_le_antisym : (s t : List ℕ) → bytes_le s t ≡ true → bytes_le t s ≡ true → s ≡ t
unfolding bytes_le
bytes_le_antisym [] [] h k = refl
bytes_le_antisym [] (b ∷ t) h k = cc
bytes_le_antisym (a ∷ s) [] h k = cc
bytes_le_antisym (a ∷ s) (b ∷ t) h k = ground (arith, bytes_le_antisym s t)

bytes_le_trans : (s t u : List ℕ) → bytes_le s t ≡ true → bytes_le t u ≡ true → bytes_le s u ≡ true
unfolding bytes_le
bytes_le_trans [] t u h k = refl
bytes_le_trans (a ∷ s) [] u h k = cc
bytes_le_trans (a ∷ s) (b ∷ t) [] h k = cc
bytes_le_trans (a ∷ s) (b ∷ t) (c ∷ u) h k = ground (arith, bytes_le_trans s t u)

bytes_le-IsOrder : IsOrder bytes_le
bytes_le-IsOrder = record {
  either = bytes_le_either;
  antisym = bytes_le_antisym;
  trans = bytes_le_trans;
}

ints_perm : {l m : List ℕ} → Perm l m → sort leb l ≡ sort leb m
ints_perm p = ∥∥₁_elim p (hlevel ℕ_discrete) (sort-permᴰ leb leb-IsOrder)

texts_perm : {l m : List (List ℕ)} → Perm l m → sort bytes_le l ≡ sort bytes_le m
texts_perm p = ∥∥₁_elim p (hlevel ℕ_discrete) (sort-permᴰ bytes_le bytes_le-IsOrder)

-- Whichever orders Go ranges over the four maps in, the report is the same, line by line.
pub summary_order :
    (t : Texts) (r : Recorder) (keys other : Ranges)
    → Perm keys.status other.status
    → Perm keys.protos other.protos
    → Perm keys.cf_codes other.cf_codes
    → Perm keys.kinds other.kinds
    → summary t keys r ≡ summary t other r
unfolding summary write_int_histogram write_string_histogram write_proto_summary
    write_cf_code_summary
summary_order t r keys other s p c k = rw (ints_perm s, texts_perm p, ints_perm c, texts_perm k)

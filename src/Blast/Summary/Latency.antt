-- ===== src/Blast/Summary/Latency.antt =====
-- internal/blast: the percentiles of the report, over the sorted samples.
use mathlib.Core.List.{Perm}
use mathlib.Core.List.Perm
use quicshot.Prelude.{
  ℕ, zero, suc, ◌≤◌, ◌<◌, List, [], ◌∷◌, leb, length, get_or, Bool-cases, inl, inr, arith,
}
use quicshot.Prelude.Members.{All}
use quicshot.Blast.Config.{percentile}
use quicshot.Blast.Hist.{LatencyHist}
use quicshot.Blast.Summary.{place, sort, sorted, last_of}

abbrev pub IsAscending : List ℕ → Type 0
IsAscending [] = Unit {0}
IsAscending (a ∷ l) = All (λ b. a ≤ b) l × IsAscending l

All-place : (a b : ℕ) (l : List ℕ) → a ≤ b → All (λ c. a ≤ c) l → All (λ c. a ≤ c) (place leb b l)
unfolding place
All-place a b [] h x = (h, tt)
All-place a b (c ∷ l) h x = elim (Bool-cases (leb b c)) [
  | inl e ↦ rw e (h, x)
  | inr e ↦ rw e (x.0, All-place a b l h x.1)
]

All_above : (a b : ℕ) (l : List ℕ) → a ≤ b → All (λ c. b ≤ c) l → All (λ c. a ≤ c) l
All_above a b [] h x = tt
All_above a b (c ∷ l) h x = (omega (arith, x.0), All_above a b l h x.1)

place-IsAscending : (b : ℕ) (l : List ℕ) → IsAscending l → IsAscending (place leb b l)
unfolding place
place-IsAscending b [] s = (tt, tt)
place-IsAscending b (c ∷ l) s = elim (Bool-cases (leb b c)) [
  | inl e ↦ rw e ((ground arith, All_above b c l (ground arith) s.0), s)
  | inr e ↦ rw e (All-place c b l (ground arith) s.0, place-IsAscending b l s.1)
]

pub sort-IsAscending : (l : List ℕ) → IsAscending (sort leb l)
unfolding sort
sort-IsAscending [] = tt
sort-IsAscending (a ∷ l) = place-IsAscending a (sort leb l) (sort-IsAscending l)

place-perm : (b : ℕ) (l : List ℕ) → Perm (place leb b l) (b ∷ l)
unfolding place
place-perm b [] = Perm.refl (b ∷ [])
place-perm b (c ∷ l) = elim (Bool-cases (leb b c)) [
  | inl e ↦ rw e (Perm.refl (b ∷ c ∷ l))
  | inr e ↦ rw e (Perm.trans (Perm.cons c (place-perm b l)) (Perm.swap b c l))
]

pub sort-perm : (l : List ℕ) → Perm (sort leb l) l
unfolding sort
sort-perm [] = Perm.refl []
sort-perm (a ∷ l) = Perm.trans (place-perm a (sort leb l)) (Perm.cons a (sort-perm l))

get_or-All : (a : ℕ) (l : List ℕ) (i : ℕ) → All (λ b. a ≤ b) l → i < length l → a ≤ get_or l i 0
get_or-All a [] i x h = elim h [ ]
get_or-All a (b ∷ l) zero x h = x.0
get_or-All a (b ∷ l) (suc i) x h = get_or-All a l i x.1 (omega arith)

pub get_or_ordered :
    (l : List ℕ) (i j : ℕ) → IsAscending l → i ≤ j → j < length l → get_or l i 0 ≤ get_or l j 0
get_or_ordered [] i j s h k = elim k [ ]
get_or_ordered (a ∷ l) zero zero s h k = omega arith
get_or_ordered (a ∷ l) zero (suc j) s h k = get_or-All a l j s.0 (omega arith)
get_or_ordered (a ∷ l) (suc i) zero s h k = absurd (omega arith)
get_or_ordered (a ∷ l) (suc i) (suc j) s h k = get_or_ordered l i j s.1 (omega arith) (omega arith)

ordered :
    (f g : ℕ → ℕ) (l : List ℕ)
    → IsAscending l
    → f (length l) ≤ g (length l)
    → (percentile f l ≤ percentile g l) × (percentile g l ≤ last_of l)
unfolding percentile
ordered f g [] s h = (omega arith, omega arith)
ordered f g (a ∷ l) s h = (
  ground (
    arith,
    get_or_ordered (a ∷ l) (f (length (a ∷ l))) (g (length (a ∷ l))) s,
    get_or_ordered (a ∷ l) (f (length (a ∷ l))) (length l) s,
  ),
  ground (arith, get_or_ordered (a ∷ l) (g (length (a ∷ l))) (length l) s),
)

-- The report's percentiles are taken from the samples in ascending order, each of them as often as it
-- was kept; a larger percentage never shows a smaller latency, and none is above the maximum.
pub percentile_ordered :
    (scaled : ℕ → ℕ → ℕ) (h : LatencyHist) (p q : ℕ)
    → scaled p (length (sorted h)) ≤ scaled q (length (sorted h))
    → Perm (sorted h) h.samples
      × ((percentile (scaled p) (sorted h) ≤ percentile (scaled q) (sorted h))
          × (percentile (scaled q) (sorted h) ≤ last_of (sorted h)))
unfolding sorted
percentile_ordered scaled h p q k = (
  sort-perm h.samples,
  ordered (scaled p) (scaled q) (sort leb h.samples) (sort-IsAscending h.samples) k,
)

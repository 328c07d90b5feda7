-- ===== src/Blast/Hist/Window.antt =====
-- internal/blast/hist.go: which samples the buffer holds.
use native.Mathlib.Nat.{mod-eq_of_lt, mod-eq-sub-mod, mod-lt, add-mod_left, div-add-mod}
use native.Mathlib.Numerals.{add-one}
use quicshot.Prelude.{
  ℕ, zero, suc, ◌+◌, ◌-◌, ◌*◌, ◌%◌, ◌/◌, ◌≤◌, ◌<◌, ◌≡◌, ◌≢◌, refl, sym, subst, ◌∙◌, List, [], ◌∷◌,
  ◌++◌, some, length, length-append, length-set, set, get_elem?, get_elem?-set_self,
  get_elem?-set_ne, min, arith, dec_lt,
}
use quicshot.Blast.Hist.{LatencyHist, new_latency_hist, push}

-- The buffer after the samples f 1, f 2, …, f n.
unfoldable pub fill : ℕ → (ℕ → ℕ) → ℕ → LatencyHist
fill max f zero = new_latency_hist max
fill max f (suc n) = push (fill max f n) (f (suc n))

pub record Sized (max n : ℕ) (h : LatencyHist) : Type 0 where
  pub room : h.room ≡ max
  pub seen : h.seen ≡ n
  pub size : length h.samples ≡ min n max

push-Sized :
    (max n d : ℕ) (h : LatencyHist) → 0 < max → Sized max n h → Sized max (suc n) (push h d)
unfolding push
push-Sized max n d h pos s =
    ground (arith, length-append h.samples (d ∷ []), length-set h.samples ((h.seen + 1) % h.room) d)

-- After `n` samples into a buffer for `max` > 0 all `n` are counted, and the buffer holds all of them
-- or, once it is full, `max`.
pub fill-Sized : (max : ℕ) (f : ℕ → ℕ) (n : ℕ) → 0 < max → Sized max n (fill max f n)
unfolding fill new_latency_hist
fill-Sized max f zero h = ground arith
fill-Sized max f (suc n) h = push-Sized max n (f (suc n)) (fill max f n) h (fill-Sized max f n h)

full_push :
    (max n d : ℕ) (h : LatencyHist)
    → max ≤ n
    → Sized max n h
    → (push h d).samples ≡ set h.samples (suc n % max) d
unfolding push
full_push max n d h full s = ground (arith, add-one n)

-- Two numbers less than `max` apart have different remainders.
mod-ne : (max a b : ℕ) → 0 < max → a < b → b < a + max → a % max ≢ b % max
mod-ne max a b pos h k e = elim (dec_lt (a / max) (b / max)) [
  | yes p ↦ grind (arith, div-add-mod a max, div-add-mod b max)
  | no p ↦ grind (arith, div-add-mod a max, div-add-mod b max)
]

-- Once full, slot `s % max` holds the sample `s`, for every `s` among the last `max` that came after
-- the buffer was full.
recent :
    (max : ℕ) (f : ℕ → ℕ) (n s : ℕ)
    → 0 < max
    → max < s
    → s ≤ n
    → n < s + max
    → get_elem? (fill max f n).samples (s % max) ≡ some (f s)
unfolding fill
recent max f zero s pos a b c = absurd (omega arith)
recent max f (suc n) s pos a b c = elim (dec_lt s (suc n)) [
  | yes older ↦
      rw (full_push max n (f (suc n)) (fill max f n) (omega arith) (fill-Sized max f n pos)) (
        get_elem?-set_ne (fill max f n).samples (f (suc n))
          (λ e. mod-ne max s (suc n) pos older (omega arith) (sym e))
        ∙ recent max f n s pos a (omega arith) (omega arith))
  | no newest ↦
      let e : s ≡ suc n = omega arith in
      rw (e, full_push max n (f (suc n)) (fill max f n) (omega arith) (fill-Sized max f n pos))
        (get_elem?-set_self (fill max f n).samples (suc n % max) (f (suc n))
          (omega (arith, (fill-Sized max f n pos).size, mod-lt (suc n) pos)))
]

-- From twice its capacity on the buffer holds exactly the last `max` samples: each of the last `max`
-- numbers s ≤ n has its sample in slot `s % max`, and there are `max` slots.
pub fill_last :
    (max : ℕ) (f : ℕ → ℕ) (n s : ℕ)
    → 0 < max
    → 2 * max ≤ n
    → s ≤ n
    → n < s + max
    → (get_elem? (fill max f n).samples (s % max) ≡ some (f s))
      × (length (fill max f n).samples ≡ max)
fill_last max f n s pos big a b =
    (recent max f n s pos (omega arith) a b, omega (arith, (fill-Sized max f n pos).size))

-- Before the buffer is full a sample goes to the end.
growing_push :
    (max n d : ℕ) (h : LatencyHist)
    → n < max
    → Sized max n h
    → (push h d).samples ≡ h.samples ++ (d ∷ [])
unfolding push
growing_push max n d h room s = ground arith

head-append : (xs ys : List ℕ) (a : ℕ) → get_elem? xs 0 ≡ some a → get_elem? (xs ++ ys) 0 ≡ some a
head-append [] ys a h = cc
head-append (x ∷ xs) ys a h = h

-- A number strictly between `max` and `2 * max` is no multiple of `max`.
mod-ne_zero : (max n : ℕ) → max < n → n < 2 * max → n % max ≢ 0
mod-ne_zero max n a b =
    grind (arith, mod-eq-sub-mod {n = n} {m = max}, mod-eq_of_lt {n = n - max} {m = max})

-- The first sample stays in slot 0 until the number of samples reaches twice the capacity.
first_stays :
    (max : ℕ) (f : ℕ → ℕ) (n : ℕ)
    → n < 2 * max
    → 0 < n
    → get_elem? (fill max f n).samples 0 ≡ some (f 1)
unfolding fill
first_stays max f zero b h = elim h [ ]
first_stays max f (suc zero) b h =
    rw
      (growing_push max 0 (f 1) (new_latency_hist max) (omega arith)
        (fill-Sized max f 0 (omega arith)))
      (unfold new_latency_hist in refl)
first_stays max f (suc (suc n)) b h =
    let s = fill-Sized max f (suc n) (omega arith) in
    let before = first_stays max f (suc n) (omega arith) (omega arith) in
    elim (dec_lt (suc n) max) [
      | yes room ↦
          rw (growing_push max (suc n) (f (suc (suc n))) (fill max f (suc n)) room s)
            (head-append (fill max f (suc n)).samples (f (suc (suc n)) ∷ []) (f 1) before)
      | no full ↦
          rw (full_push max (suc n) (f (suc (suc n))) (fill max f (suc n)) (omega arith) s) (
            get_elem?-set_ne (fill max f (suc n)).samples (f (suc (suc n)))
              (mod-ne_zero max (suc (suc n)) (omega arith) b)
            ∙ before)
    ]

-- Between its capacity and twice its capacity the buffer, of `max` > 1 slots, does not hold the last
-- `max` samples: the oldest sample of all is still in slot 0, while the second one, which is younger,
-- has been overwritten by sample `max + 1` in slot 1.
pub fill_keeps_oldest :
    (max : ℕ) (f : ℕ → ℕ) (n : ℕ)
    → 1 < max
    → max < n
    → n < 2 * max
    → (get_elem? (fill max f n).samples 0 ≡ some (f 1))
      × (get_elem? (fill max f n).samples 1 ≡ some (f (max + 1)))
fill_keeps_oldest max f n big a b = (
  first_stays max f n b (omega arith),
  subst (λ i. get_elem? (fill max f n).samples i ≡ some (f (max + 1)))
      (omega (arith, add-mod_left max 1, mod-eq_of_lt {n = 1} {m = max} big))
      (recent max f n (max + 1) (omega arith) (omega arith) (omega arith) (omega arith)),
)

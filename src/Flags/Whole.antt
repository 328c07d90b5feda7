-- ===== src/Flags/Whole.antt =====
-- Go's `time.ParseDuration` on what the panel's `durationRE` accepts: digits and one unit.
use quicshot.Prelude.{
  ℕ, ◌+◌, ◌-◌, ◌*◌, ◌<◌, ◌≡◌, refl, sym, ◌∙◌, ap, subst, true, false, List, [], ◌∷◌, ◌++◌, some,
  if◌then◌else◌, inl, inr, arith,
}
use quicshot.Prelude.Bytes.{codes, bytes_eq, is_digit}
use quicshot.Prelude.Maps.{lookup}
use quicshot.Prelude.Int.{pos}
use quicshot.Prelude.Members.{Member}
use quicshot.Blast.CfCode.{digits_value, leading_digits}
use quicshot.Ui.Commands.{one_of, duration_units, is_numbered, is_duration, skip_digits}
use quicshot.Ui.Commands.Values.{
  Digits, leading-skip, leading_digits-Digits, numbered_parts, one_of_iff,
}
use quicshot.Flags.Durations.{
  fresh, whole, advance, parse_numbers, parse_duration, two_63, unsigned, positive,
}

-- Nanoseconds.
abbrev pub nanos : List ℕ → ℕ
nanos u =
    if bytes_eq u (codes "ms")
    then 1000000
    else if bytes_eq u (codes "s")
    then 1000000000
    else 60000000000

-- The number times its unit.
unfoldable pub duration_value : List ℕ → ℕ
duration_value s = digits_value 0 (leading_digits s) * nanos (skip_digits s)

whole-Digits :
    (fraction : List ℕ → ℕ → ℕ) (ds u : List ℕ) (v : ℕ)
    → Digits ds
    → parse_numbers fraction (whole v) 0 (ds ++ u)
      ≡ parse_numbers fraction (whole (digits_value v ds)) 0 u
unfolding parse_numbers advance digits_value
whole-Digits fraction [] u v a = refl
whole-Digits fraction (c ∷ ds) u v a =
    ground (arith, a.0, whole-Digits fraction ds u (10 * v + (c - b'0')) a.1)

unit_ms :
    (fraction : List ℕ → ℕ → ℕ) (v : ℕ)
    → v * 1000000 < two_63
    → parse_numbers fraction (whole v) 0 (codes "ms") ≡ some (v * 1000000)
unfolding parse_numbers advance lookup bytes_eq
unit_ms fraction v h = ground arith

unit_s :
    (fraction : List ℕ → ℕ → ℕ) (v : ℕ)
    → v * 1000000000 < two_63
    → parse_numbers fraction (whole v) 0 (codes "s") ≡ some (v * 1000000000)
unfolding parse_numbers advance lookup bytes_eq
unit_s fraction v h = ground arith

unit_m :
    (fraction : List ℕ → ℕ → ℕ) (v : ℕ)
    → v * 60000000000 < two_63
    → parse_numbers fraction (whole v) 0 (codes "m") ≡ some (v * 60000000000)
unfolding parse_numbers advance lookup bytes_eq
unit_m fraction v h = ground arith

unit_any :
    (fraction : List ℕ → ℕ → ℕ) (v : ℕ) (u : List ℕ)
    → Member u duration_units
    → v * nanos u < two_63
    → parse_numbers fraction (whole v) 0 u ≡ some (v * nanos u)
unfolding bytes_eq
unit_any fraction v u (inl e) h =
    subst (λ u. v * nanos u < two_63 → parse_numbers fraction (whole v) 0 u ≡ some (v * nanos u)) e
      (unit_ms fraction v) h
unit_any fraction v u (inr (inl e)) h =
    subst (λ u. v * nanos u < two_63 → parse_numbers fraction (whole v) 0 u ≡ some (v * nanos u)) e
      (unit_s fraction v) h
unit_any fraction v u (inr (inr (inl e))) h =
    subst (λ u. v * nanos u < two_63 → parse_numbers fraction (whole v) 0 u ≡ some (v * nanos u)) e
      (unit_m fraction v) h
unit_any fraction v u (inr (inr (inr m))) h = elim m [ ]

not_nil : (ds u : List ℕ) → Member u duration_units → bytes_eq (ds ++ u) [] ≡ false
unfolding bytes_eq
not_nil (c ∷ ds) u m = refl
not_nil [] u (inl e) = subst (λ u. bytes_eq u [] ≡ false) e refl
not_nil [] u (inr (inl e)) = subst (λ u. bytes_eq u [] ≡ false) e refl
not_nil [] u (inr (inr (inl e))) = subst (λ u. bytes_eq u [] ≡ false) e refl
not_nil [] u (inr (inr (inr m))) = elim m [ ]

first_digit :
    (fraction : List ℕ → ℕ → ℕ) (c : ℕ) (s : List ℕ)
    → is_digit c ≡ true
    → parse_numbers fraction fresh 0 (c ∷ s) ≡ parse_numbers fraction (whole (0 + (c - b'0'))) 0 s
unfolding parse_numbers advance
first_digit fraction c s d = ground (arith, d)

not_zero :
    (c : ℕ) (ds u : List ℕ) → Member u duration_units → bytes_eq (c ∷ (ds ++ u)) (codes "0") ≡ false
unfolding bytes_eq
not_zero c ds u m = ground (arith, not_nil ds u m)

unsigned_parts :
    (fraction : List ℕ → ℕ → ℕ) (c : ℕ) (ds u : List ℕ)
    → is_digit c ≡ true
    → Digits ds
    → Member u duration_units
    → digits_value 0 (c ∷ ds) * nanos u < two_63
    → unsigned fraction (c ∷ (ds ++ u)) ≡ some (digits_value 0 (c ∷ ds) * nanos u)
unfolding bytes_eq digits_value
unsigned_parts fraction c ds u d a m h =
    let v = digits_value (0 + (c - b'0')) ds in
    rw (not_zero c ds u m) (
      first_digit fraction c (ds ++ u) d
      ∙ whole-Digits fraction ds u (0 + (c - b'0')) a
      ∙ unit_any fraction v u m h)

-- A digit is no sign.
no_sign :
    (fraction : List ℕ → ℕ → ℕ) (c : ℕ) (s : List ℕ)
    → is_digit c ≡ true
    → parse_duration fraction (c ∷ s) ≡ positive (unsigned fraction (c ∷ s))
unfolding parse_duration
no_sign fraction c s d = ground (arith, d)

positive-some : (n : ℕ) → n < two_63 → positive (some n) ≡ some (pos n)
positive-some n h = ground arith

skip_first : (c : ℕ) (t : List ℕ) → is_digit c ≡ true → skip_digits (c ∷ t) ≡ skip_digits t
unfolding skip_digits
skip_first c t d = rw d refl

value_first :
    (c : ℕ) (t : List ℕ)
    → is_digit c ≡ true
    → duration_value (c ∷ t) ≡ digits_value 0 (c ∷ leading_digits t) * nanos (skip_digits t)
unfolding duration_value leading_digits skip_digits
value_first c t d = rw d refl

no_duration : is_duration [] ≡ true → ⊥
unfolding is_duration is_numbered
no_duration h = cc

-- What the panel lets through as a duration is read by `ParseDuration` as the number times its unit,
-- if that fits an int64.
pub parse_duration-is_duration :
    (fraction : List ℕ → ℕ → ℕ) (s : List ℕ)
    → is_duration s ≡ true
    → duration_value s < two_63
    → parse_duration fraction s ≡ some (pos (duration_value s))
unfolding is_duration
parse_duration-is_duration fraction [] d h = absurd (no_duration d)
parse_duration-is_duration fraction (c ∷ t) d h =
    let (digit, unit) = (numbered_parts duration_units (c ∷ t)).0 d in
    let m =
      (one_of_iff duration_units (skip_digits t)).0
        (subst (λ u. one_of duration_units u ≡ true) (skip_first c t digit) unit) in
    let v = value_first c t digit in
    let fits = subst (λ n. n < two_63) v h in
    no_sign fraction c t digit
    ∙ ap (λ s. positive (unsigned fraction (c ∷ s))) (leading-skip t)
    ∙ ap positive (
        unsigned_parts fraction c (leading_digits t) (skip_digits t) digit (leading_digits-Digits t)
          m fits)
    ∙ positive-some (digits_value 0 (c ∷ leading_digits t) * nanos (skip_digits t)) fits
    ∙ ap (λ n. some (pos n)) (sym v)

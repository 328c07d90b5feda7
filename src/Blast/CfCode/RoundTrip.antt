-- ===== src/Blast/CfCode/RoundTrip.antt =====
-- `writeCFError` of internal/edge/edge.go and `parseCFCode` of internal/blast/blast.go, one after the
-- other.
use quicshot.Prelude.{
  ℕ, zero, suc, ◌+◌, ◌-◌, ◌*◌, ◌/◌, ◌%◌, ◌≤◌, ◌<◌, ◌≡◌, ◌≢◌, refl, ap, true, false, List, [], ◌∷◌,
  ◌++◌, some, arith,
}
use quicshot.Prelude.Bytes.{codes, is_digit}
use quicshot.Blast.CfCode.{
  decimal, digits_from, error_body, leading_digits, after_prefix, digits_here, find_digits,
  digits_value, max_int, atoi, parse_cf_code,
}

abbrev pub AllDigits : List ℕ → Type 0
AllDigits [] = Unit {0}
AllDigits (c ∷ s) = (is_digit c ≡ true) × AllDigits s

-- Printing with enough fuel: all digits, at least one, and their value is what the accumulator's
-- value continues.
digits_from-AllDigits : (f n : ℕ) (acc : List ℕ) → AllDigits acc → AllDigits (digits_from f n acc)
unfolding digits_from
digits_from-AllDigits zero n acc a = a
digits_from-AllDigits (suc f) n acc a =
    ground (arith, digits_from-AllDigits f (n / 10) ((b'0' + n % 10) ∷ acc))

digits_from_value :
    (f n : ℕ) (acc : List ℕ) → n < f → digits_value 0 (digits_from f n acc) ≡ digits_value n acc
unfolding digits_from digits_value
digits_from_value zero n acc h = elim h [ ]
digits_from_value (suc f) n acc h = ground (
  arith,
  digits_from_value f (n / 10) ((b'0' + n % 10) ∷ acc),
  ap (λ k. digits_value k acc) (back n),
)
  where
    back : (n : ℕ) → 10 * (n / 10) + (b'0' + n % 10 - b'0') ≡ n
    back n = omega arith

-- The digits in front of something that is no digit are found whole.
pub leading_digits-append :
    (ds : List ℕ) (c : ℕ) (s : List ℕ)
    → AllDigits ds
    → is_digit c ≡ false
    → leading_digits (ds ++ (c ∷ s)) ≡ ds
unfolding leading_digits
leading_digits-append [] c s a h = ground arith
leading_digits-append (d ∷ ds) c s a h = ground (arith, leading_digits-append ds c s a.1 h)

digits_from_nonempty : (f n : ℕ) (acc : List ℕ) → acc ≢ [] → digits_from f n acc ≢ []
unfolding digits_from
digits_from_nonempty zero n acc h = h
digits_from_nonempty (suc f) n acc h =
    ground (arith, digits_from_nonempty f (n / 10) ((b'0' + n % 10) ∷ acc))

pub decimal_nonempty : (n : ℕ) → decimal n ≢ []
unfolding decimal
decimal_nonempty n = ground (arith, digits_from_nonempty n (n / 10) ((b'0' + n % 10) ∷ []))

pub decimal-AllDigits : (n : ℕ) → AllDigits (decimal n)
unfolding decimal
decimal-AllDigits n = digits_from-AllDigits (suc n) n [] tt

pub digits_value-decimal : (n : ℕ) → digits_value 0 (decimal n) ≡ n
unfolding decimal digits_value
digits_value-decimal n = digits_from_value (suc n) n [] (omega arith)

pub digits_here_found :
    (ds s : List ℕ) → leading_digits s ≡ ds → ds ≢ [] → digits_here (some s) ≡ some ds
digits_here_found [] s e h = absurd (h refl)
digits_here_found (d ∷ ds) s e h = ground arith

-- The regexp matches at the front of the body.
find_digits-error_body :
    (code : ℕ) (detail : List ℕ)
    → find_digits (codes "error code: ") (error_body code detail) ≡ some (decimal code)
unfolding find_digits error_body after_prefix
find_digits-error_body code detail = ground (
  arith,
  digits_here_found (decimal code) (decimal code ++ (10 ∷ (detail ++ (10 ∷ []))))
      (leading_digits-append (decimal code) 10 (detail ++ (10 ∷ [])) (decimal-AllDigits code) refl)
      (decimal_nonempty code),
)

-- Every code up to the largest int survives the trip through the body, whatever the detail text says.
pub parse_cf_code-error_body :
    (code : ℕ) (detail : List ℕ) → code ≤ max_int → parse_cf_code (error_body code detail) ≡ code
unfolding parse_cf_code atoi
parse_cf_code-error_body code detail h =
    rw (find_digits-error_body code detail) (omega (arith, digits_value-decimal code))

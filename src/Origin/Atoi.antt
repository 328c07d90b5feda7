-- ===== src/Origin/Atoi.antt =====
-- internal/origin/origin.go: `intParam` on the texts that `strconv.Itoa` prints.
use quicshot.Prelude.{ℕ, ◌+◌, ◌≤◌, ◌≡◌, ◌≢◌, refl, true, String, List, [], ◌∷◌, some, arith}
use quicshot.Prelude.Int.{ℤ, pos, negsuc, neg_part, pos_part}
use quicshot.Blast.CfCode.{itoa, decimal, digits_value}
use quicshot.Blast.CfCode.RoundTrip.{
  AllDigits, decimal-AllDigits, decimal_nonempty, digits_value-decimal,
}
use quicshot.Origin.{Request, all_digits, in_int, digits_number, atoi, int_param}

all_digits_lem : (s : List ℕ) → AllDigits s → all_digits s ≡ true
all_digits_lem [] a = refl
all_digits_lem (c ∷ s) a = ground (arith, all_digits_lem s a.1)

digits_number-some : (s : List ℕ) → s ≢ [] → AllDigits s → digits_number s ≡ some (digits_value 0 s)
unfolding digits_number
digits_number-some [] h a = absurd (h refl)
digits_number-some (c ∷ s) h a = rw (all_digits_lem (c ∷ s) a) refl

-- A digit is no sign.
atoi_digits : (s : List ℕ) → s ≢ [] → AllDigits s → atoi s ≡ in_int (digits_number s)
unfolding atoi
atoi_digits [] h a = absurd (h refl)
atoi_digits (c ∷ s) h a = ground arith

digits_number-decimal : (n : ℕ) → digits_number (decimal n) ≡ some n
digits_number-decimal n = rw (
  digits_number-some (decimal n) (decimal_nonempty n) (decimal-AllDigits n),
  digits_value-decimal n,
)

atoi-itoa :
    (v : ℤ)
    → pos_part v ≤ 9223372036854775807
    → neg_part v ≤ 9223372036854775808
    → atoi (itoa v) ≡ some v
unfolding itoa atoi
atoi-itoa (pos n) h k =
    rw (atoi_digits (decimal n) (decimal_nonempty n) (decimal-AllDigits n), digits_number-decimal n)
      (ground arith)
atoi-itoa (negsuc n) h k = rw (digits_number-decimal (n + 1)) (ground arith)

-- A parameter that a client prints as the decimal text of an int64 value is read as that value, and
-- not as the default.
pub int_param-itoa :
    (r : Request) (name : String) (d v : ℤ)
    → pos_part v ≤ 9223372036854775807
    → neg_part v ≤ 9223372036854775808
    → r.query name ≡ itoa v
    → int_param r name d ≡ v
unfolding int_param
int_param-itoa r name d v h k e = rw (e, atoi-itoa v h k)

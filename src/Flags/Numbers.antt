-- ===== src/Flags/Numbers.antt =====
-- Go's `strconv.ParseInt(s, 0, 64)` on what `%d` prints.
use quicshot.Prelude.{
  ℕ, zero, suc, ◌+◌, ◌-◌, ◌*◌, ◌/◌, ◌%◌, ◌≤◌, ◌<◌, ◌≡◌, refl, ◌∙◌, ap, true, List, [], ◌∷◌, some,
  arith,
}
use quicshot.Prelude.Int.{pos}
use quicshot.Blast.CfCode.{decimal, digits_from, digits_value}
use quicshot.Blast.CfCode.RoundTrip.{AllDigits, decimal-AllDigits, digits_value-decimal}
use quicshot.Flags.Values.{parse_digits, parse_int}

parse_digits-digits :
    (s : List ℕ) (n : ℕ) → AllDigits s → parse_digits 10 true n s ≡ some (digits_value n s)
unfolding parse_digits digits_value
parse_digits-digits [] n a = refl
parse_digits-digits (c ∷ s) n a = ground (arith, parse_digits-digits s (10 * n + (c - b'0')) a.1)

-- The first digit of a positive number is not 0.
abbrev Leads : List ℕ → Type 0
Leads [] = ⊥
Leads (c ∷ s) = (b'0' < c) × (c ≤ b'9')

digits_from-Leads : (f n : ℕ) (acc : List ℕ) → n < f → 0 < n → Leads (digits_from f n acc)
unfolding digits_from
digits_from-Leads zero n acc h p = elim h [ ]
digits_from-Leads (suc f) n acc h p =
    ground (arith, digits_from-Leads f (n / 10) ((b'0' + n % 10) ∷ acc))

parse_leading :
    (s : List ℕ)
    → Leads s
    → AllDigits s
    → digits_value 0 s < 9223372036854775808
    → parse_int s ≡ some (pos (digits_value 0 s))
unfolding parse_int parse_digits digits_value
parse_leading [] l a h = elim l [ ]
parse_leading (c ∷ s) l a h = ground (arith, parse_digits-digits s (10 * 0 + (c - b'0')) a.1)

-- A positive int is read back from its decimal print, although a leading 0 would make it octal.
pub parse_int-decimal :
    (n : ℕ) → 0 < n → n < 9223372036854775808 → parse_int (decimal n) ≡ some (pos n)
unfolding decimal
parse_int-decimal n p h =
    parse_leading (decimal n) (digits_from-Leads (suc n) n [] (omega arith) p) (decimal-AllDigits n)
      (rw (digits_value-decimal n) h)
    ∙ ap (λ m. some (pos m)) (digits_value-decimal n)

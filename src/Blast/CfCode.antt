-- ===== src/Blast/CfCode.antt =====
-- The Cloudflare error code in a response body: internal/edge/edge.go writes it (`writeCFError`), and
-- internal/blast/blast.go reads it back (`parseCFCode`, the regexp `error code: (\d+)`).
pub mod RoundTrip
use quicshot.Prelude.{
  or_try, ℕ, zero, suc, ◌+◌, ◌-◌, ◌*◌, ◌/◌, ◌%◌, Bool, true, false, ◌&&◌, String, List, [], ◌∷◌,
  ◌++◌, Option, none, some, ltb, ◌==◌, min, if◌then◌else◌,
}
use quicshot.Prelude.Int.{ℤ, pos, negsuc}
use quicshot.Prelude.Bytes.{codes, is_prefix, is_digit}

-- `%d` of a number that is not negative. The fuel `n + 1` is enough for `n`.
unfoldable pub digits_from : ℕ → ℕ → List ℕ → List ℕ
digits_from zero n acc = acc
digits_from (suc f) n acc =
    let more = digits_from f (n / 10) ((b'0' + n % 10) ∷ acc) in
    if ltb n 10 then (b'0' + n) ∷ acc else more

unfoldable pub decimal : ℕ → List ℕ
unfolding digits_from
decimal n = digits_from (suc n) n []

-- `%d` of an int, and `strconv.Itoa`.
unfoldable pub itoa : ℤ → List ℕ
itoa (pos n) = decimal n
itoa (negsuc n) = b'-' ∷ decimal (n + 1)

-- `fmt.Fprintf(w, "error code: %d\n%s\n", cfCode, detail)`.
unfoldable pub error_body : ℕ → List ℕ → List ℕ
error_body code detail = codes "error code: " ++ (decimal code ++ (10 ∷ (detail ++ (10 ∷ []))))

-- `\d+` at the front of the text, and the text behind it.
unfoldable pub leading_digits : List ℕ → List ℕ
leading_digits [] = []
leading_digits (c ∷ s) = if is_digit c then c ∷ leading_digits s else []

unfoldable pub after_prefix : List ℕ → List ℕ → Option (List ℕ)
after_prefix [] s = some s
after_prefix (a ∷ p) [] = none
after_prefix (a ∷ p) (b ∷ s) = if a == b then after_prefix p s else none

-- The digits behind `p` at this place, if there are any.
abbrev pub digits_here : Option (List ℕ) → Option (List ℕ)
digits_here none = none
digits_here (some s) = elim (leading_digits s) [ [] ↦ none | c ∷ ds ↦ some (c ∷ ds) ]

-- The submatch of `p(\d+)`: at the leftmost place where it matches.
unfoldable pub find_digits : List ℕ → List ℕ → Option (List ℕ)
unfolding after_prefix leading_digits
find_digits p [] = digits_here (after_prefix p [])
find_digits p (c ∷ s) = or_try (digits_here (after_prefix p (c ∷ s))) (find_digits p s)

unfoldable pub digits_value : ℕ → List ℕ → ℕ
digits_value acc [] = acc
digits_value acc (c ∷ s) = digits_value (10 * acc + (c - b'0')) s

abbrev pub max_int : ℕ
max_int = 9223372036854775807

-- `strconv.Atoi` on digits, its error dropped: out of range it yields the largest int.
unfoldable pub atoi : List ℕ → ℕ
unfolding digits_value
atoi s = min (digits_value 0 s) max_int

abbrev pub atoi_match : Option (List ℕ) → ℕ
atoi_match none = 0
atoi_match (some ds) = atoi ds

unfoldable pub parse_cf_code : List ℕ → ℕ
parse_cf_code snippet = atoi_match (find_digits (codes "error code: ") snippet)

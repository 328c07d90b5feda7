-- ===== src/Flags/Values.antt =====
-- Go's `strconv.ParseBool` and `strconv.ParseInt(s, 0, 64)`, by which the flags of internal/ are read.
use quicshot.Prelude.{
  ℕ, ◌+◌, ◌-◌, ◌*◌, Bool, true, false, ◌&&◌, ◌||◌, List, [], ◌∷◌, Option, none, some, ltb, leb,
  ◌==◌, if◌then◌else◌,
}
use quicshot.Prelude.Bytes.{codes, bytes_eq, is_digit}
use quicshot.Prelude.Int.{ℤ, pos, negsuc}

abbrev pub is_word : List (List ℕ) → List ℕ → Bool
is_word [] s = false
is_word (w ∷ ws) s = bytes_eq w s || is_word ws s

abbrev pub true_words : List (List ℕ)
true_words = codes "1" ∷ codes "t" ∷ codes "T" ∷ codes "TRUE" ∷ codes "true" ∷ codes "True" ∷ []

abbrev pub false_words : List (List ℕ)
false_words = codes "0" ∷ codes "f" ∷ codes "F" ∷ codes "FALSE" ∷ codes "false" ∷ codes "False" ∷ []

unfoldable pub parse_bool : List ℕ → Option Bool
parse_bool s =
    if is_word true_words s then some true else if is_word false_words s then some false else none

-- The lower case of a letter.
abbrev pub lower : ℕ → ℕ
lower c = if leb b'A' c && leb c b'Z' then c + 32 else c

abbrev pub digit_of : ℕ → Option ℕ
digit_of c =
    if is_digit c
    then some (c - b'0')
    else if leb b'a' (lower c) && leb (lower c) b'z'
    then some (lower c - b'a' + 10)
    else none

-- One more digit in front of `s`: the base bounds it.
abbrev pub with_digit : ℕ → ℕ → Option ℕ → Option ℕ
with_digit base n none = none
with_digit base n (some d) = if ltb d base then some (base * n + d) else none

-- The number behind `n`. The flag is whether a digit stands directly in front: an underscore must
-- stand between digits, or behind the prefix.
unfoldable pub parse_digits : ℕ → Bool → ℕ → List ℕ → Option ℕ
parse_digits base after_digit n [] = if after_digit then some n else none
parse_digits base after_digit n (c ∷ s) =
    if c == b'_'
    then (if after_digit then parse_digits base false n s else none)
    else elim (with_digit base n (digit_of c)) [ none ↦ none | some m ↦ parse_digits base true m s ]

-- The prefix "0b", "0o" or "0x" with something behind it, or "0" for an octal number.
abbrev pub parse_prefixed : ℕ → List ℕ → Option ℕ
parse_prefixed p [] = parse_digits 8 true 0 (p ∷ [])
parse_prefixed p (c ∷ s) =
    if lower p == b'b'
    then parse_digits 2 true 0 (c ∷ s)
    else if lower p == b'o'
    then parse_digits 8 true 0 (c ∷ s)
    else if lower p == b'x'
    then parse_digits 16 true 0 (c ∷ s)
    else parse_digits 8 true 0 (p ∷ c ∷ s)

abbrev pub parse_octal : List ℕ → Option ℕ
parse_octal [] = some 0
parse_octal (p ∷ s) = parse_prefixed p s

-- Behind the sign.
abbrev pub parse_magnitude : List ℕ → Option ℕ
parse_magnitude [] = none
parse_magnitude (c ∷ s) = if c == b'0' then parse_octal s else parse_digits 10 false 0 (c ∷ s)

abbrev pub in_range : Bool → Option ℕ → Option ℤ
in_range negative none = none
in_range false (some n) = if ltb n 9223372036854775808 then some (pos n) else none
in_range true (some n) =
    if n == 0
    then some (pos 0)
    else if leb n 9223372036854775808
    then some (negsuc (n - 1))
    else none

unfoldable pub parse_int : List ℕ → Option ℤ
parse_int [] = none
parse_int (c ∷ s) =
    if c == b'-'
    then in_range true (parse_magnitude s)
    else if c == b'+'
    then in_range false (parse_magnitude s)
    else in_range false (parse_magnitude (c ∷ s))

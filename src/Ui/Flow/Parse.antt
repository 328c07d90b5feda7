-- ===== src/Ui/Flow/Parse.antt =====
-- internal/ui/ui.go: the regexps of the log lines, at the leftmost place where they match. `\d` and
-- `\s` are those of ASCII. A number out of range reads as the largest int64.
use quicshot.Prelude.{
  or_try, ℕ, ◌||◌, ◌&&◌, Bool, String, List, [], ◌∷◌, ◌++◌, Option, none, some, ◌==◌, length, drop,
  if◌then◌else◌,
}
use quicshot.Prelude.Bytes.{codes, is_digit}
use quicshot.Blast.CfCode.{after_prefix, leading_digits, find_digits, digits_here, atoi, atoi_match}
use quicshot.Blast.Config.{trim_space}

-- `key(\d+)` as a number, 0 without a match.
unfoldable pub number_after : String → List ℕ → ℕ
number_after key line = atoi_match (find_digits (codes key) line)

abbrev pub then_digits : List ℕ → Option (List ℕ) → Option (ℕ × ℕ)
then_digits first none = none
then_digits first (some ds) = some (atoi first, atoi ds)

abbrev pub fail_here : List ℕ → List ℕ → Option (ℕ × ℕ)
fail_here [] rest = none
fail_here (d ∷ ds) rest = then_digits (d ∷ ds) (digits_here (after_prefix (codes " fail=") rest))

abbrev pub total_here : Option (List ℕ) → Option (ℕ × ℕ)
total_here none = none
total_here (some s) = fail_here (leading_digits s) (drop (length (leading_digits s)) s)

-- `total=(\d+) fail=(\d+)`.
unfoldable pub blast_total : List ℕ → Option (ℕ × ℕ)
blast_total [] = none
blast_total (c ∷ s) = or_try (total_here (after_prefix (codes "total=") (c ∷ s))) (blast_total s)

-- `\s` of the regexp package: tab, newline, form feed, carriage return, space.
abbrev pub is_regexp_blank : ℕ → Bool
is_regexp_blank c = c == 9 || c == 10 || c == 12 || c == 13 || c == 32

unfoldable pub skip_blanks : List ℕ → List ℕ
skip_blanks [] = []
skip_blanks (c ∷ s) = if is_regexp_blank c then skip_blanks s else c ∷ s

-- `\s+(\d+)` at the front.
abbrev pub blanks_then_number : List ℕ → Option ℕ
blanks_then_number [] = none
blanks_then_number (c ∷ s) =
    if is_regexp_blank c
    then elim (digits_here (some (skip_blanks s))) [ none ↦ none | some ds ↦ some (atoi ds) ]
    else none

abbrev pub number_behind : Option (List ℕ) → Option ℕ
number_behind none = none
number_behind (some s) = blanks_then_number s

-- `^conn drops\s+(\d+)` on the trimmed line.
unfoldable pub conn_drops_of : List ℕ → Option ℕ
conn_drops_of line = number_behind (after_prefix (codes "conn drops") (trim_space line))

abbrev pub paired : List ℕ → Option ℕ → Option (List ℕ × ℕ)
paired proto none = none
paired proto (some n) = some (proto, n)

-- `(HTTP/\d\.\d)\s+(\d+)` behind "HTTP/".
abbrev pub version_here : Option (List ℕ) → Option (List ℕ × ℕ)
version_here (some (a ∷ p ∷ b ∷ s)) =
    if is_digit a && (p == b'.' && is_digit b)
    then paired (codes "HTTP/" ++ (a ∷ p ∷ b ∷ [])) (blanks_then_number s)
    else none
version_here _ = none

-- `^\s*(HTTP/\d\.\d)\s+(\d+)`.
unfoldable pub protocol_of : List ℕ → Option (List ℕ × ℕ)
protocol_of line = version_here (after_prefix (codes "HTTP/") (skip_blanks line))

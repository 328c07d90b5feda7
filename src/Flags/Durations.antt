-- ===== src/Flags/Durations.antt =====
-- Go's `time.ParseDuration`, by which the flags of internal/ are read.
use quicshot.Prelude.{
  ℕ, zero, suc, ◌+◌, ◌-◌, ◌*◌, ◌/◌, ◌%◌, Bool, true, false, not, ◌&&◌, ◌||◌, List, [], ◌∷◌, ◌++◌,
  Option, none, some, ltb, ◌==◌, is_empty, if◌then◌else◌,
}
use quicshot.Prelude.Bytes.{codes, bytes_eq, is_digit}
use quicshot.Prelude.Int.{ℤ, pos, negsuc}
use quicshot.Prelude.Maps.{lookup}
use quicshot.Prelude.Bytes.{bytes_key}

-- The units, in nanoseconds. The two spellings of the micro sign are of two bytes each.
abbrev pub unit_map : List (List ℕ × ℕ)
unit_map =
    (codes "ns", 1)
    ∷ (codes "us", 1000)
    ∷ (0xc2 ∷ 0xb5 ∷ b's' ∷ [], 1000)
    ∷ (0xce ∷ 0xbc ∷ b's' ∷ [], 1000)
    ∷ (codes "ms", 1000000)
    ∷ (codes "s", 1000000000)
    ∷ (codes "m", 60000000000)
    ∷ (codes "h", 3600000000000)
    ∷ []

-- Where the loop stands in a number with its unit: in front of it, in its whole part, behind its point
-- (with whether there was a whole part), or in its unit.
pub data Place : Type 0 where
  fresh : Place
  whole : ℕ → Place
  point : Bool → ℕ → List ℕ → Place
  in_unit : ℕ → List ℕ → List ℕ → Place

abbrev pub two_63 : ℕ
two_63 = 9223372036854775808

abbrev pub two_64 : ℕ
two_64 = 18446744073709551616

abbrev pub all_zero : List ℕ → Bool
all_zero [] = true
all_zero (c ∷ s) = c == b'0' && all_zero s

-- A number with its unit, behind the sum `d`. The first argument is the float product that the digits
-- of a fraction and the unit give, truncated. The sums wrap as a uint64.
abbrev pub add_number : (List ℕ → ℕ → ℕ) → ℕ → ℕ → List ℕ → Option ℕ → Option ℕ
add_number fraction d v f none = none
add_number fraction d v f (some unit) =
    let w = if all_zero f then v * unit else (v * unit + fraction f unit) % two_64 in
    if ltb (two_63 / unit) v || ltb two_63 v || ltb two_63 w || ltb two_63 ((d + w) % two_64)
    then none
    else some ((d + w) % two_64)

abbrev pub begin : ℕ → ℕ → Option (Place × ℕ)
begin d c =
    if is_digit c
    then some (whole (c - b'0'), d)
    else if c == b'.'
    then some (point false 0 [], d)
    else none

abbrev pub begin_next : Option ℕ → ℕ → Option (Place × ℕ)
begin_next none c = none
begin_next (some d) c = begin d c

-- One byte.
unfoldable pub advance : (List ℕ → ℕ → ℕ) → Place → ℕ → ℕ → Option (Place × ℕ)
advance fraction fresh d c = begin d c
advance fraction (whole v) d c =
    if is_digit c
    then some (whole (10 * v + (c - b'0')), d)
    else if c == b'.'
    then some (point true v [], d)
    else some (in_unit v [] (c ∷ []), d)
advance fraction (point pre v f) d c =
    if is_digit c
    then some (point pre v (f ++ (c ∷ [])), d)
    else if c == b'.' || (not pre && is_empty f)
    then none
    else some (in_unit v f (c ∷ []), d)
advance fraction (in_unit v f u) d c =
    if is_digit c || c == b'.'
    then begin_next (add_number fraction d v f (lookup u unit_map)) c
    else some (in_unit v f (u ++ (c ∷ [])), d)

abbrev pub at_end : (List ℕ → ℕ → ℕ) → Place → ℕ → Option ℕ
at_end fraction (in_unit v f u) d = add_number fraction d v f (lookup u unit_map)
at_end fraction (whole v) d = none
at_end fraction (point pre v f) d = none
at_end fraction fresh d = none

-- The loop behind the sign.
unfoldable pub parse_numbers : (List ℕ → ℕ → ℕ) → Place → ℕ → List ℕ → Option ℕ
parse_numbers fraction p d [] = at_end fraction p d
parse_numbers fraction p d (c ∷ s) = elim (advance fraction p d c) [
  | none ↦ none
  | some (q, e) ↦ parse_numbers fraction q e s
]

abbrev pub unsigned : (List ℕ → ℕ → ℕ) → List ℕ → Option ℕ
unsigned fraction s = if bytes_eq s (codes "0") then some 0 else parse_numbers fraction fresh 0 s

abbrev pub positive : Option ℕ → Option ℤ
positive none = none
positive (some d) = if ltb d two_63 then some (pos d) else none

-- The largest sum is the negative of the smallest int64.
abbrev pub negative : Option ℕ → Option ℤ
negative none = none
negative (some zero) = some (pos 0)
negative (some (suc d)) = some (negsuc d)

unfoldable pub parse_duration : (List ℕ → ℕ → ℕ) → List ℕ → Option ℤ
parse_duration fraction [] = none
parse_duration fraction (c ∷ s) =
    if c == b'-'
    then negative (unsigned fraction s)
    else if c == b'+'
    then positive (unsigned fraction s)
    else positive (unsigned fraction (c ∷ s))

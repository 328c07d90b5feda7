-- ===== src/Ui/Commands.antt =====
-- internal/ui/ui.go, the API handlers: which command line a request becomes, or why it is refused. Texts
-- are lists of bytes. The three regexps match the whole text; no unit begins with a digit, so the
-- digits are the longest run of them.

pub mod Values
pub mod Stack
pub mod Impair
pub mod Run
mod Tests
use quicshot.Prelude.{
  is_empty, ℕ, Bool, true, false, ◌&&◌, ◌||◌, List, [], ◌∷◌, leb, ◌==◌, if◌then◌else◌,
}
use quicshot.Prelude.Bytes.{codes, bytes_eq, is_digit}
use quicshot.Prelude.Int.{ℤ, ltb_ℤ}

pub data CommandError : Type 0 where
  bad_duration : List ℕ → CommandError  -- the name of the setting
  bad_lb bad_connectors unknown_action unknown_impairment bad_tool : CommandError
  bad_netem : List ℕ → CommandError
  bad_header : List ℕ → CommandError
  no_executable bad_url : CommandError

pub data Checked {ℓ} (A : Type ℓ) : Type ℓ where
  ok : A → Checked A
  refused : CommandError → Checked A

-- One more argument in front, unless the rest is refused.
abbrev pub with_arg : List ℕ → Checked (List (List ℕ)) → Checked (List (List ℕ))
with_arg e (ok es) = ok (e ∷ es)
with_arg e (refused why) = refused why

abbrev pub one_of : List (List ℕ) → List ℕ → Bool
one_of [] s = false
one_of (t ∷ ts) s = bytes_eq t s || one_of ts s

unfoldable pub skip_digits : List ℕ → List ℕ
skip_digits [] = []
skip_digits (c ∷ s) = if is_digit c then skip_digits s else c ∷ s

abbrev pub starts_digit : List ℕ → Bool
starts_digit [] = false
starts_digit (c ∷ s) = is_digit c

-- Digits, at least one, and one of these units behind them.
unfoldable pub is_numbered : List (List ℕ) → List ℕ → Bool
is_numbered units s = starts_digit s && one_of units (skip_digits s)

abbrev pub duration_units : List (List ℕ)
duration_units = codes "ms" ∷ codes "s" ∷ codes "m" ∷ []

-- `durationRE`.
unfoldable pub is_duration : List ℕ → Bool
is_duration s = is_numbered duration_units s

unfoldable pub skip_zeros : List ℕ → List ℕ
skip_zeros [] = []
skip_zeros (c ∷ s) = if c == b'0' then skip_zeros s else c ∷ s

abbrev pub starts_zero : List ℕ → Bool
starts_zero [] = false
starts_zero (c ∷ s) = c == b'0'

-- `zeroDurationRE`.
unfoldable pub zero_duration : List ℕ → Bool
zero_duration s = starts_zero s && one_of duration_units (skip_zeros s)

abbrev pub netem_units : List (List ℕ)
netem_units = codes "%" ∷ codes "ms" ∷ codes "s" ∷ codes "kbit" ∷ codes "mbit" ∷ codes "gbit" ∷ []

-- `(\.[0-9]+)?` and a unit, behind the first digits.
abbrev pub netem_rest : List ℕ → Bool
netem_rest [] = false
netem_rest (c ∷ s) = one_of netem_units (c ∷ s) || (c == b'.' && is_numbered netem_units s)

-- `netemArgRE`.
unfoldable pub is_netem : List ℕ → Bool
is_netem s = starts_digit s && netem_rest (skip_digits s)

unfoldable pub clamp : ℤ → ℤ → ℤ → ℤ
clamp v lo hi = if ltb_ℤ v lo then lo else if ltb_ℤ hi v then hi else v

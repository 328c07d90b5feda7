-- ===== src/Flags.antt =====
-- Go's `flag.FlagSet.Parse` with `flag.ExitOnError`, on which each `Main` of internal/ stands. A set is
-- the list of its flags, and a flag says what its value does to the configuration.
pub mod Values
pub mod Durations
pub mod Reads
pub mod Numbers
pub mod Whole
use quicshot.Prelude.{
  ℕ, Bool, true, false, ◌&&◌, ◌||◌, List, [], ◌∷◌, Option, none, some, ◌==◌, if◌then◌else◌,
}
use quicshot.Prelude.Bytes.{codes, bytes_eq}
use quicshot.Prelude.Int.{ℤ}
use Values.{parse_bool, parse_int}
use Durations.{parse_duration}

pub record Flag (C : Type 0) : Type 0 where
  pub name : List ℕ
  pub is_bool : Bool
  -- `Value.Set`, `none` where it returns an error.
  pub set : List ℕ → C → Option C

-- The configuration, or the exit of the program with a code: 0 behind `-h`, 2 on a misuse.
pub data Parsed (C : Type 0) : Type 0 where
  parsed : C → Parsed C
  exits : ℕ → Parsed C

-- How an argument reads by itself: as the end of the flags, as bad syntax, or as a name with or
-- without a value.
pub data Arg : Type 0 where
  end_of_flags : Arg
  bad_syntax : Arg
  named : List ℕ → Option (List ℕ) → Arg

abbrev pub longer_name : ℕ → List ℕ × Option (List ℕ) → List ℕ × Option (List ℕ)
longer_name c (n, v) = (c ∷ n, v)

-- The name up to the first "=", and the value behind it.
abbrev pub name_value : List ℕ → List ℕ × Option (List ℕ)
name_value [] = ([], none)
name_value (c ∷ s) =
    let rest = name_value s in if c == b'=' then ([], some s) else longer_name c rest

abbrev pub named_by : List ℕ × Option (List ℕ) → Arg
named_by (n, v) = named n v

-- Behind the dashes.
abbrev pub read_name : List ℕ → Arg
read_name [] = bad_syntax
read_name (c ∷ s) = if c == b'-' || c == b'=' then bad_syntax else named_by (name_value (c ∷ s))

-- "--" alone ends the flags.
abbrev pub behind_two : List ℕ → Arg
behind_two [] = end_of_flags
behind_two (c ∷ s) = read_name (c ∷ s)

abbrev pub read_arg : List ℕ → Arg
read_arg [] = end_of_flags
read_arg (c ∷ []) = end_of_flags
read_arg (c ∷ d ∷ s) =
    if c == b'-' then (if d == b'-' then behind_two s else read_name (d ∷ s)) else end_of_flags

-- What one argument does: it ends the parse, or goes on with the flag that waits for its value, if
-- one does, and the configuration.
pub data Step (C : Type 0) : Type 0 where
  halts : Parsed C → Step C
  goes_on : Option (Flag C) → C → Step C

module _ {C : Type 0} where
  abbrev pub find_flag : List (Flag C) → List ℕ → Option (Flag C)
  find_flag [] n = none
  find_flag (f ∷ fs) n = if bytes_eq f.name n then some f else find_flag fs n

  abbrev pub was_set : Option C → Step C
  was_set none = halts (exits 2)
  was_set (some c) = goes_on none c

  abbrev pub use_flag : Option (Flag C) → List ℕ → Option (List ℕ) → C → Step C
  use_flag none n v c =
      halts (exits (if bytes_eq n (codes "help") || bytes_eq n (codes "h") then 0 else 2))
  use_flag (some f) n (some v) c = was_set (f.set v c)
  use_flag (some f) n none c =
      if f.is_bool then was_set (f.set (codes "true") c) else goes_on (some f) c

  abbrev pub use_arg : List (Flag C) → Arg → C → Step C
  use_arg fs end_of_flags c = halts (parsed c)
  use_arg fs bad_syntax c = halts (exits 2)
  use_arg fs (named n v) c = use_flag (find_flag fs n) n v c

  -- The loop of `Parse`; what stands behind the flags is read by no `Main`.
  unfoldable pub parse : List (Flag C) → Option (Flag C) → List (List ℕ) → C → Parsed C
  parse fs none [] c = parsed c
  parse fs (some f) [] c = exits 2
  parse fs none (a ∷ args) c = elim (use_arg fs (read_arg a) c) [
    | halts r ↦ r
    | goes_on waits d ↦ parse fs waits args d
  ]
  parse fs (some f) (a ∷ args) c = elim (was_set (f.set a c)) [
    | halts r ↦ r
    | goes_on waits d ↦ parse fs waits args d
  ]

  abbrev pub set_as : {A : Type 0} → (A → C → C) → Option A → C → Option C
  set_as put none c = none
  set_as put (some a) c = some (put a c)

  -- `StringVar` and the like.
  abbrev pub string_flag : List ℕ → (List ℕ → C → C) → Flag C
  string_flag name put = record { name = name; is_bool = false; set = λ v c. some (put v c) }

  abbrev pub bool_flag : List ℕ → (Bool → C → C) → Flag C
  bool_flag name put = record {
    name = name;
    is_bool = true;
    set = λ v c. set_as put (parse_bool v) c;
  }

  abbrev pub int_flag : List ℕ → (ℤ → C → C) → Flag C
  int_flag name put = record {
    name = name;
    is_bool = false;
    set = λ v c. set_as put (parse_int v) c;
  }

  -- The first argument is that of `parse_duration`.
  abbrev pub duration_flag : (List ℕ → ℕ → ℕ) → List ℕ → (ℤ → C → C) → Flag C
  duration_flag fraction name put = record {
    name = name;
    is_bool = false;
    set = λ v c. set_as put (parse_duration fraction v) c;
  }

  -- The first argument is `strconv.ParseFloat`.
  abbrev pub float_flag : (List ℕ → Option (ℤ × ℕ)) → List ℕ → (ℤ × ℕ → C → C) → Flag C
  float_flag parse_float name put = record {
    name = name;
    is_bool = false;
    set = λ v c. set_as put (parse_float v) c;
  }

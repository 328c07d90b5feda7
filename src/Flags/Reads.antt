-- ===== src/Flags/Reads.antt =====
-- Go's `flag.FlagSet.Parse`: what a run of arguments does to the configuration, piece by piece.
use mathlib.Core.List.{append_assoc, append-nil}
use quicshot.Prelude.{◌≡◌, refl, ◌∙◌, ap, ℕ, List, [], ◌∷◌, ◌++◌, none}
use quicshot.Flags.{Flag, parsed, goes_on, read_arg, use_arg, parse}

module _ {C : Type 0} where
  -- In front of any others, these arguments take the configuration from `c` to `d`.
  abbrev pub Reads : List (Flag C) → List (List ℕ) → C → C → Type 0
  Reads fs args c d = (rest : List (List ℕ)) → parse fs none (args ++ rest) c ≡ parse fs none rest d

  pub Reads-nil : (fs : List (Flag C)) (c : C) → Reads fs [] c c
  Reads-nil fs c rest = refl

  pub Reads-append :
      (fs : List (Flag C)) (xs ys : List (List ℕ)) (c d e : C)
      → Reads fs xs c d
      → Reads fs ys d e
      → Reads fs (xs ++ ys) c e
  Reads-append fs xs ys c d e r s rest = rw (append_assoc xs ys rest) (r (ys ++ rest) ∙ s rest)

  -- An argument that is a flag with its value.
  pub Reads-one :
      (fs : List (Flag C)) (a : List ℕ) (c d : C)
      → use_arg fs (read_arg a) c ≡ goes_on none d
      → Reads fs (a ∷ []) c d
  unfolding parse
  Reads-one fs a c d h rest = rw (h, parse) refl

  -- Arguments that are read to their end are the whole command line.
  pub parse-Reads :
      (fs : List (Flag C)) (args : List (List ℕ)) (c d : C)
      → Reads fs args c d
      → parse fs none args c ≡ parsed d
  unfolding parse
  parse-Reads fs args c d r = ap (λ xs. parse fs none xs c) (append-nil' args) ∙ r []
    where
      append-nil' : (xs : List (List ℕ)) → xs ≡ xs ++ []
      append-nil' xs = rw append-nil refl

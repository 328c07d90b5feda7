-- ===== src/Ui/Commands/Values.antt =====
-- internal/ui/ui.go: what `durationRE` and `netemArgRE` accept, said without a matcher.
use quicshot.Prelude.{
  ℕ, ◌≡◌, ◌≢◌, ◌↔◌, ◌⊎◌, inl, inr, refl, ap, subst, ◌∙◌, Bool, true, false, ◌&&◌, ◌||◌, List, [],
  ◌∷◌, ◌++◌, ◌==◌, arith,
}
use quicshot.Prelude.Bytes.{bytes_eq, bytes_eq_iff, is_digit}
use quicshot.Prelude.Members.{Member, All}
use quicshot.Blast.CfCode.{leading_digits}
use quicshot.Ui.Commands.{
  one_of, skip_digits, starts_digit, is_numbered, is_duration, duration_units, netem_units,
  netem_rest, is_netem,
}

abbrev pub Digits : List ℕ → Type 0
Digits [] = Unit {0}
Digits (c ∷ s) = (is_digit c ≡ true) × Digits s

-- Digits, at least one, and a unit behind them.
abbrev pub IsNumbered : List (List ℕ) → List ℕ → Type 0
IsNumbered units s =
    (ds : List ℕ) × (u : List ℕ) × (s ≡ ds ++ u) × (ds ≢ []) × Digits ds × Member u units

abbrev pub IsDuration : List ℕ → Type 0
IsDuration s = IsNumbered duration_units s

-- A number, with or without a fraction, and a unit.
abbrev pub IsNetem : List ℕ → Type 0
IsNetem s =
    IsNumbered netem_units s
    ⊎ ((ds : List ℕ) × (t : List ℕ) × (s ≡ ds ++ (b'.' ∷ t))
        × (ds ≢ [])
        × Digits ds
        × IsNumbered netem_units t)

pub one_of_iff : (ts : List (List ℕ)) (s : List ℕ) → (one_of ts s ≡ true) ↔ Member s ts
one_of_iff [] s = (λ h. cc, λ h. elim h [ ])
one_of_iff (t ∷ ts) s = (
  λ h. ground (arith, bytes_eq_iff t s, one_of_iff ts s),
  λ h. ground (arith, bytes_eq_iff t s, one_of_iff ts s),
)

pub leading-skip : (s : List ℕ) → s ≡ leading_digits s ++ skip_digits s
unfolding leading_digits skip_digits
leading-skip [] = refl
leading-skip (c ∷ s) = ground (arith, leading-skip s)

pub leading_digits-Digits : (s : List ℕ) → Digits (leading_digits s)
unfolding leading_digits
leading_digits-Digits [] = tt
leading_digits-Digits (c ∷ s) = ground (arith, leading_digits-Digits s)

leading_digits_ne : (s : List ℕ) → starts_digit s ≡ true → leading_digits s ≢ []
unfolding leading_digits
leading_digits_ne [] h = λ e. cc
leading_digits_ne (c ∷ s) h = λ e. ground arith

skip_digits-append :
    (ds u : List ℕ) → Digits ds → starts_digit u ≡ false → skip_digits (ds ++ u) ≡ u
unfolding skip_digits
skip_digits-append [] [] d h = refl
skip_digits-append [] (c ∷ u) d h = ground arith
skip_digits-append (c ∷ ds) u d h = ground (arith, skip_digits-append ds u d.1 h)

starts_digit-append : (ds u : List ℕ) → ds ≢ [] → Digits ds → starts_digit (ds ++ u) ≡ true
starts_digit-append [] u n d = absurd (n refl)
starts_digit-append (c ∷ ds) u n d = d.0

-- No unit of this list begins with a digit.
abbrev NoDigit : List (List ℕ) → Type 0
NoDigit units = All (λ u. starts_digit u ≡ false) units

Member-NoDigit :
    (units : List (List ℕ)) (u : List ℕ) → NoDigit units → Member u units → starts_digit u ≡ false
Member-NoDigit [] u a m = elim m [ ]
Member-NoDigit (v ∷ vs) u a (inl e) = subst (λ t. starts_digit t ≡ false) e a.0
Member-NoDigit (v ∷ vs) u a (inr m) = Member-NoDigit vs u a.1 m

is_numbered_lem :
    (units : List (List ℕ)) (s : List ℕ)
    → NoDigit units
    → (is_numbered units s ≡ true) ↔ IsNumbered units s
unfolding is_numbered
is_numbered_lem units s a = (
  λ h. (
    leading_digits s,
    skip_digits s,
    leading-skip s,
    leading_digits_ne s (ground arith),
    leading_digits-Digits s,
    ground (arith, one_of_iff units (skip_digits s)),
  ),
  λ h.
      let (ds, u, e, n, d, m) = h in
      ground (
        arith,
        ap starts_digit e ∙ starts_digit-append ds u n d,
        ap skip_digits e ∙ skip_digits-append ds u d (Member-NoDigit units u a m),
        one_of_iff units u,
      ),
)

-- A text is accepted as a duration exactly if it is one or more digits and the unit "ms", "s" or "m".
pub is_duration_lem : (s : List ℕ) → (is_duration s ≡ true) ↔ IsDuration s
unfolding is_duration
is_duration_lem s = is_numbered_lem duration_units s (refl, (refl, (refl, tt)))

netem-NoDigit : NoDigit netem_units
netem-NoDigit = (refl, (refl, (refl, (refl, (refl, (refl, tt))))))

or_cases : (a b : Bool) → (a || b) ≡ true → (a ≡ true) ⊎ (b ≡ true)
or_cases true b h = inl refl
or_cases false b h = inr h

and_parts : (a b : Bool) → (a && b) ≡ true → (a ≡ true) × (b ≡ true)
and_parts true b h = (refl, h)
and_parts false b h = cc

or_left : (a b : Bool) → a ≡ true → (a || b) ≡ true
or_left a b h = ground arith

or_right : (a b : Bool) → b ≡ true → (a || b) ≡ true
or_right true b h = refl
or_right false b h = h

no_unit : one_of netem_units [] ≡ true → ⊥
unfolding bytes_eq
no_unit h = cc

netem_rest_unit : (r : List ℕ) → one_of netem_units r ≡ true → netem_rest r ≡ true
netem_rest_unit [] h = absurd (no_unit h)
netem_rest_unit (c ∷ s) h =
    or_left (one_of netem_units (c ∷ s)) (c == b'.' && is_numbered netem_units s) h

netem_rest_point : (t : List ℕ) → is_numbered netem_units t ≡ true → netem_rest (b'.' ∷ t) ≡ true
netem_rest_point t h = or_right (one_of netem_units (b'.' ∷ t)) (is_numbered netem_units t) h

netem_rest_cases :
    (r : List ℕ)
    → netem_rest r ≡ true
    → (one_of netem_units r ≡ true)
      ⊎ ((t : List ℕ) × (r ≡ b'.' ∷ t) × (is_numbered netem_units t ≡ true))
netem_rest_cases [] h = cc
netem_rest_cases (c ∷ s) h =
    elim (or_cases (one_of netem_units (c ∷ s)) (c == b'.' && is_numbered netem_units s) h) [
      | inl p ↦ inl p
      | inr q ↦
          let (point, n) = and_parts (c == b'.') (is_numbered netem_units s) q in
          inr (s, ap (λ d. d ∷ s) (ground arith), n)
    ]

pub numbered_parts :
    (units : List (List ℕ)) (s : List ℕ)
    → (is_numbered units s ≡ true)
      ↔ ((starts_digit s ≡ true) × (one_of units (skip_digits s) ≡ true))
unfolding is_numbered
numbered_parts units s =
    (λ h. and_parts (starts_digit s) (one_of units (skip_digits s)) h, λ h. ground arith)

-- A text is accepted as an impairment value exactly if it is one or more digits, perhaps a point and
-- one or more digits, and one of the units "%", "ms", "s", "kbit", "mbit", "gbit".
pub is_netem_lem : (s : List ℕ) → (is_netem s ≡ true) ↔ IsNetem s
unfolding is_netem
is_netem_lem s = (
  λ h.
      let (first, rest) = and_parts (starts_digit s) (netem_rest (skip_digits s)) h in
      elim (netem_rest_cases (skip_digits s) rest) [
        | inl p ↦ inl (
            (is_numbered_lem netem_units s netem-NoDigit).0
              ((numbered_parts netem_units s).1 (first, p)))
        | inr (t, e, n) ↦ inr (
          leading_digits s,
          t,
          leading-skip s ∙ ap (λ u. leading_digits s ++ u) e,
          leading_digits_ne s first,
          leading_digits-Digits s,
          (is_numbered_lem netem_units t netem-NoDigit).0 n,
        )
      ],
  λ h. elim h [
    | inl n ↦
        let (first, unit) =
          (numbered_parts netem_units s).0 ((is_numbered_lem netem_units s netem-NoDigit).1 n) in
        rw first (netem_rest_unit (skip_digits s) unit)
    | inr (ds, t, e, n, d, m) ↦
        rw
          (
            ap starts_digit e ∙ starts_digit-append ds (b'.' ∷ t) n d,
            ap skip_digits e ∙ skip_digits-append ds (b'.' ∷ t) d refl,
          )
          (netem_rest_point t ((is_numbered_lem netem_units t netem-NoDigit).1 m))
  ],
)

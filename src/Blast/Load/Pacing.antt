-- ===== src/Blast/Load/Pacing.antt =====
-- internal/blast/load.go, `tokenPacer`: the starts that it gives out.
use quicshot.Prelude.{ℕ, ◌+◌, ◌≤◌, ◌≡◌, refl, ap, ◌∙◌, List, [], ◌∷◌, Option, none, some, arith}
use quicshot.Blast.Load.{TokenPacer, reserve}

abbrev or_now : ℕ → Option ℕ → ℕ
or_now now none = now
or_now now (some d) = now + d

-- The times at which callers that come at `nows`, in the order in which they take the lock, may start.
unfoldable pub starts_at : TokenPacer → List ℕ → List ℕ
starts_at p [] = []
starts_at p (now ∷ nows) = let (d, p') = reserve p now in or_now now d ∷ starts_at p' nows

-- Each is at least `gap` behind the one before it.
abbrev pub Spaced : ℕ → List ℕ → Type 0
Spaced gap [] = Unit {0}
Spaced gap (s ∷ []) = Unit {0}
Spaced gap (s ∷ t ∷ ss) = (s + gap ≤ t) × Spaced gap (t ∷ ss)

-- From `low` on, and spaced.
abbrev From : ℕ → ℕ → List ℕ → Type 0
From gap low [] = Unit {0}
From gap low (s ∷ ss) = (low ≤ s) × From gap (s + gap) ss

From-Spaced : (gap low : ℕ) (ss : List ℕ) → From gap low ss → Spaced gap ss
From-Spaced gap low [] f = tt
From-Spaced gap low (s ∷ []) f = tt
From-Spaced gap low (s ∷ t ∷ ss) f = (f.1.0, From-Spaced gap (s + gap) (t ∷ ss) f.1)

-- No caller starts before it comes.
abbrev pub NotBefore : List ℕ → List ℕ → Type 0
NotBefore [] ss = ss ≡ []
NotBefore (now ∷ nows) [] = ⊥
NotBefore (now ∷ nows) (s ∷ ss) = (now ≤ s) × NotBefore nows ss

-- The start that one call gives out, and where the next one lies.
record Reserved (p : TokenPacer) (now : ℕ) : Type 0 where
  same_interval : (reserve p now).1.interval ≡ p.interval
  following : (reserve p now).1.next ≡ some (or_now now (reserve p now).0 + p.interval)
  not_early : now ≤ or_now now (reserve p now).0

reserve-Reserved : (p : TokenPacer) (now : ℕ) → Reserved p now
unfolding reserve
reserve-Reserved p now = ground arith

reserve-ge : (p : TokenPacer) (now t : ℕ) → p.next ≡ some t → t ≤ or_now now (reserve p now).0
unfolding reserve
reserve-ge p now t e = ground arith

From-next :
    (nows : List ℕ) (p : TokenPacer) (gap t : ℕ)
    → p.interval ≡ gap
    → p.next ≡ some t
    → From gap t (starts_at p nows)
unfolding starts_at
From-next [] p gap t g e = tt
From-next (now ∷ nows) p gap t g e =
    let r = reserve-Reserved p now in
    let slot = or_now now (reserve p now).0 in
    (
      reserve-ge p now t e,
      From-next nows (reserve p now).1 gap (slot + gap) (r.same_interval ∙ g)
          (r.following ∙ ap (λ k. some (slot + k)) g),
    )

From-fresh : (nows : List ℕ) (p : TokenPacer) → From p.interval 0 (starts_at p nows)
unfolding starts_at
From-fresh [] p = tt
From-fresh (now ∷ nows) p =
    let r = reserve-Reserved p now in
    (omega arith, From-next nows (reserve p now).1 p.interval _ r.same_interval r.following)

starts_at-NotBefore : (nows : List ℕ) (p : TokenPacer) → NotBefore nows (starts_at p nows)
unfolding starts_at
starts_at-NotBefore [] p = refl
starts_at-NotBefore (now ∷ nows) p =
    ((reserve-Reserved p now).not_early, starts_at-NotBefore nows (reserve p now).1)

-- Callers of one pacer start at least one interval apart, in the order in which they take the lock,
-- however late or out of order their clocks are; and none starts before it came.
pub starts_at-Spaced :
    (p : TokenPacer) (nows : List ℕ)
    → Spaced p.interval (starts_at p nows) × NotBefore nows (starts_at p nows)
starts_at-Spaced p nows =
    (From-Spaced p.interval 0 _ (From-fresh nows p), starts_at-NotBefore nows p)

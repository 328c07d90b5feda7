-- ===== src/Ui/Commands/Run/Sizes.antt =====
-- internal/ui/ui.go, `appendBlastArgs`: the size of a load that the panel starts.
use quicshot.Prelude.{
  is_empty, ℕ, ◌≤◌, ◌≡◌, ◌⊎◌, inl, inr, refl, subst, List, [], ◌∷◌, ◌++◌, arith, Bool-cases,
}
use quicshot.Prelude.Bytes.{codes}
use quicshot.Prelude.Int.{ℤ, pos, pos_part, ◌≤ℤ◌}
use quicshot.Prelude.Members.{Member}
use quicshot.Blast.CfCode.{decimal}
use quicshot.Ui.Commands.{Checked, ok, refused, is_duration, clamp}
use quicshot.Ui.Commands.Run.{
  RunReq, before, duration_flags, warmup_flag, with_rest, load_flags, optional_blast_flags,
  blast_flags,
}

-- `n` is the number that is asked for, or that number is out of range.
abbrev pub Within : ℤ → ℕ → ℕ → Type 0
Within v hi n = (1 ≤ n) × (n ≤ hi) × ((v ≡ pos n) ⊎ (¬ (pos 1 ≤ℤ v)) ⊎ (¬ (v ≤ℤ pos hi)))

clamp-Within : (v : ℤ) (hi : ℕ) → 1 ≤ hi → Within v hi (pos_part (clamp v (pos 1) (pos hi)))
unfolding clamp
clamp-Within v hi h = ground arith

-- The flags hold `f`, unless there are none.
abbrev pub Holds : List ℕ → Checked (List (List ℕ)) → Type 0
Holds f (ok fs) = Member f fs
Holds f (refused why) = Unit {0}

Member-append_right : (f : List ℕ) (fs gs : List (List ℕ)) → Member f gs → Member f (fs ++ gs)
Member-append_right f [] gs m = m
Member-append_right f (x ∷ fs) gs m = inr (Member-append_right f fs gs m)

Member-append_left : (f : List ℕ) (fs gs : List (List ℕ)) → Member f fs → Member f (fs ++ gs)
Member-append_left f [] gs m = elim m [ ]
Member-append_left f (x ∷ fs) gs (inl e) = inl e
Member-append_left f (x ∷ fs) gs (inr m) = inr (Member-append_left f fs gs m)

before-Holds :
    (f : List ℕ) (fs : List (List ℕ)) (r : Checked (List (List ℕ)))
    → Holds f r
    → Holds f (before fs r)
before-Holds f fs (ok gs) m = Member-append_right f fs gs m
before-Holds f fs (refused why) m = tt

with_rest-Holds :
    (f : List ℕ) (r : Checked (List (List ℕ))) (gs : List (List ℕ))
    → Member f gs
    → Holds f (with_rest r gs)
with_rest-Holds f (ok fs) gs m = Member-append_right f fs gs m
with_rest-Holds f (refused why) gs m = tt

duration_flags-Holds :
    (f : List ℕ) (kvs : List (List ℕ × List ℕ)) (rest : Checked (List (List ℕ)))
    → Holds f rest
    → Holds f (duration_flags kvs rest)
unfolding duration_flags
duration_flags-Holds f [] rest m = m
duration_flags-Holds f ((key, v) ∷ kvs) rest m = elim (Bool-cases (is_empty v)) [
  | inl e ↦ rw e (duration_flags-Holds f kvs rest m)
  | inr g ↦ elim (Bool-cases (is_duration v)) [
    | inl d ↦
        rw (g, d)
          (before-Holds f ((key ++ v) ∷ []) (duration_flags kvs rest)
            (duration_flags-Holds f kvs rest m))
    | inr n ↦ rw (g, n) tt
  ]
]

blast_flags-Holds :
    (format_float : ℤ → ℕ → List ℕ) (req : RunReq) (f : List ℕ)
    → Member f (load_flags req)
    → Holds f (blast_flags format_float req)
unfolding blast_flags
blast_flags-Holds format_float req f m =
    let more = load_flags req ++ optional_blast_flags format_float req in
    duration_flags-Holds f _ (with_rest (warmup_flag req.warmup) more) (
      with_rest-Holds f (warmup_flag req.warmup) more
        (Member-append_left f (load_flags req) (optional_blast_flags format_float req) m))

-- A blast that the panel starts has from 1 to 64 connections and from 1 to 256 workers on each, and
-- these are the numbers asked for where those are in range.
pub blast_flags_sizes :
    (format_float : ℤ → ℕ → List ℕ) (req : RunReq) (fs : List (List ℕ))
    → blast_flags format_float req ≡ ok fs
    → (conns : ℕ) × (workers : ℕ) × Within req.conns 64 conns
      × Within req.workers 256 workers
      × Member (codes "-conns=" ++ decimal conns) fs
      × Member (codes "-workers=" ++ decimal workers) fs
unfolding load_flags
blast_flags_sizes format_float req fs e =
    let conns = pos_part (clamp req.conns (pos 1) (pos 64)) in
    let workers = pos_part (clamp req.workers (pos 1) (pos 256)) in
    let c = codes "-conns=" ++ decimal conns in
    let w = codes "-workers=" ++ decimal workers in
    (
      conns,
      workers,
      clamp-Within req.conns 64 (omega arith),
      clamp-Within req.workers 256 (omega arith),
      subst (Holds c) e (blast_flags-Holds format_float req c (inl refl)),
      subst (Holds w) e (blast_flags-Holds format_float req w (inr (inl refl))),
    )

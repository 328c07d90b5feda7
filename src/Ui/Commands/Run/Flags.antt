-- ===== src/Ui/Commands/Run/Flags.antt =====
-- internal/ui/ui.go, `buildRunArgs`: the arguments behind the name of the tool.
use quicshot.Prelude.{
  is_empty, ℕ, ◌≡◌, inl, inr, refl, subst, Bool, true, false, not, ◌||◌, List, [], ◌∷◌, ◌++◌,
  if◌then◌else◌, Bool-cases,
}
use quicshot.Prelude.Bytes.{codes, bytes_eq}
use quicshot.Prelude.Int.{ℤ}
use quicshot.Prelude.Members.{All, All-append}
use quicshot.Ui.Commands.{Checked, ok, refused, is_duration, zero_duration}
use quicshot.Ui.Commands.Run.{
  RunReq, flag_if, flags_of, header_flags, before, duration_flags, warmup_flag,
  optional_blast_flags, load_flags, with_rest, blast_flags, common_flags, for_tool, build_run_args,
}

-- A text that begins with "-".
abbrev pub IsFlag : List ℕ → Type 0
IsFlag [] = ⊥
IsFlag (c ∷ s) = c ≡ b'-'

abbrev pub IfFlags : Checked (List (List ℕ)) → Type 0
IfFlags (ok fs) = All IsFlag fs
IfFlags (refused why) = Unit {0}

flag_if-IsFlag : (b : Bool) (f : List ℕ) → IsFlag f → All IsFlag (flag_if b f)
flag_if-IsFlag true f h = (h, tt)
flag_if-IsFlag false f h = tt

both : (fs gs : List (List ℕ)) → All IsFlag fs → All IsFlag gs → All IsFlag (fs ++ gs)
both fs gs a b = All-append IsFlag fs gs a b

header_flags-IsFlag : (hs : List (List ℕ)) → All IsFlag (header_flags hs)
unfolding header_flags
header_flags-IsFlag [] = tt
header_flags-IsFlag (h ∷ hs) =
    both (flag_if (not (is_empty h)) (codes "-header=" ++ h)) (header_flags hs)
      (flag_if-IsFlag (not (is_empty h)) (codes "-header=" ++ h) refl) (header_flags-IsFlag hs)

before-IfFlags :
    (fs : List (List ℕ)) (r : Checked (List (List ℕ)))
    → All IsFlag fs
    → IfFlags r
    → IfFlags (before fs r)
before-IfFlags fs (ok gs) a b = both fs gs a b
before-IfFlags fs (refused why) a b = tt

-- The keys that durations are put behind.
abbrev Keyed : List (List ℕ × List ℕ) → Type 0
Keyed [] = Unit {0}
Keyed ((key, v) ∷ kvs) = IsFlag (key ++ v) × Keyed kvs

duration_flags-IfFlags :
    (kvs : List (List ℕ × List ℕ)) (rest : Checked (List (List ℕ)))
    → Keyed kvs
    → IfFlags rest
    → IfFlags (duration_flags kvs rest)
unfolding duration_flags
duration_flags-IfFlags [] rest k r = r
duration_flags-IfFlags ((key, v) ∷ kvs) rest k r = elim (Bool-cases (is_empty v)) [
  | inl e ↦ rw e (duration_flags-IfFlags kvs rest k.1 r)
  | inr f ↦ elim (Bool-cases (is_duration v)) [
    | inl d ↦
        rw (f, d)
          (before-IfFlags ((key ++ v) ∷ []) (duration_flags kvs rest) (k.0, tt)
            (duration_flags-IfFlags kvs rest k.1 r))
    | inr n ↦ rw (f, n) tt
  ]
]

warmup_flag-IfFlags : (w : List ℕ) → IfFlags (warmup_flag w)
unfolding warmup_flag
warmup_flag-IfFlags w = elim (Bool-cases (is_empty w || zero_duration w)) [
  | inl e ↦ rw e tt
  | inr f ↦ elim (Bool-cases (is_duration w)) [
    | inl d ↦ rw (f, d) (refl, tt)
    | inr n ↦ rw (f, n) tt
  ]
]

with_rest-IfFlags :
    (r : Checked (List (List ℕ))) (gs : List (List ℕ))
    → IfFlags r
    → All IsFlag gs
    → IfFlags (with_rest r gs)
with_rest-IfFlags (ok fs) gs a b = both fs gs a b
with_rest-IfFlags (refused why) gs a b = tt

abbrev AllFlags : List (Bool × List ℕ) → Type 0
AllFlags [] = Unit {0}
AllFlags ((b, f) ∷ bfs) = IsFlag f × AllFlags bfs

flags_of-IsFlag : (bfs : List (Bool × List ℕ)) → AllFlags bfs → All IsFlag (flags_of bfs)
unfolding flags_of
flags_of-IsFlag [] h = tt
flags_of-IsFlag ((b, f) ∷ bfs) h =
    both (flag_if b f) (flags_of bfs) (flag_if-IsFlag b f h.0) (flags_of-IsFlag bfs h.1)

optional-IsFlag :
    (format_float : ℤ → ℕ → List ℕ) (req : RunReq)
    → All IsFlag (optional_blast_flags format_float req)
unfolding optional_blast_flags
optional-IsFlag format_float req =
    flags_of-IsFlag _ (refl, (refl, (refl, (refl, (refl, (refl, (refl, tt)))))))

load_flags-IsFlag : (req : RunReq) → All IsFlag (load_flags req)
unfolding load_flags
load_flags-IsFlag req = (refl, (refl, (refl, (refl, tt))))

blast_flags-IfFlags :
    (format_float : ℤ → ℕ → List ℕ) (req : RunReq) → IfFlags (blast_flags format_float req)
unfolding blast_flags
blast_flags-IfFlags format_float req =
    let more = load_flags req ++ optional_blast_flags format_float req in
    duration_flags-IfFlags _ (with_rest (warmup_flag req.warmup) more)
      (refl, (refl, (refl, (refl, tt))))
      (with_rest-IfFlags (warmup_flag req.warmup) more (warmup_flag-IfFlags req.warmup) (
        both (load_flags req) (optional_blast_flags format_float req) (load_flags-IsFlag req)
          (optional-IsFlag format_float req)))

local-IsFlag :
    (b : Bool)
    → All IsFlag (if b then codes "-certs=/certs" ∷ codes "-server-name=edge" ∷ [] else [])
local-IsFlag true = (refl, (refl, tt))
local-IsFlag false = tt

common_flags-IsFlag : (req : RunReq) (target : List ℕ) → All IsFlag (common_flags req target)
unfolding common_flags
common_flags-IsFlag req target =
    let certs =
      if req.local_certs then codes "-certs=/certs" ∷ codes "-server-name=edge" ∷ [] else [] in
    let insecure = flag_if req.insecure (codes "-insecure") in
    (
      refl,
      both (header_flags req.headers ++ insecure) certs
          (both (header_flags req.headers) insecure (header_flags-IsFlag req.headers)
            (flag_if-IsFlag req.insecure (codes "-insecure") refl))
          (local-IsFlag req.local_certs),
    )

-- What `build_run_args` yields, if it is no refusal.
abbrev pub ToolFlags : List ℕ → Checked (List (List ℕ)) → Type 0
ToolFlags tool (ok args) = (fs : List (List ℕ)) × (args ≡ tool ∷ fs) × All IsFlag fs
ToolFlags tool (refused why) = Unit {0}

for_tool-ToolFlags :
    (tool : List ℕ) (r : Checked (List (List ℕ))) → IfFlags r → ToolFlags tool (for_tool tool r)
for_tool-ToolFlags tool (ok fs) h = (fs, refl, h)
for_tool-ToolFlags tool (refused why) h = tt

if_blast : (b : Bool) (r : Checked (List (List ℕ))) → IfFlags r → IfFlags (if b then r else ok [])
if_blast true r h = h
if_blast false r h = tt

-- Whatever the request holds: the arguments of a run are the name of the tool and then flags only,
-- each of which begins with "-".
pub build_run_args_flags :
    (format_float : ℤ → ℕ → List ℕ) (req : RunReq) (target : List ℕ) (args : List (List ℕ))
    → build_run_args format_float req target ≡ ok args
    → (fs : List (List ℕ)) × (args ≡ req.tool ∷ fs) × All IsFlag fs
unfolding build_run_args
build_run_args_flags format_float req target args e = subst (ToolFlags req.tool) e (
    for_tool-ToolFlags req.tool _ (
      before-IfFlags (common_flags req target) _ (common_flags-IsFlag req target) (
        if_blast (bytes_eq req.tool (codes "blast")) (blast_flags format_float req)
          (blast_flags-IfFlags format_float req))))

-- ===== src/Blast/Config/Targets.antt =====
-- internal/blast/blast.go, `loadPayload` and `nextURL`: the URLs of a run.
use native.Mathlib.Nat.{mod-lt}
use quicshot.Prelude.{
  is_empty, ℕ, ◌%◌, ◌≡◌, ◌≢◌, inl, inr, refl, ap, sym, subst, ◌∙◌, false, List, [], ◌∷◌, ◌++◌,
  Option, none, some, length, get_or, arith, Bool-cases, Option-cases,
}
use quicshot.Prelude.Bytes.{is_prefix}
use quicshot.Prelude.Members.{Member, All, get_or-Member, All-append}
use quicshot.Blast.Config.{
  Config, is_blank, trim_left, trim_right, keep_front, trim_space, split, url_parts, file_targets,
  extra_urls, file_lines, lines_of, load_body, load_payload, loaded, next_url, pick_url,
}

-- A text that is not empty and has no blank at either end.
abbrev pub IsClean : List ℕ → Type 0
IsClean t = (t ≢ []) × (trim_space t ≡ t)

abbrev Starts : List ℕ → Type 0
Starts [] = Unit {0}
Starts (c ∷ s) = is_blank c ≡ false

trim_left-Starts : (s : List ℕ) → Starts (trim_left s)
unfolding trim_left
trim_left-Starts [] = tt
trim_left-Starts (c ∷ s) = ground (arith, trim_left-Starts s)

trim_left_of_Starts : (s : List ℕ) → Starts s → trim_left s ≡ s
unfolding trim_left
trim_left_of_Starts [] h = refl
trim_left_of_Starts (c ∷ s) h = ground arith

trim_right-Starts : (s : List ℕ) → Starts s → Starts (trim_right s)
unfolding trim_right
trim_right-Starts [] h = tt
trim_right-Starts (c ∷ s) h = ground arith

trim_right-keep_front :
    (c : ℕ) (s : List ℕ) → trim_right s ≡ s → trim_right (keep_front c s) ≡ keep_front c s
unfolding trim_right
trim_right-keep_front c [] h = ground arith
trim_right-keep_front c (d ∷ s) h = ap (keep_front c) h

trim_right_idem : (s : List ℕ) → trim_right (trim_right s) ≡ trim_right s
unfolding trim_right
trim_right_idem [] = refl
trim_right_idem (c ∷ s) = trim_right-keep_front c (trim_right s) (trim_right_idem s)

trim_space_idem : (s : List ℕ) → trim_space (trim_space s) ≡ trim_space s
unfolding trim_space
trim_space_idem s =
    ap trim_right (
      trim_left_of_Starts (trim_right (trim_left s))
        (trim_right-Starts (trim_left s) (trim_left-Starts s)))
    ∙ trim_right_idem (trim_left s)

IsClean-part : (u : List ℕ) → is_empty (trim_space u) ≡ false → IsClean (trim_space u)
IsClean-part u h = (λ e. ground arith, trim_space_idem u)

url_parts-IsClean : (us : List (List ℕ)) → All IsClean (url_parts us)
unfolding url_parts
url_parts-IsClean [] = tt
url_parts-IsClean (u ∷ us) = elim (Bool-cases (is_empty (trim_space u))) [
  | inl e ↦ rw e (url_parts-IsClean us)
  | inr e ↦ rw e (IsClean-part u e, url_parts-IsClean us)
]

-- A clean line that is no comment.
abbrev pub IsEntry : List ℕ → Type 0
IsEntry t = IsClean t × (is_prefix (b'#' ∷ []) t ≡ false)

file_targets-entries : (ls : List (List ℕ)) → All IsEntry (file_targets ls)
unfolding file_targets
file_targets-entries [] = tt
file_targets-entries (l ∷ ls) = elim (Bool-cases (is_empty (trim_space l))) [
  | inl e ↦ rw e (file_targets-entries ls)
  | inr e ↦ elim (Bool-cases (is_prefix (b'#' ∷ []) (trim_space l))) [
    | inl c ↦ rw (e, c) (file_targets-entries ls)
    | inr c ↦ rw (e, c) ((IsClean-part l e, c), file_targets-entries ls)
  ]
]

extra_urls-IsClean : (s : List ℕ) → All IsClean (extra_urls s)
extra_urls-IsClean [] = tt
extra_urls-IsClean (c ∷ s) = url_parts-IsClean (split b',' (c ∷ s))

All-map :
    {P Q : List ℕ → Type 0} (f : (t : List ℕ) → P t → Q t) (ts : List (List ℕ))
    → All P ts
    → All Q ts
All-map f [] h = tt
All-map f (t ∷ ts) h = (f t h.0, All-map f ts h.1)

carry : {a b : List (List ℕ)} → some a ≡ some b → All IsEntry a → All IsEntry b
carry {a} {b} e h = let same : a ≡ b = ground arith in subst (All IsEntry) same h

lines_of-entries :
    (o : Option (List ℕ)) {lines : List (List ℕ)} → lines_of o ≡ some lines → All IsEntry lines
lines_of-entries none e = cc
lines_of-entries (some raw) e = carry e (file_targets-entries (split 10 raw))

file_lines-clean :
    (read : List ℕ → Option (List ℕ)) (path : List ℕ) {lines : List (List ℕ)}
    → file_lines read path ≡ some lines
    → All IsEntry lines
file_lines-clean read [] e = carry e tt
file_lines-clean read (c ∷ s) e = lines_of-entries (read (c ∷ s)) e

-- When the payload loads, the target of the run comes first, and every further one, from -urls or
-- from the file of URLs, is not empty and has no blank at either end.
pub load_payload-targets :
    (read : List ℕ → Option (List ℕ)) (c : Config) {c' : Config}
    → load_payload read c ≡ loaded c'
    → (more : List (List ℕ)) × (c'.targets ≡ c.target ∷ more) × All IsClean more
unfolding load_payload
load_payload-targets read c {c'} e = elim (Option-cases (load_body read c)) [
  | inl no_body ↦ cc (rw (no_body, load_payload) at e)
  | inr (body, b) ↦ elim (Option-cases (file_lines read c.urls_file)) [
    | inl no_lines ↦ cc (rw (b, no_lines, load_payload) at e)
    | inr (lines, l) ↦ (
      extra_urls c.urls ++ lines,
      ground arith,
      All-append IsClean (extra_urls c.urls) lines (extra_urls-IsClean c.urls)
          (All-map (λ t h. h.0) lines (file_lines-clean read c.urls_file l)),
    )
  ]
]

turn :
    (url t : List ℕ) (more : List (List ℕ)) (n : ℕ)
    → (pick_url url (t ∷ more) n).0 ≡ get_or (t ∷ more) (n % length (t ∷ more)) url
turn url t [] n = let z : 0 ≡ n % 1 = omega arith in ap (λ i. get_or (t ∷ []) i url) z
turn url t (u ∷ more) n = refl

-- With a target at hand every request gets one of the targets, and the requests take turns: the one
-- that reads the counter at `n` gets target `n` modulo their number.
pub next_url-Member :
    (c : Config) (n : ℕ) (t : List ℕ) (more : List (List ℕ))
    → c.targets ≡ t ∷ more
    → ((next_url c n).0 ≡ get_or c.targets (n % length c.targets) c.target)
      × Member (next_url c n).0 c.targets
unfolding next_url
next_url-Member c n t more e =
    subst
      (λ ts.
        ((pick_url c.target ts n).0 ≡ get_or ts (n % length ts) c.target)
        × Member (pick_url c.target ts n).0 ts)
      (sym e)
      (
        turn c.target t more n,
        subst (λ u. Member u (t ∷ more)) (sym (turn c.target t more n))
            (get_or-Member (t ∷ more) (n % length (t ∷ more)) c.target (mod-lt n (omega arith))),
      )

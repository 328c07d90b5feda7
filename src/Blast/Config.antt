-- ===== src/Blast/Config.antt =====
-- internal/blast/blast.go: the configuration, the targets of a run, and the percentile of the summary.
-- Texts that are taken apart are lists of bytes; a blank is one of ASCII.
pub mod Targets
pub mod Limits
use quicshot.Prelude.{
  is_empty, ℕ, ◌+◌, ◌-◌, ◌*◌, ◌%◌, Bool, true, false, ◌&&◌, ◌||◌, not, String, List, [], ◌∷◌, ◌++◌,
  Option, none, some, ltb, leb, ◌==◌, length, get_or, str_eq, if◌then◌else◌,
}
use quicshot.Prelude.Bytes.{codes, bytes_eq, is_prefix, is_digit}
use quicshot.Prelude.Int.{ℤ, pos, ◌*ℤ◌, i64, leb_ℤ, ltb_ℤ, pos_part}

-- The fields of `config` that are read here. A float64 rate is a fraction rps_num / rps_den, with a
-- positive denominator.
pub record Config : Type 0 where
  pub target : List ℕ
  pub urls : List ℕ
  pub targets : List (List ℕ)
  pub conns : ℤ
  pub workers : ℤ
  pub mode : List ℕ
  pub rps_num : ℤ
  pub max_inflight : ℤ
  pub body_str : List ℕ
  pub body_file : List ℕ
  pub urls_file : List ℕ
  pub body : List ℕ

pub data ConfigError : Type 0 where
  bad_mode open_without_rps too_few read_body_file read_urls_file : ConfigError

-- `none` is the nil error.
unfoldable pub validate : Config → Option ConfigError
validate c =
    if not (bytes_eq c.mode (codes "closed")) && not (bytes_eq c.mode (codes "open"))
    then some bad_mode
    else if bytes_eq c.mode (codes "open") && leb_ℤ c.rps_num (pos 0)
    then some open_without_rps
    else if ltb_ℤ c.conns (pos 1) || ltb_ℤ c.workers (pos 1)
    then some too_few
    else none

unfoldable pub inflight : Config → ℤ
inflight c =
    if ltb_ℤ (pos 0) c.max_inflight
    then (if ltb_ℤ (pos 4096) c.max_inflight then pos 4096 else c.max_inflight)
    else (let n = i64 (c.conns *ℤ c.workers) in
        let n' = if bytes_eq c.mode (codes "open") then i64 (n *ℤ pos 8) else n in
        if ltb_ℤ n' (pos 1) then pos 1 else if ltb_ℤ (pos 4096) n' then pos 4096 else n')

abbrev pub is_blank : ℕ → Bool
is_blank c = (leb 9 c && leb c 13) || c == 32

-- `strings.TrimSpace`.
unfoldable pub trim_left : List ℕ → List ℕ
trim_left [] = []
trim_left (c ∷ s) = if is_blank c then trim_left s else c ∷ s

-- Blanks at the end go: a blank stays only in front of something that stays.
abbrev pub keep_front : ℕ → List ℕ → List ℕ
keep_front c [] = if is_blank c then [] else c ∷ []
keep_front c (d ∷ s) = c ∷ d ∷ s

unfoldable pub trim_right : List ℕ → List ℕ
trim_right [] = []
trim_right (c ∷ s) = keep_front c (trim_right s)

unfoldable pub trim_space : List ℕ → List ℕ
trim_space s = trim_right (trim_left s)

abbrev pub cons_first : ℕ → List (List ℕ) → List (List ℕ)
cons_first c [] = (c ∷ []) ∷ []
cons_first c (p ∷ ps) = (c ∷ p) ∷ ps

-- `strings.Split(s, sep)` at a separator of one byte.
unfoldable pub split : ℕ → List ℕ → List (List ℕ)
split sep [] = [] ∷ []
split sep (c ∷ s) = let rest = split sep s in if c == sep then [] ∷ rest else cons_first c rest

unfoldable pub url_parts : List (List ℕ) → List (List ℕ)
url_parts [] = []
url_parts (u ∷ us) =
    let t = trim_space u in let rest = url_parts us in if is_empty t then rest else t ∷ rest

-- A line is skipped if it is empty or a comment.
unfoldable pub file_targets : List (List ℕ) → List (List ℕ)
file_targets [] = []
file_targets (l ∷ ls) =
    let t = trim_space l in
    let rest = file_targets ls in if is_empty t || is_prefix (b'#' ∷ []) t then rest else t ∷ rest

abbrev pub extra_urls : List ℕ → List (List ℕ)
extra_urls [] = []
extra_urls (c ∷ s) = url_parts (split b',' (c ∷ s))

-- `os.ReadFile` is the argument: `none` where it fails.
unfoldable pub load_body : (List ℕ → Option (List ℕ)) → Config → Option (List ℕ)
load_body read c =
    if is_empty c.body_file
    then some (if is_empty c.body_str then c.body else c.body_str)
    else read c.body_file

abbrev pub lines_of : Option (List ℕ) → Option (List (List ℕ))
lines_of none = none
lines_of (some raw) = some (file_targets (split 10 raw))

abbrev pub file_lines : (List ℕ → Option (List ℕ)) → List ℕ → Option (List (List ℕ))
file_lines read [] = some []
file_lines read (c ∷ s) = lines_of (read (c ∷ s))

-- The configuration afterwards, or the error. Up to the error the fields are set all the same, but
-- `Main` gives up then.
pub data Loaded : Type 0 where
  loaded : Config → Loaded
  load_error : ConfigError → Loaded

unfoldable pub load_payload : (List ℕ → Option (List ℕ)) → Config → Loaded
load_payload read c = elim (load_body read c) [
  | none ↦ load_error read_body_file
  | some body ↦ elim (file_lines read c.urls_file) [
    | none ↦ load_error read_urls_file
    | some lines ↦
        loaded (record c { body = body; targets = c.target ∷ (extra_urls c.urls ++ lines) })
  ]
]

-- `nextURL`: the URL, and the shared counter afterwards.
abbrev pub pick_url : List ℕ → List (List ℕ) → ℕ → List ℕ × ℕ
pick_url url [] n = (url, n)
pick_url url (u ∷ []) n = (u, n)
pick_url url (u ∷ v ∷ us) n =
    let targets = u ∷ v ∷ us in
    (get_or targets (n % length targets) url, (n + 1) % 18446744073709551616)

unfoldable pub next_url : Config → ℕ → List ℕ × ℕ
next_url c n = pick_url c.target c.targets n

-- `percentile`. The float product `p / 100 * len` is the argument, truncated to an int.
unfoldable pub percentile : (ℕ → ℕ) → List ℕ → ℕ
percentile scaled sorted =
    let n = length sorted in
    let idx = scaled n in if n == 0 then 0 else get_or sorted (if leb n idx then n - 1 else idx) 0

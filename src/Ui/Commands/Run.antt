-- ===== src/Ui/Commands/Run.antt =====
-- internal/ui/ui.go, `handleRun` up to the start of the process: `safeURL`, `validateRunRequest`,
-- `planRun`. `url.Parse`, `strconv.FormatFloat`, `os.Executable` and the path of the client script are
-- arguments.
pub mod Plan
pub mod Flags
pub mod Sizes
use quicshot.Prelude.{
  is_empty, ℕ, ◌+◌, Bool, true, false, ◌&&◌, ◌||◌, not, List, [], ◌∷◌, ◌++◌, map, Option, none,
  some, leb, if◌then◌else◌,
}
use quicshot.Prelude.Bytes.{codes, bytes_eq, contains}
use quicshot.Prelude.Int.{ℤ, pos, pos_part, ltb_ℤ}
use quicshot.Blast.CfCode.{decimal}
use quicshot.Ui.Commands.{
  bad_duration, bad_tool, bad_header, bad_url, no_executable, Checked, ok, refused, one_of,
  is_duration, zero_duration, clamp,
}

-- The rate is rps_num / rps_den, with a positive denominator.
pub record RunReq : Type 0 where
  pub tool : List ℕ
  pub runner : List ℕ
  pub url : List ℕ
  pub conns : ℤ
  pub workers : ℤ
  pub duration : List ℕ
  pub timeout : List ℕ
  pub keep_alive : List ℕ
  pub max_idle : List ℕ
  pub rps_num : ℤ
  pub rps_den : ℕ
  pub read_body : Bool
  pub insecure : Bool
  pub local_certs : Bool
  pub headers : List (List ℕ)
  pub mode : List ℕ
  pub warmup : List ℕ
  pub max_inflight : ℤ
  pub method : List ℕ
  pub body : List ℕ
  pub urls : List ℕ
  pub probe_0rtt : Bool

-- What `safeURL` reads of a parsed URL: `text` is its `String`.
pub record Url : Type 0 where
  pub scheme : List ℕ
  pub host : List ℕ
  pub text : List ℕ

abbrev pub safe_parsed : Option Url → Checked (List ℕ)
safe_parsed none = refused bad_url
safe_parsed (some u) =
    if not (bytes_eq u.scheme (codes "http")) && not (bytes_eq u.scheme (codes "https"))
    then refused bad_url
    else if is_empty u.host
    then refused bad_url
    else ok u.text

unfoldable pub safe_url : (List ℕ → Option Url) → List ℕ → Checked (List ℕ)
safe_url parse s = if is_empty s then refused bad_url else safe_parsed (parse s)

-- A header needs a colon and may hold no line break; an empty one is skipped.
abbrev pub header_ok : List ℕ → Bool
header_ok h =
    is_empty h || (contains h (codes ":") && not (contains h (13 ∷ []) || contains h (10 ∷ [])))

unfoldable pub check_headers : List (List ℕ) → Checked (List (List ℕ))
check_headers [] = ok []
check_headers (h ∷ hs) = if header_ok h then check_headers hs else refused (bad_header h)

abbrev pub tools : List (List ℕ)
tools = codes "blast" ∷ codes "probe" ∷ codes "curl" ∷ codes "chrome" ∷ []

-- `ok []` is the nil error.
unfoldable pub validate_run_request : RunReq → Checked (List (List ℕ))
validate_run_request req =
    if one_of tools req.tool then check_headers req.headers else refused bad_tool

-- The flag with its value, or nothing.
abbrev pub flag_if : Bool → List ℕ → List (List ℕ)
flag_if true f = f ∷ []
flag_if false f = []

unfoldable pub header_flags : List (List ℕ) → List (List ℕ)
header_flags [] = []
header_flags (h ∷ hs) = flag_if (not (is_empty h)) (codes "-header=" ++ h) ++ header_flags hs

abbrev pub before : List (List ℕ) → Checked (List (List ℕ)) → Checked (List (List ℕ))
before fs (ok gs) = ok (fs ++ gs)
before fs (refused why) = refused why

-- `appendDurationFlags` for these pairs, with what is appended behind them.
unfoldable pub duration_flags :
    List (List ℕ × List ℕ) → Checked (List (List ℕ)) → Checked (List (List ℕ))
duration_flags [] rest = rest
duration_flags ((key, v) ∷ kvs) rest =
    let more = duration_flags kvs rest in
    if is_empty v
    then more
    else if is_duration v
    then before ((key ++ v) ∷ []) more
    else refused (bad_duration key)

unfoldable pub warmup_flag : List ℕ → Checked (List (List ℕ))
warmup_flag w =
    if is_empty w || zero_duration w
    then ok []
    else if is_duration w
    then ok ((codes "-warmup=" ++ w) ∷ [])
    else refused (bad_duration (codes "-warmup="))

-- ASCII lower case: none of the letters of "GET" has another fold.
abbrev pub lower : ℕ → ℕ
lower c = if leb 65 c && leb c 90 then c + 32 else c

abbrev pub equal_fold : List ℕ → List ℕ → Bool
equal_fold s t = bytes_eq (map lower s) (map lower t)

abbrev pub bool_text : Bool → List ℕ
bool_text true = codes "true"
bool_text false = codes "false"

-- Each flag whose condition holds, in their order.
unfoldable pub flags_of : List (Bool × List ℕ) → List (List ℕ)
flags_of [] = []
flags_of ((b, f) ∷ bfs) = flag_if b f ++ flags_of bfs

unfoldable pub optional_blast_flags : (ℤ → ℕ → List ℕ) → RunReq → List (List ℕ)
optional_blast_flags format_float req = flags_of (
    (ltb_ℤ (pos 0) req.rps_num, codes "-rps=" ++ format_float req.rps_num req.rps_den)
    ∷ (bytes_eq req.mode (codes "open"), codes "-mode=open")
    ∷ (
      ltb_ℤ (pos 0) req.max_inflight,
      codes "-max-inflight=" ++ decimal (pos_part (clamp req.max_inflight (pos 1) (pos 4096))),
    )
    ∷ (
      not (is_empty req.method) && not (equal_fold req.method (codes "GET")),
      codes "-method=" ++ req.method,
    )
    ∷ (not (is_empty req.body), codes "-body=" ++ req.body)
    ∷ (not (is_empty req.urls), codes "-urls=" ++ req.urls)
    ∷ (req.probe_0rtt, codes "-probe-0rtt")
    ∷ [])

-- The clamped numbers are positive, so that they print without a sign.
unfoldable pub load_flags : RunReq → List (List ℕ)
load_flags req =
    (codes "-conns=" ++ decimal (pos_part (clamp req.conns (pos 1) (pos 64))))
    ∷ (codes "-workers=" ++ decimal (pos_part (clamp req.workers (pos 1) (pos 256))))
    ∷ codes "-stats-every=5s"
    ∷ (codes "-read-body=" ++ bool_text req.read_body)
    ∷ []

abbrev pub with_rest : Checked (List (List ℕ)) → List (List ℕ) → Checked (List (List ℕ))
with_rest (ok fs) gs = ok (fs ++ gs)
with_rest (refused why) gs = refused why

unfoldable pub blast_flags : (ℤ → ℕ → List ℕ) → RunReq → Checked (List (List ℕ))
blast_flags format_float req =
    duration_flags
      ((codes "-duration=", req.duration)
        ∷ (codes "-timeout=", req.timeout)
        ∷ (codes "-keepalive=", req.keep_alive)
        ∷ (codes "-max-idle-timeout=", req.max_idle)
        ∷ [])
      (with_rest (warmup_flag req.warmup) (load_flags req ++ optional_blast_flags format_float req))

unfoldable pub common_flags : RunReq → List ℕ → List (List ℕ)
common_flags req target =
    (codes "-url=" ++ target)
    ∷ (header_flags req.headers
        ++ flag_if req.insecure (codes "-insecure")
        ++ (if req.local_certs then codes "-certs=/certs" ∷ codes "-server-name=edge" ∷ [] else []))

abbrev pub for_tool : List ℕ → Checked (List (List ℕ)) → Checked (List (List ℕ))
for_tool tool (ok fs) = ok (tool ∷ fs)
for_tool tool (refused why) = refused why

unfoldable pub build_run_args : (ℤ → ℕ → List ℕ) → RunReq → List ℕ → Checked (List (List ℕ))
build_run_args format_float req target = for_tool req.tool (
    before (common_flags req target)
      (if bytes_eq req.tool (codes "blast") then blast_flags format_float req else ok []))

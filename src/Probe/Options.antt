-- ===== src/Probe/Options.antt =====
-- internal/probe/probe.go, `Main` in front of the first step: the flags of `quicshot probe`, and the
-- host and port of its target. Durations are nanoseconds.
pub mod Panel
mod Tests
use quicshot.Prelude.{
  ℕ, ◌*◌, Bool, false, List, [], ◌∷◌, ◌++◌, Option, none, some, is_empty, if◌then◌else◌,
}
use quicshot.Prelude.Bytes.{codes}
use quicshot.Prelude.Int.{ℤ, pos}
use quicshot.Flags.{Flag, Parsed, parsed, exits, parse, string_flag, bool_flag, duration_flag}

pub record Options : Type 0 where
  pub target : List ℕ
  pub timeout : ℤ
  pub insecure : Bool
  pub qlog_dir : List ℕ
  pub control : List ℕ
  pub headers : List (List ℕ)

abbrev pub defaults : Options
defaults = record {
  target = [];
  timeout = pos 8000000000;
  insecure = false;
  qlog_dir = [];
  control = codes "https://cloudflare-quic.com/";
  headers = [];
}

-- The argument is that of `parse_duration`.
abbrev pub probe_flag_set : (List ℕ → ℕ → ℕ) → List (Flag Options)
probe_flag_set fraction =
    string_flag (codes "url") (λ v o. record o { target = v })
    ∷ duration_flag fraction (codes "timeout") (λ v o. record o { timeout = v })
    ∷ bool_flag (codes "insecure") (λ v o. record o { insecure = v })
    ∷ string_flag (codes "qlog-dir") (λ v o. record o { qlog_dir = v })
    ∷ string_flag (codes "control") (λ v o. record o { control = v })
    ∷ string_flag (codes "header") (λ v o. record o { headers = o.headers ++ (v ∷ []) })
    ∷ []

unfoldable pub parse_options : (List ℕ → ℕ → ℕ) → List (List ℕ) → Parsed Options
parse_options fraction args = parse (probe_flag_set fraction) none args defaults

-- How `Main` comes to its first step: it exits in the flag package, it returns an error, or it goes on
-- with a host and a port.
pub data Begun : Type 0 where
  exited : ℕ → Begun
  url_required : Begun
  bad_url : Begun
  begun : Options → List ℕ → List ℕ → Begun

abbrev pub port_or_443 : List ℕ → List ℕ
port_or_443 port = if is_empty port then codes "443" else port

-- The host and the port of a URL are what `url.Parse` gives, `none` where it fails.
abbrev pub with_host : Options → Option (List ℕ × List ℕ) → Begun
with_host o none = bad_url
with_host o (some (host, port)) = begun o host (port_or_443 port)

abbrev pub with_options : (List ℕ → Option (List ℕ × List ℕ)) → Parsed Options → Begun
with_options url_parse (exits code) = exited code
with_options url_parse (parsed o) =
    if is_empty o.target then url_required else with_host o (url_parse o.target)

unfoldable pub begin :
    (List ℕ → ℕ → ℕ) → (List ℕ → Option (List ℕ × List ℕ)) → List (List ℕ) → Begun
begin fraction url_parse args = with_options url_parse (parse_options fraction args)

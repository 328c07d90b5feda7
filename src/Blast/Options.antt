-- ===== src/Blast/Options.antt =====
-- internal/blast/blast.go, `parseConfig`: the flags of `quicshot blast`. Durations are nanoseconds, and
-- a float64 is a fraction with a positive denominator. `config.target` and the like are the fields of
-- Blast.Config, which the checks behind the flags read.
pub mod Arguments
pub mod Wanted
pub mod Pieces
pub mod Groups
pub mod Accepted
pub mod Panel
mod Tests
use quicshot.Prelude.{ℕ, ◌*◌, Bool, true, false, List, [], ◌∷◌, ◌++◌, Option, none, String}
use quicshot.Prelude.Bytes.{codes, bytes_eq}
use quicshot.Prelude.Int.{ℤ, pos, negsuc}
use quicshot.Blast.Config.{Config}
use quicshot.Flags.{
  Flag, Parsed, parse, string_flag, bool_flag, int_flag, duration_flag, float_flag,
}

pub record Options : Type 0 where
  pub target : List ℕ
  pub urls : List ℕ
  pub urls_file : List ℕ
  pub conns : ℤ
  pub workers : ℤ
  pub duration : ℤ
  pub warmup : ℤ
  pub requests : ℤ
  pub timeout : ℤ
  pub max_idle : ℤ
  pub keep_alive : ℤ
  pub recv_buf : ℤ
  pub cert_dir : List ℕ
  pub server_name : List ℕ
  pub insecure : Bool
  pub log_path : List ℕ
  pub stats_every : ℤ
  pub read_body : Bool
  pub method : List ℕ
  pub host_hdr : List ℕ
  pub headers : List (List ℕ)
  pub body_str : List ℕ
  pub body_file : List ℕ
  pub content_type : List ℕ
  pub rps : ℤ × ℕ
  pub mode : List ℕ
  pub max_inflight : ℤ
  pub probe_0rtt : Bool
  pub max_fail_pct : ℤ × ℕ
  pub max_drops : ℤ
  pub qlog_dir : List ℕ

abbrev pub seconds : ℕ → ℤ
seconds n = pos (n * 1000000000)

abbrev pub defaults : Options
defaults = record {
  target = codes "https://edge:8443/fast";
  urls = [];
  urls_file = [];
  conns = pos 4;
  workers = pos 8;
  duration = seconds 30;
  warmup = pos 0;
  requests = pos 0;
  timeout = seconds 30;
  max_idle = seconds 30;
  keep_alive = pos 0;
  recv_buf = pos 0;
  cert_dir = [];
  server_name = [];
  insecure = false;
  log_path = [];
  stats_every = seconds 5;
  read_body = true;
  method = codes "GET";
  host_hdr = [];
  headers = [];
  body_str = [];
  body_file = [];
  content_type = [];
  rps = (pos 0, 1);
  mode = codes "closed";
  max_inflight = pos 0;
  probe_0rtt = false;
  max_fail_pct = (negsuc 0, 1);
  max_drops = negsuc 0;
  qlog_dir = [];
}

-- What the flag package computes with floats: the fraction of a duration, and `strconv.ParseFloat`.
pub record Floats : Type 0 where
  pub fraction : List ℕ → ℕ → ℕ
  pub parse_float : List ℕ → Option (ℤ × ℕ)

-- The flags in the order of their declarations.
abbrev pub blast_flag_set : Floats → List (Flag Options)
blast_flag_set fl =
    string_flag (codes "url") (λ v o. record o { target = v })
    ∷ string_flag (codes "urls") (λ v o. record o { urls = v })
    ∷ string_flag (codes "urls-file") (λ v o. record o { urls_file = v })
    ∷ int_flag (codes "conns") (λ v o. record o { conns = v })
    ∷ int_flag (codes "workers") (λ v o. record o { workers = v })
    ∷ duration_flag fl.fraction (codes "duration") (λ v o. record o { duration = v })
    ∷ duration_flag fl.fraction (codes "warmup") (λ v o. record o { warmup = v })
    ∷ int_flag (codes "requests") (λ v o. record o { requests = v })
    ∷ duration_flag fl.fraction (codes "timeout") (λ v o. record o { timeout = v })
    ∷ duration_flag fl.fraction (codes "max-idle-timeout") (λ v o. record o { max_idle = v })
    ∷ duration_flag fl.fraction (codes "keepalive") (λ v o. record o { keep_alive = v })
    ∷ int_flag (codes "udp-recv-buffer") (λ v o. record o { recv_buf = v })
    ∷ string_flag (codes "certs") (λ v o. record o { cert_dir = v })
    ∷ string_flag (codes "server-name") (λ v o. record o { server_name = v })
    ∷ bool_flag (codes "insecure") (λ v o. record o { insecure = v })
    ∷ string_flag (codes "log") (λ v o. record o { log_path = v })
    ∷ duration_flag fl.fraction (codes "stats-every") (λ v o. record o { stats_every = v })
    ∷ bool_flag (codes "read-body") (λ v o. record o { read_body = v })
    ∷ string_flag (codes "method") (λ v o. record o { method = v })
    ∷ string_flag (codes "host") (λ v o. record o { host_hdr = v })
    ∷ string_flag (codes "header") (λ v o. record o { headers = o.headers ++ (v ∷ []) })
    ∷ string_flag (codes "body") (λ v o. record o { body_str = v })
    ∷ string_flag (codes "body-file") (λ v o. record o { body_file = v })
    ∷ string_flag (codes "content-type") (λ v o. record o { content_type = v })
    ∷ float_flag fl.parse_float (codes "rps") (λ v o. record o { rps = v })
    ∷ string_flag (codes "mode") (λ v o. record o { mode = v })
    ∷ int_flag (codes "max-inflight") (λ v o. record o { max_inflight = v })
    ∷ bool_flag (codes "probe-0rtt") (λ v o. record o { probe_0rtt = v })
    ∷ float_flag fl.parse_float (codes "max-failure-pct") (λ v o. record o { max_fail_pct = v })
    ∷ int_flag (codes "max-conn-drops") (λ v o. record o { max_drops = v })
    ∷ string_flag (codes "qlog-dir") (λ v o. record o { qlog_dir = v })
    ∷ []

unfoldable pub parse_config : Floats → List (List ℕ) → Parsed Options
parse_config fl args = parse (blast_flag_set fl) none args defaults

-- The fields that `validate`, `loadPayload` and `inflight` read.
unfoldable pub config_of : Options → Config
config_of o = record {
  target = o.target;
  urls = o.urls;
  targets = [];
  conns = o.conns;
  workers = o.workers;
  mode = o.mode;
  rps_num = o.rps.0;
  max_inflight = o.max_inflight;
  body_str = o.body_str;
  body_file = o.body_file;
  urls_file = o.urls_file;
  body = [];
}

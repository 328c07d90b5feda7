-- ===== src/Probe/Main.antt =====
-- internal/probe/probe.go, `Main` from its flags to its exit code, with `resolveDNS`, `probeH3` and the
-- `applyHeaders` of the same file. What the network returns is an argument; the times in the texts
-- are left out.
pub mod Answers
mod Tests
use quicshot.Prelude.{
  ℕ, Bool, true, false, not, List, [], ◌∷◌, ◌++◌, Option, none, some, is_empty, if◌then◌else◌,
}
use quicshot.Prelude.Bytes.{codes}
use quicshot.Prelude.Int.{ℤ, pos}
use quicshot.Quicerr.{Kind, Detail, Err, classify}
use quicshot.Quiccfg.{QuicConfig, configure}
use quicshot.Blast.Spec.{Field, cut, field_of}
use quicshot.Probe.{Network, Report, run}
use quicshot.Probe.Options.{Options, Begun, exited, url_required, bad_url, begun, begin}

-- The fields that `applyHeaders` adds.
unfoldable pub apply_headers : List (List ℕ) → List Field
apply_headers [] = []
apply_headers (h ∷ hdrs) = field_of (cut b':' h) ++ apply_headers hdrs

abbrev pub joined : List (List ℕ) → List ℕ
joined [] = []
joined (ip ∷ []) = ip
joined (ip ∷ jp ∷ ips) = ip ++ (codes ", " ++ joined (jp ∷ ips))

-- The addresses of the host, or the text of the error.
pub data Lookup : Type 0 where
  addrs : List (List ℕ) → Lookup
  lookup_error : List ℕ → Lookup

unfoldable pub resolve_dns : Lookup → Bool × List ℕ
resolve_dns (addrs ips) = (true, joined ips)
resolve_dns (lookup_error text) = (false, text)

-- What a request over HTTP/3 meets: the directory for the traces and its variable, the making of the
-- request, and its outcome by the header fields that it carries, `none` for a response.
pub record H3Env : Type 0 where
  pub makes_dir : Bool
  pub sets_var : Bool
  pub makes_request : Bool
  pub round_trip : QuicConfig → Bool → List Field → Option Err

pub data H3Result : Type 0 where
  no_traces bad_request answered : H3Result
  failed : Kind → Detail → H3Result

-- The zero `quic.Config` with the two limits.
abbrev pub quic_config : ℤ → QuicConfig
quic_config timeout = record {
  max_idle_timeout = timeout;
  keep_alive_period = pos 0;
  enable_datagrams = false;
  versions = [];
  allow_0rtt = false;
  max_incoming_streams = pos 0;
  traced = false;
}

abbrev pub trip_result : Option Err → H3Result
trip_result none = answered
trip_result (some e) = let (kind, detail) = classify (some e) in failed kind detail

unfoldable pub probe_h3 : H3Env → ℤ → Bool → List ℕ → List (List ℕ) → H3Result
probe_h3 env timeout insecure qlog_dir hdrs =
    elim (configure env.makes_dir env.sets_var (quic_config timeout) qlog_dir) [
      | none ↦ no_traces
      | some conf ↦
          if env.makes_request
          then trip_result (env.round_trip conf insecure (apply_headers hdrs))
          else bad_request
    ]

abbrev pub is_answered : H3Result → Bool
is_answered no_traces = false
is_answered bad_request = false
is_answered answered = true
is_answered (failed kind text) = false

pub record World : Type 0 where
  pub fraction : List ℕ → ℕ → ℕ
  pub url_parse : List ℕ → Option (List ℕ × List ℕ)
  pub dns : Lookup
  -- As in `Network`.
  pub tls_ok : Bool
  pub response : Option (List ℕ)
  pub target_env : H3Env
  pub control_env : H3Env

-- The control endpoint gets no headers, and its certificate is always verified.
abbrev pub network : World → Options → Network
network w o = record {
  resolves = (resolve_dns w.dns).0;
  tls_ok = w.tls_ok;
  response = w.response;
  target_h3 = is_answered (probe_h3 w.target_env o.timeout o.insecure o.qlog_dir o.headers);
  control_h3 = is_answered (probe_h3 w.control_env o.timeout false o.qlog_dir []);
}

-- The program exits in the flag package, `Main` returns an error, or it reports and exits.
pub data Ended : Type 0 where
  stopped : ℕ → Ended
  no_url : Ended
  unparsed_url : Ended
  probed : Report → Ended

abbrev pub with_begun : World → Begun → Ended
with_begun w (exited code) = stopped code
with_begun w url_required = no_url
with_begun w bad_url = unparsed_url
with_begun w (begun o host port) = probed (run (not (is_empty o.control)) (network w o))

unfoldable pub main : World → List (List ℕ) → Ended
main w args = with_begun w (begin w.fraction w.url_parse args)

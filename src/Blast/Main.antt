-- ===== src/Blast/Main.antt =====
-- internal/blast/blast.go, `Main`: a run from its arguments to its verdict, with `outputWriter`,
-- `tlsConfig`, `quicConfig` and `spec`. The system and the network are arguments; the traffic is what
-- the recorder is told, in order. The 0-RTT probe only adds to the log.
pub mod Warmup
mod Tests
use quicshot.Prelude.{
  ℕ, Bool, true, false, ◌||◌, List, [], ◌∷◌, ◌++◌, Option, none, some, is_empty, if◌then◌else◌,
}
use quicshot.Prelude.Int.{ℤ, pos, ltb_ℤ}
use quicshot.Certs.{Dir, load_ca_pool}
use quicshot.Flags.{Parsed, parsed, exits}
use quicshot.Quiccfg.{QuicConfig, client, configure}
use quicshot.Blast.Config.{Config, ConfigError, validate, Loaded, loaded, load_error, load_payload}
use quicshot.Blast.Options.{Options, Floats, parse_config, config_of}
use quicshot.Blast.Recorder.{Recorder, new_recorder, reset_request_stats}
use quicshot.Blast.Recorder.Balance.{Call, record_all}
use quicshot.Blast.Recorder.Verdicts.{Refusal, verdict}
use quicshot.Blast.Spec.{ReqSpec}
use quicshot.Blast.Summary.{Texts, Ranges, summary}

pub record TlsConfig : Type 0 where
  pub server_name : List ℕ
  pub insecure : Bool
  -- The CA, `none` for the system's.
  pub root_cas : Option (List ℕ)

abbrev pub with_pool : Options → Option (List ℕ) → Option TlsConfig
with_pool o none = none
with_pool o (some pool) =
    some (record { server_name = o.server_name; insecure = o.insecure; root_cas = some pool })

-- `none` is an error. The first two arguments are those of `load_ca_pool`, the second by the path of the
-- directory.
unfoldable pub tls_config : (List ℕ → Bool) → (List ℕ → Dir) → Options → Option TlsConfig
tls_config has_cert dirs o =
    if is_empty o.cert_dir || o.insecure
    then some (record { server_name = o.server_name; insecure = o.insecure; root_cas = none })
    else with_pool o (load_ca_pool has_cert (dirs o.cert_dir))

-- The first two arguments are those of `configure`.
unfoldable pub quic_config : Bool → Bool → Options → Option QuicConfig
quic_config makes sets o = configure makes sets (client o.max_idle o.keep_alive) o.qlog_dir

-- Whether the output can be opened; the standard output always is.
unfoldable pub output_writer : Bool → Options → Bool
output_writer opens o = if is_empty o.log_path then true else opens

-- The parts of `reqSpec` that a request is built from.
unfoldable pub spec : Options → Config → ReqSpec
spec o c = record {
  method = o.method;
  body = c.body;
  content_type = o.content_type;
  headers = o.headers;
  host_hdr = o.host_hdr;
}

pub record World : Type 0 where
  pub floats : Floats
  pub is_url : List ℕ → Bool
  pub read_file : List ℕ → Option (List ℕ)
  pub opens_log : Bool
  pub has_cert : List ℕ → Bool
  pub dirs : List ℕ → Dir
  pub makes_qlog_dir : Bool
  pub sets_qlog_dir : Bool
  pub warmup : List Call
  pub measured : List Call
  pub texts : Texts
  pub ranges : Ranges

pub data Failure : Type 0 where
  bad_target no_log no_ca no_qlog : Failure
  bad_config : ConfigError → Failure

-- The program exits in the flag package, `Main` returns an error before any traffic, or it prints the
-- report and returns the verdict.
pub data Ended : Type 0 where
  exited : ℕ → Ended
  failed : Failure → Ended
  reported : List (List ℕ) → Option Refusal → Ended

-- The recorder at the end of the measured traffic.
unfoldable pub run_load : World → Options → Recorder
run_load w o =
    record_all
      (if ltb_ℤ (pos 0) o.warmup
        then reset_request_stats (record_all new_recorder w.warmup)
        else new_recorder)
      w.measured

abbrev pub report : World → Options → Recorder → Ended
report w o r =
    reported (summary w.texts w.ranges r)
      (verdict r (record { num = o.max_fail_pct.0; den = o.max_fail_pct.1 }) o.max_drops)

abbrev pub if_some {ℓ} : {A : Type ℓ} → Option A → Failure → Ended → Ended
if_some none f rest = failed f
if_some (some a) f rest = rest

abbrev pub if_ok : Bool → Failure → Ended → Ended
if_ok true f rest = rest
if_ok false f rest = failed f

abbrev pub if_valid : Option ConfigError → Ended → Ended
if_valid none rest = rest
if_valid (some e) rest = failed (bad_config e)

abbrev pub if_loaded : Loaded → Ended → Ended
if_loaded (loaded c) rest = rest
if_loaded (load_error e) rest = failed (bad_config e)

abbrev pub with_options : World → Parsed Options → Ended
with_options w (exits code) = exited code
with_options w (parsed o) = if_ok (w.is_url o.target) bad_target (
    if_valid (validate (config_of o)) (
      if_loaded (load_payload w.read_file (config_of o)) (
        if_ok (output_writer w.opens_log o) no_log (
          if_some (tls_config w.has_cert w.dirs o) no_ca (
            if_some (quic_config w.makes_qlog_dir w.sets_qlog_dir o) no_qlog
              (report w o (run_load w o)))))))

unfoldable pub main : World → List (List ℕ) → Ended
main w args = with_options w (parse_config w.floats args)

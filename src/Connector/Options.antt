-- ===== src/Connector/Options.antt =====
-- internal/connector/connector.go, `Main`, `optsOriginClient` and `Start`: from the flags of
-- `quicshot connector` to its loops. Durations are nanoseconds.
pub mod Loops
mod Tests
use quicshot.Prelude.{
  ℕ, zero, suc, ◌+◌, ◌*◌, Bool, true, false, not, String, List, [], ◌∷◌, map, Option, none, some,
  if◌then◌else◌,
}
use quicshot.Prelude.Bytes.{codes}
use quicshot.Prelude.Int.{ℤ, pos, pos_part}
use quicshot.Certs.{Dir, load_ca_pool}
use quicshot.Flags.{
  Flag, Parsed, parsed, exits, parse, string_flag, bool_flag, int_flag, duration_flag,
}
use quicshot.Quiccfg.{QuicConfig, client, configure}
use quicshot.Connector.{RunConfig, ha_loops}

pub record Options : Type 0 where
  pub edge_addr : List ℕ
  pub origin_url : List ℕ
  pub cert_dir : List ℕ
  pub server_name : List ℕ
  pub insecure : Bool
  pub max_idle : ℤ
  pub keep_alive : ℤ
  pub origin_timeout : ℤ
  pub qlog_dir : List ℕ
  pub ha : ℤ
  pub origin_reuse : Bool
  pub origin_http2 : Bool

abbrev pub seconds : ℕ → ℤ
seconds n = pos (n * 1000000000)

abbrev pub defaults : Options
defaults = record {
  edge_addr = codes "edge:7844";
  origin_url = codes "http://origin:8080";
  cert_dir = codes "/certs";
  server_name = codes "edge";
  insecure = false;
  max_idle = seconds 30;
  keep_alive = seconds 5;
  origin_timeout = seconds 100;
  qlog_dir = [];
  ha = pos 1;
  origin_reuse = true;
  origin_http2 = false;
}

-- The argument is that of `parse_duration`.
abbrev pub connector_flag_set : (List ℕ → ℕ → ℕ) → List (Flag Options)
connector_flag_set fraction =
    string_flag (codes "edge") (λ v o. record o { edge_addr = v })
    ∷ string_flag (codes "origin") (λ v o. record o { origin_url = v })
    ∷ string_flag (codes "certs") (λ v o. record o { cert_dir = v })
    ∷ string_flag (codes "server-name") (λ v o. record o { server_name = v })
    ∷ bool_flag (codes "insecure") (λ v o. record o { insecure = v })
    ∷ duration_flag fraction (codes "max-idle-timeout") (λ v o. record o { max_idle = v })
    ∷ duration_flag fraction (codes "keepalive") (λ v o. record o { keep_alive = v })
    ∷ duration_flag fraction (codes "origin-timeout") (λ v o. record o { origin_timeout = v })
    ∷ string_flag (codes "qlog-dir") (λ v o. record o { qlog_dir = v })
    ∷ int_flag (codes "ha-connections") (λ v o. record o { ha = v })
    ∷ bool_flag (codes "origin-reuse") (λ v o. record o { origin_reuse = v })
    ∷ bool_flag (codes "origin-http2") (λ v o. record o { origin_http2 = v })
    ∷ []

unfoldable pub parse_options : (List ℕ → ℕ → ℕ) → List (List ℕ) → Parsed Options
parse_options fraction args = parse (connector_flag_set fraction) none args defaults

-- The client for the origin, and its transport.
pub record OriginClient : Type 0 where
  pub timeout : ℤ
  pub max_idle_conns_per_host : ℕ
  pub idle_conn_timeout : ℤ
  pub disable_keep_alives : Bool
  pub force_attempt_http2 : Bool
  pub dial_timeout : ℤ

unfoldable pub opts_origin_client : ℤ → Bool → Bool → OriginClient
opts_origin_client timeout reuse http2 = record {
  timeout = timeout;
  max_idle_conns_per_host = 256;
  idle_conn_timeout = seconds 90;
  disable_keep_alives = not reuse;
  force_attempt_http2 = http2;
  dial_timeout = seconds 5;
}

-- The CA is `none` for the system's.
pub record TlsConfig : Type 0 where
  pub server_name : List ℕ
  pub insecure_skip_verify : Bool
  pub root_cas : Option (List ℕ)

abbrev pub with_pool : Options → Option (List ℕ) → Option TlsConfig
with_pool o none = none
with_pool o (some pool) = some (record {
  server_name = o.server_name;
  insecure_skip_verify = o.insecure;
  root_cas = some pool;
})

-- `none` is an error. The first two arguments are those of `load_ca_pool`, the second by the path of
-- the directory.
unfoldable pub tls_config : (List ℕ → Bool) → (List ℕ → Dir) → Options → Option TlsConfig
tls_config has_cert dirs o =
    if not o.insecure
    then with_pool o (load_ca_pool has_cert (dirs o.cert_dir))
    else some
        (record { server_name = o.server_name; insecure_skip_verify = o.insecure; root_cas = none })

pub record StartOpts : Type 0 where
  pub edge_addr : List ℕ
  pub origin_url : List ℕ
  pub qlog_dir : List ℕ
  pub hostname : List ℕ
  pub tls : TlsConfig
  pub idle : ℤ
  pub keep_alive : ℤ
  pub origin : Option OriginClient
  pub ha : ℤ
  pub skip_register : Bool
  pub register_delay : ℤ

-- What `Main` starts.
unfoldable pub start_opts : Options → TlsConfig → StartOpts
start_opts o tls = record {
  edge_addr = o.edge_addr;
  origin_url = o.origin_url;
  qlog_dir = o.qlog_dir;
  hostname = o.server_name;
  tls = tls;
  idle = o.max_idle;
  keep_alive = o.keep_alive;
  origin = some (opts_origin_client o.origin_timeout o.origin_reuse o.origin_http2);
  ha = o.ha;
  skip_register = false;
  register_delay = pos 0;
}

abbrev pub or_default : Option OriginClient → OriginClient
or_default none = opts_origin_client (seconds 100) true false
or_default (some c) = c

-- One loop of `Start`, with what each round of `reconnectLoop` runs with. The first argument is the
-- string with these bytes.
pub record Loop : Type 0 where
  pub edge_addr : List ℕ
  pub origin_url : List ℕ
  pub qlog_dir : List ℕ
  pub tls : TlsConfig
  pub origin : OriginClient
  pub quic : QuicConfig
  pub ping_every : ℤ
  pub run : RunConfig

unfoldable pub loop_of : (List ℕ → String) → StartOpts → ℕ → Loop
loop_of text s id = record {
  edge_addr = s.edge_addr;
  origin_url = s.origin_url;
  qlog_dir = s.qlog_dir;
  tls = s.tls;
  origin = or_default s.origin;
  quic = client s.idle s.keep_alive;
  ping_every = s.keep_alive;
  run = record {
    skip_register = s.skip_register;
    register_delay = s.register_delay;
    hostname = text s.hostname;
    ha_id = pos id;
  };
}

-- The numbers of a `for` loop from the first argument on.
abbrev pub counted : ℕ → ℕ → List ℕ
counted i zero = []
counted i (suc n) = i ∷ counted (i + 1) n

unfoldable pub start : (List ℕ → String) → StartOpts → List Loop
start text s = map (loop_of text s) (counted 0 (pos_part (ha_loops s.ha)))

pub data Begun : Type 0 where
  exited : ℕ → Begun
  no_ca : Begun
  looping : List Loop → Begun

pub record Env : Type 0 where
  pub fraction : List ℕ → ℕ → ℕ
  pub text : List ℕ → String
  pub has_cert : List ℕ → Bool
  pub dirs : List ℕ → Dir

abbrev pub if_tls : Env → Options → Option TlsConfig → Begun
if_tls env o none = no_ca
if_tls env o (some tls) = looping (start env.text (start_opts o tls))

abbrev pub with_options : Env → Parsed Options → Begun
with_options env (exits code) = exited code
with_options env (parsed o) = if_tls env o (tls_config env.has_cert env.dirs o)

unfoldable pub main : Env → List (List ℕ) → Begun
main env args = with_options env (parse_options env.fraction args)

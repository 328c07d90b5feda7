-- ===== src/Edge/Options.antt =====
-- internal/edge/edge.go, `Main` and `StartLocal` in front of `Start`: the flags of `quicshot edge` and
-- the configuration. Durations are nanoseconds.
use quicshot.Prelude.{ℕ, ◌*◌, Bool, not, ◌&&◌, List, [], ◌∷◌, ◌++◌, none}
use quicshot.Prelude.Bytes.{codes, bytes_eq}
use quicshot.Prelude.Int.{ℤ, pos}
use quicshot.Flags.{Flag, Parsed, parse, string_flag, int_flag, duration_flag}

pub record Options : Type 0 where
  pub public_addr : List ℕ
  pub tunnel_addr : List ℕ
  pub cert_dir : List ℕ
  pub origin_timeout : ℤ
  pub max_idle : ℤ
  pub keep_alive : ℤ
  pub tunnel_max_idle : ℤ
  pub tunnel_keep_alive : ℤ
  pub tunnel_lb : List ℕ
  pub recv_buf : ℤ
  pub send_buf : ℤ
  pub stats_every : ℤ
  pub qlog_dir : List ℕ

abbrev pub seconds : ℕ → ℤ
seconds n = pos (n * 1000000000)

abbrev pub defaults : Options
defaults = record {
  public_addr = codes ":8443";
  tunnel_addr = codes ":7844";
  cert_dir = codes "/certs";
  origin_timeout = seconds 10;
  max_idle = seconds 30;
  keep_alive = pos 0;
  tunnel_max_idle = seconds 30;
  tunnel_keep_alive = seconds 5;
  tunnel_lb = codes "rr";
  recv_buf = pos 0;
  send_buf = pos 0;
  stats_every = seconds 10;
  qlog_dir = [];
}

-- The argument is that of `parse_duration`.
abbrev pub edge_flag_set : (List ℕ → ℕ → ℕ) → List (Flag Options)
edge_flag_set fraction =
    string_flag (codes "addr") (λ v o. record o { public_addr = v })
    ∷ string_flag (codes "tunnel-addr") (λ v o. record o { tunnel_addr = v })
    ∷ string_flag (codes "certs") (λ v o. record o { cert_dir = v })
    ∷ duration_flag fraction (codes "origin-timeout") (λ v o. record o { origin_timeout = v })
    ∷ duration_flag fraction (codes "max-idle-timeout") (λ v o. record o { max_idle = v })
    ∷ duration_flag fraction (codes "keepalive") (λ v o. record o { keep_alive = v })
    ∷ duration_flag fraction (codes "tunnel-max-idle-timeout")
        (λ v o. record o { tunnel_max_idle = v })
    ∷ duration_flag fraction (codes "tunnel-keepalive") (λ v o. record o { tunnel_keep_alive = v })
    ∷ string_flag (codes "tunnel-lb") (λ v o. record o { tunnel_lb = v })
    ∷ int_flag (codes "udp-recv-buffer") (λ v o. record o { recv_buf = v })
    ∷ int_flag (codes "udp-send-buffer") (λ v o. record o { send_buf = v })
    ∷ duration_flag fraction (codes "stats-every") (λ v o. record o { stats_every = v })
    ∷ string_flag (codes "qlog-dir") (λ v o. record o { qlog_dir = v })
    ∷ []

unfoldable pub parse_options : (List ℕ → ℕ → ℕ) → List (List ℕ) → Parsed Options
parse_options fraction args = parse (edge_flag_set fraction) none args defaults

-- `Main` refuses every other way to choose a connector.
unfoldable pub valid_tunnel_lb : List ℕ → Bool
valid_tunnel_lb mode = not (not (bytes_eq mode (codes "rr")) && not (bytes_eq mode (codes "hash")))

-- The files of the key pair.
abbrev pub key_pair_files : List ℕ → List ℕ × List ℕ
key_pair_files dir = (dir ++ codes "/server.pem", dir ++ codes "/server.key")

-- The configuration of `StartLocal`.
unfoldable pub local_options : List ℕ → List ℕ → List ℕ → ℤ → Options
local_options cert_dir public_addr tunnel_addr origin_timeout = record {
  public_addr = public_addr;
  tunnel_addr = tunnel_addr;
  cert_dir = cert_dir;
  origin_timeout = origin_timeout;
  max_idle = seconds 30;
  keep_alive = pos 0;
  tunnel_max_idle = seconds 30;
  tunnel_keep_alive = seconds 5;
  tunnel_lb = codes "rr";
  recv_buf = pos 0;
  send_buf = pos 0;
  stats_every = pos 0;
  qlog_dir = [];
}

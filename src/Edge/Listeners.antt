-- ===== src/Edge/Listeners.antt =====
-- internal/edge/edge.go, `serveTunnel`, `servePublic`, `Start` and `Main`: what is opened and closed, and
-- how the edge ends. What the system and the servers of quic-go and net/http return is an argument.
pub mod Closed
mod Tests
use quicshot.Prelude.{
  ℕ, Bool, true, false, List, [], ◌∷◌, ◌++◌, map, Option, none, some, if◌then◌else◌,
}
use quicshot.Prelude.Bytes.{codes}
use quicshot.Prelude.Int.{ℤ, pos}
use quicshot.Flags.{Parsed, parsed, exits}
use quicshot.Quiccfg.{QuicConfig, server, configure}
use quicshot.Udpsock.Listen.{
  SocketAct, close, Listened, bad_addr, not_bound, no_read_buffer, no_write_buffer, listening,
  SocketEnv, listen,
}
use quicshot.Edge.Registry.{Edge, add_connector}
use quicshot.Edge.Options.{Options, parse_options, valid_tunnel_lb, key_pair_files}

pub record Env : Type 0 where
  -- The argument of `parse_duration`, and whether two files hold a key pair.
  pub fraction : List ℕ → ℕ → ℕ
  pub loads : List ℕ × List ℕ → Bool
  -- Of `configure`, for the tunnel and for the public side.
  pub makes_tunnel : Bool
  pub sets_tunnel : Bool
  pub makes_public : Bool
  pub sets_public : Bool
  pub tunnel_listens : Bool
  pub socket_env : SocketEnv
  -- What the select at the end of `servePublic` sees first: the end of the context, or the error of a
  -- server.
  pub ctx_first : Bool

pub data Act : Type 0 where
  -- The listener for connectors and its configuration.
  listen_tunnel : QuicConfig → Act
  udp : SocketAct → Act
  serve_h3 : QuicConfig → Act
  log_counters serve_tcp close_h3 close_tcp : Act

pub data Outcome : Type 0 where
  exited : ℕ → Outcome
  bad_tunnel_lb no_key_pair no_tunnel_traces no_public_traces not_listening server_failed : Outcome
  no_socket : Listened → Outcome
  stopped : Outcome

-- The tunnel's configuration, `none` where the traces cannot be set up.
unfoldable pub tunnel_config : Env → Options → Option QuicConfig
tunnel_config env o =
    configure env.makes_tunnel env.sets_tunnel
      (record (server o.tunnel_max_idle o.tunnel_keep_alive) { max_incoming_streams = pos 16384 })
      o.qlog_dir

-- `serveTunnel`: what it opens, and its error.
unfoldable pub serve_tunnel : Env → Options → List Act × Option Outcome
serve_tunnel env o = elim (tunnel_config env o) [
  | none ↦ ([], some no_tunnel_traces)
  | some conf ↦
      if env.tunnel_listens then (listen_tunnel conf ∷ [], none) else ([], some not_listening)
]

-- What `Accept` returns: a connection, or an error while the context lasts, or at its end.
pub data Accepted : Type 0 where
  conn : ℕ → Accepted
  failed : Accepted
  ctx_over : Accepted

-- The loop of `serveTunnel`, on the connectors that it adds.
unfoldable pub accept_loop : Edge → List Accepted → Edge
accept_loop e [] = e
accept_loop e (conn c ∷ rest) = accept_loop (add_connector e c).1 rest
accept_loop e (failed ∷ rest) = accept_loop e rest
accept_loop e (ctx_over ∷ rest) = e

-- Behind the socket: two servers, and their ends. The socket is closed by a `defer`.
abbrev pub serve_both : Env → QuicConfig → List Act × Outcome
serve_both env conf =
    if env.ctx_first
    then (serve_h3 conf ∷ serve_tcp ∷ close_h3 ∷ close_tcp ∷ udp close ∷ [], stopped)
    else (serve_h3 conf ∷ serve_tcp ∷ udp close ∷ [], server_failed)

abbrev pub if_listening : List SocketAct → Listened → List Act × Outcome → List Act × Outcome
if_listening acts listening (later, r) = (map udp acts ++ later, r)
if_listening acts bad_addr rest = (map udp acts, no_socket bad_addr)
if_listening acts not_bound rest = (map udp acts, no_socket not_bound)
if_listening acts (no_read_buffer n) rest = (map udp acts, no_socket (no_read_buffer n))
if_listening acts (no_write_buffer n) rest = (map udp acts, no_socket (no_write_buffer n))

unfoldable pub serve_public : Env → Options → List Act × Outcome
serve_public env o =
    elim (configure env.makes_public env.sets_public (server o.max_idle o.keep_alive) o.qlog_dir) [
      | none ↦ ([], no_public_traces)
      | some conf ↦
          let (acts, r) = listen env.socket_env o.recv_buf o.send_buf in
          if_listening acts r (serve_both env conf)
    ]

abbrev pub behind_tunnel : List Act × Option Outcome → List Act × Outcome → List Act × Outcome
behind_tunnel (acts, some r) rest = (acts, r)
behind_tunnel (acts, none) (later, r) = (acts ++ (log_counters ∷ later), r)

unfoldable pub start : Env → Options → List Act × Outcome
start env o = behind_tunnel (serve_tunnel env o) (serve_public env o)

abbrev pub with_options : Env → Parsed Options → List Act × Outcome
with_options env (exits code) = ([], exited code)
with_options env (parsed o) =
    if valid_tunnel_lb o.tunnel_lb
    then (if env.loads (key_pair_files o.cert_dir) then start env o else ([], no_key_pair))
    else ([], bad_tunnel_lb)

unfoldable pub main : Env → List (List ℕ) → List Act × Outcome
main env args = with_options env (parse_options env.fraction args)

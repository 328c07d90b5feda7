-- ===== src/Edge/Listeners/Closed.antt =====
-- internal/edge/edge.go: what is open when `Main` returns.
use quicshot.Prelude.{ℕ, ◌+◌, ◌-◌, ◌≡◌, refl, List, [], ◌∷◌, arith}
use quicshot.Udpsock.Listen.{bind, set_read_buffer, set_write_buffer, close, listen}
use quicshot.Quiccfg.{configure}
use quicshot.Flags.{Parsed, parsed, exits}
use quicshot.Edge.Options.{Options, parse_options}
use quicshot.Edge.Listeners.{
  Env, Act, listen_tunnel, udp, serve_h3, log_counters, serve_tcp, close_h3, close_tcp, Outcome,
  exited, bad_tunnel_lb, no_key_pair, no_tunnel_traces, no_public_traces, not_listening,
  server_failed, no_socket, stopped, tunnel_config, serve_tunnel, serve_public, start, with_options,
  main,
}

-- Sockets of the public side, servers, and listeners for connectors.
pub record Held : Type 0 where
  pub sockets : ℕ
  pub servers : ℕ
  pub tunnels : ℕ

abbrev pub nothing : Held
nothing = record { sockets = 0; servers = 0; tunnels = 0 }

abbrev pub held_after : List Act → Held → Held
held_after [] h = h
held_after (listen_tunnel conf ∷ acts) h = held_after acts (record h { tunnels = h.tunnels + 1 })
held_after (udp bind ∷ acts) h = held_after acts (record h { sockets = h.sockets + 1 })
held_after (udp (set_read_buffer n) ∷ acts) h = held_after acts h
held_after (udp (set_write_buffer n) ∷ acts) h = held_after acts h
held_after (udp close ∷ acts) h = held_after acts (record h { sockets = h.sockets - 1 })
held_after (serve_h3 conf ∷ acts) h = held_after acts (record h { servers = h.servers + 1 })
held_after (log_counters ∷ acts) h = held_after acts h
held_after (serve_tcp ∷ acts) h = held_after acts (record h { servers = h.servers + 1 })
held_after (close_h3 ∷ acts) h = held_after acts (record h { servers = h.servers - 1 })
held_after (close_tcp ∷ acts) h = held_after acts (record h { servers = h.servers - 1 })

-- What is open behind an outcome.
abbrev pub Left : Outcome → Held → Type 0
Left (exited code) h = h ≡ nothing
Left bad_tunnel_lb h = h ≡ nothing
Left no_key_pair h = h ≡ nothing
Left not_listening h = h ≡ nothing
Left no_tunnel_traces h = h ≡ nothing
Left no_public_traces h = (h.sockets ≡ 0) × (h.servers ≡ 0) × (h.tunnels ≡ 1)
Left (no_socket why) h = (h.sockets ≡ 0) × (h.servers ≡ 0) × (h.tunnels ≡ 1)
Left server_failed h = (h.sockets ≡ 0) × (h.servers ≡ 2) × (h.tunnels ≡ 1)
Left stopped h = (h.sockets ≡ 0) × (h.servers ≡ 0) × (h.tunnels ≡ 1)

start-Left :
    (env : Env) (o : Options) → let (acts, r) = start env o in Left r (held_after acts nothing)
unfolding start serve_tunnel tunnel_config serve_public configure listen
start-Left env o = ground arith

with_options-Left :
    (env : Env) (p : Parsed Options)
    → let (acts, r) = with_options env p in Left r (held_after acts nothing)
with_options-Left env (exits code) = refl
with_options-Left env (parsed o) = ground (arith, start-Left env o)

-- On every command line and whichever calls fail, the edge closes each UDP socket of the public side that
-- it opens, also where the socket's buffers cannot be set. Where it is stopped it has closed both
-- servers, and where a server fails both are left to the end of the process. The listener for
-- connectors is open behind every outcome of the public side, also where its traces or its socket fail;
-- where the command line is refused, the key pair cannot be loaded, or the tunnel's traces or its
-- listener fail, nothing is open.
pub main-Left :
    (env : Env) (args : List (List ℕ))
    → let (acts, r) = main env args in Left r (held_after acts nothing)
unfolding main
main-Left env args = with_options-Left env (parse_options env.fraction args)

-- ===== src/Edge/Listeners/Tests.antt =====
-- internal/edge/edge.go, `Main`, at concrete inputs: the buffer of the socket cannot be set.
use quicshot.Prelude.{[], ◌∷◌, true, false}
use quicshot.Prelude.Bytes.{codes}
use quicshot.Edge.Listeners.{Env, main}
use quicshot.Edge.Listeners.Closed.{Left, held_after, nothing, main-Left}

abbrev small_host : Env
small_host = record {
  fraction = λ f u. 0;
  loads = λ files. true;
  makes_tunnel = true;
  sets_tunnel = true;
  makes_public = true;
  sets_public = true;
  tunnel_listens = true;
  socket_env = record { resolves = true; binds = true; sets_read = false; sets_write = true };
  ctx_first = true;
}

main-Left_example :
    let (acts, r) =
      main small_host (codes "-udp-recv-buffer=4096" ∷ codes "-tunnel-lb=hash" ∷ []) in
    Left r (held_after acts nothing)
main-Left_example =
    main-Left small_host (codes "-udp-recv-buffer=4096" ∷ codes "-tunnel-lb=hash" ∷ [])

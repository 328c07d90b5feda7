-- ===== src/Edge/Tests.antt =====
-- internal/edge/edge.go at concrete inputs: an edge with a registered connector that has been heard of,
-- one that has not registered, and one that registered and was not heard of since.
use quicshot.Prelude.{
  ltb, if◌then◌else◌, ℕ, ◌<◌, ◌≡◌, ◌↔◌, ◌⊎◌, refl, Bool, true, false, List, [], ◌∷◌, Option, none,
  some, arith,
}
use quicshot.Prelude.Bytes.{codes}
use quicshot.Prelude.Int.{pos, ◌*ℤ◌}
use quicshot.Prelude.Members.{Member}
use quicshot.Quicerr.{Link, Err, deadline_link, plain_link}
use quicshot.Edge.Balance.Rotation.{turns, turns_fair, count}
use quicshot.Edge.Registry.{
  Edge, ConnectorRef, Control, register, ping, unregister, read_failed, add_connector, watch_lost,
  serve_control, live, count_live, stale_after, registered_locked, pick_connector,
}
use quicshot.Edge.Registry.Ids.{IsValid}
use quicshot.Edge.Registry.Lifecycle.{find_ref, Served, serve_control-Served}
use quicshot.Edge.Registry.Choice.{pick_connector-some}
use quicshot.Edge.Startup.{wait_registered, done}
use quicshot.Edge.Startup.Waiting.{wait_registered_live}
use quicshot.Edge.Registry.Spec.{table_of, spec_run, reachable-spec}
use quicshot.Edge.Registry.Traces.{Reach, start, here, next, connect, lose, reachable-IsValid}
use quicshot.Edge.Proxy.{Exchange, read_err, forward, serve_http, no_tunnel, no_connector}
use quicshot.Edge.Proxy.Errors.{
  OriginFailed, LooksLikeTimeout, is_cf_error, forward_524, serve_http_total,
}

abbrev heard_of : ConnectorRef
heard_of = record {
  id = 1;
  conn = 10;
  registered = true;
  last_ping = some 1000;
  hostname = "edge";
  ha_id = pos 0;
}

abbrev unknown_yet : ConnectorRef
unknown_yet = record heard_of { id = 2; conn = 11; registered = false; last_ping = none }

abbrev silent_since : ConnectorRef
silent_since = record heard_of { id = 3; conn = 12; last_ping = none }

abbrev three_connectors : Edge
three_connectors = record {
  tunnel_keep_alive = pos 5000000000;
  tunnel_lb = "rr";
  connectors = heard_of ∷ unknown_yet ∷ silent_since ∷ [];
  rr = 7;
  next_connector_id = 3;
}

three_connectors-IsValid : IsValid three_connectors
three_connectors-IsValid = record {
  ids = (omega arith, (omega arith, (omega arith, omega arith)));
  conns = ((λ p. omega arith, (λ p. omega arith, tt)), ((λ p. omega arith, tt), (tt, tt)));
}

abbrev no_timeout : Link → Option Bool
no_timeout l = none

abbrev late : Err
late = record { text = codes "context deadline exceeded"; chain = deadline_link ∷ [] }

abbrev timed_out : Exchange
timed_out = record {
  open_err = none;
  gone_at_open = false;
  write_err = none;
  read = read_err late;
  gone_at_read = false;
  deadline_passed = false;
  copied = 0;
  copy_err = none;
}

-- The stream could not be opened, for a reason that is no timeout.
abbrev unopened : Exchange
unopened = record timed_out {
  open_err = some (record { text = codes "boom"; chain = plain_link ∷ [] });
}

abbrev three_paths : List (List ℕ)
three_paths = codes "/fast" ∷ codes "/fast" ∷ codes "/slow" ∷ []

turns_fair_example : count 1 (turns 3 "rr" three_paths 7) ≡ 1
turns_fair_example = turns_fair 3 1 "rr" three_paths 7 (omega arith) (λ h. cc) refl (omega arith)

abbrev one_left : Edge
one_left = watch_lost (add_connector (add_connector (start (pos 5) "rr") 10).1 11).1 10

-- Two connectors come and the first goes.
abbrev came_and_went : Reach (start (pos 5) "rr") one_left
unfolding add_connector
came_and_went =
    next
      (next (next here (connect 10 tt (omega arith)))
        (connect 11 (λ p. omega arith, tt) (omega arith)))
      (lose 10)

reachable-IsValid_example : IsValid one_left
reachable-IsValid_example = reachable-IsValid (pos 5) "rr" came_and_went

reachable-spec_example : table_of one_left 2 ≡ spec_run came_and_went (λ k. none) 2
reachable-spec_example = reachable-spec (pos 5) "rr" came_and_went 2

abbrev spoken : List (ℕ × Control)
spoken =
    (2000, register "edge" (pos 1))
    ∷ (3000, ping)
    ∷ (4000, unregister)
    ∷ (5000, read_failed)
    ∷ (6000, ping)
    ∷ []

serve_control-Served_example :
    Served unknown_yet spoken (find_ref 2 (serve_control three_connectors 2 spoken).connectors)
unfolding find_ref
serve_control-Served_example = serve_control-Served three_connectors 2 spoken unknown_yet refl

pick_connector-some_example :
    (c : ConnectorRef) × ((pick_connector three_connectors (codes "/") 2000).0 ≡ some c)
    × Member c three_connectors.connectors
    × (live c 2000 (stale_after three_connectors) ≡ true)
    × ((pick_connector three_connectors (codes "/") 2000).1.connectors
        ≡ three_connectors.connectors)
    × ((pick_connector three_connectors (codes "/") 2000).1.next_connector_id ≡ 3)
unfolding registered_locked count_live live stale_after ◌*ℤ◌
pick_connector-some_example =
    pick_connector-some three_connectors (codes "/") 2000 (omega arith) (ground arith)

forward_524_example :
    (is_cf_error 524 524 (forward no_timeout timed_out).0 ≡ true)
    ↔ ((err : Err) × OriginFailed timed_out err × LooksLikeTimeout no_timeout timed_out err)
forward_524_example = forward_524 no_timeout timed_out

serve_http_total_example :
    ((registered_locked three_connectors 2000 ≡ 0)
      × (serve_http no_timeout three_connectors (codes "/") 2000 timed_out
          ≡ (three_connectors, none, no_tunnel, no_connector)))
    ⊎ ((0 < registered_locked three_connectors 2000)
        × ((c : ConnectorRef) × ((pick_connector three_connectors (codes "/") 2000).0 ≡ some c)
            × (serve_http no_timeout three_connectors (codes "/") 2000 timed_out ≡ (
              (pick_connector three_connectors (codes "/") 2000).1,
              some c,
              (forward no_timeout timed_out).0,
              (forward no_timeout timed_out).1,
            ))))
serve_http_total_example =
    serve_http_total no_timeout three_connectors (codes "/") 2000 timed_out (omega arith)

-- A table in which a connector has registered by the third look.
abbrev looks : ℕ → Edge
looks i = if ltb i 2 then start (pos 5) "rr" else three_connectors

wait_registered_live_example : wait_registered 3 looks (λ i. 2000) (λ i. false) 1 0 ≡ done
unfolding registered_locked count_live live stale_after ◌*ℤ◌
wait_registered_live_example =
    wait_registered_live 2 looks (λ i. 2000) (λ i. false) 1 (ground arith) (λ j h. refl)

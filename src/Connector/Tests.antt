-- ===== src/Connector/Tests.antt =====
-- internal/connector/connector.go at concrete inputs.
use quicshot.Prelude.{◌+◌, ◌*◌, ◌<◌, ◌≡◌, ◌↔◌, ◌⊎◌, refl, true, false, List, [], ◌∷◌, none, some}
use quicshot.Prelude.Int.{pos, ◌≤ℤ◌}
use quicshot.Edge.Registry.{Edge, ConnectorRef, live, stale_after, serve_control}
use quicshot.Edge.Registry.Lifecycle.{find_ref}
use quicshot.Connector.{
  RunConfig, Round, ended_waiting, waited, reconnect_loop, control_msgs, next_backoff,
}
use quicshot.Connector.Backoff.{wait_at, reconnect_loop_lem}
use quicshot.Connector.Session.{heard_at, session_live}

abbrev five_rounds : List Round
five_rounds = waited ∷ waited ∷ waited ∷ waited ∷ ended_waiting ∷ []

reconnect_loop_lem_example : 8000000000 ≡ wait_at 4
unfolding reconnect_loop next_backoff
reconnect_loop_lem_example = reconnect_loop_lem five_rounds 4 8000000000 refl

abbrev just_connected : ConnectorRef
just_connected = record {
  id = 1;
  conn = 10;
  registered = false;
  last_ping = none;
  hostname = "";
  ha_id = pos 0;
}

abbrev one_connector : Edge
one_connector = record {
  tunnel_keep_alive = pos 5;
  tunnel_lb = "rr";
  connectors = just_connected ∷ [];
  rr = 0;
  next_connector_id = 1;
}

abbrev defaults : RunConfig
defaults = record {
  skip_register = false;
  register_delay = pos 0;
  hostname = "edge";
  ha_id = pos 0;
}

session_live_example :
    (d : ConnectorRef) × (find_ref 1
        (serve_control one_connector 1 (
          heard_at
            (100 ∷ 105 ∷ 110 ∷ 200 ∷ [])
            (control_msgs defaults (105 ∷ 110 ∷ []) false))).connectors
      ≡ some d)
    × ((live d 124 (stale_after one_connector) ≡ true)
        ↔ ((false ≡ false) × ((pos 5 ≤ℤ pos 0) ⊎ (124 < 110 + 3 * 5))))
unfolding find_ref
session_live_example =
    session_live one_connector 1 just_connected defaults 100 (105 ∷ 110 ∷ []) 200 false 124 refl

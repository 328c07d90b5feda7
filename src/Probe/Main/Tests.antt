-- ===== src/Probe/Main/Tests.antt =====
-- internal/probe/probe.go, `Main`: a server that answers over HTTP/3, with no control endpoint.
use quicshot.Prelude.{ℕ, List, [], ◌∷◌, none, some, true, false}
use quicshot.Prelude.Bytes.{codes}
use quicshot.Probe.{Report, run}
use quicshot.Probe.Options.{Options, defaults}
use quicshot.Probe.Main.{H3Env, addrs, World, network}

abbrev works_here : H3Env
works_here = record {
  makes_dir = true;
  sets_var = true;
  makes_request = true;
  round_trip = λ conf insecure fields. none;
}

abbrev open_net : World
open_net = record {
  fraction = λ f u. 0;
  url_parse = λ u. some (codes "app", []);
  dns = addrs (codes "192.0.2.1" ∷ []);
  tls_ok = true;
  response = some [];
  target_env = works_here;
  control_env = works_here;
}

abbrev asked : List (List ℕ)
asked = codes "-url=https://app/" ∷ codes "-control=" ∷ []

abbrev chosen : Options
chosen = record defaults { target = codes "https://app/"; control = [] }

abbrev report : Report
report = run false (network open_net chosen)

-- ===== src/Probe/Options/Tests.antt =====
-- internal/probe/probe.go and internal/ui/ui.go: a probe of the demo, with the panel's defaults.
use quicshot.Prelude.{◌≡◌, refl, ℕ, true, false, List, [], ◌∷◌}
use quicshot.Prelude.Bytes.{codes}
use quicshot.Prelude.Int.{pos}
use quicshot.Flags.{exits}
use quicshot.Probe.Options.{parse_options}
use quicshot.Probe.Options.Panel.{parse_options-build_run_args}
use quicshot.Ui.Commands.{ok}
use quicshot.Ui.Commands.Run.{RunReq, build_run_args}

abbrev demo_probe : RunReq
demo_probe = record {
  tool = codes "probe";
  runner = codes "docker";
  url = codes "https://edge:8443/fast";
  conns = pos 4;
  workers = pos 8;
  duration = [];
  timeout = [];
  keep_alive = [];
  max_idle = [];
  rps_num = pos 0;
  rps_den = 1;
  read_body = true;
  insecure = false;
  local_certs = true;
  headers = [];
  mode = [];
  warmup = [];
  max_inflight = pos 0;
  method = [];
  body = [];
  urls = [];
  probe_0rtt = false;
}

parse_options-build_run_args_example :
    (fs : List (List ℕ)) × (build_run_args
        (λ n d. codes "0")
        demo_probe
        (codes "https://edge:8443/fast")
      ≡ ok (codes "probe" ∷ fs))
    × (parse_options (λ f u. 0) fs ≡ exits 2)
parse_options-build_run_args_example =
    parse_options-build_run_args (λ f u. 0) (λ n d. codes "0") demo_probe
      (codes "https://edge:8443/fast") refl

-- ===== src/Blast/Options/Tests.antt =====
-- internal/blast/blast.go and internal/ui/ui.go: a run of the panel on concrete numbers.
use quicshot.Prelude.{◌≡◌, ◌↔◌, ◌⊎◌, refl, ℕ, true, false, List, [], ◌∷◌, none, some, ◌<◌, arith}
use quicshot.Prelude.Bytes.{codes, bytes_eq}
use quicshot.Prelude.Int.{pos, ◌≤ℤ◌}
use quicshot.Flags.{parsed}
use quicshot.Flags.Durations.{two_63}
use quicshot.Flags.Whole.{duration_value}
use quicshot.Blast.CfCode.{decimal, leading_digits, digits_value}
use quicshot.Blast.Config.{validate}
use quicshot.Blast.Options.{Floats, parse_config, config_of}
use quicshot.Blast.Options.Wanted.{wanted}
use quicshot.Blast.Options.Panel.{parse_config-build_run_args}
use quicshot.Ui.Commands.{
  ok, skip_digits, is_numbered, is_duration, skip_zeros, zero_duration, clamp,
}
use quicshot.Ui.Commands.Run.{
  RunReq, build_run_args, blast_flags, duration_flags, warmup_flag, optional_blast_flags, flags_of,
  load_flags, common_flags, header_flags,
}

-- The demo: open loop against the edge in its container, 50 requests per second.
abbrev demo : RunReq
demo = record {
  tool = codes "blast";
  runner = codes "docker";
  url = codes "https://edge:8443/fast";
  conns = pos 2;
  workers = pos 1000;
  duration = codes "90s";
  timeout = codes "500ms";
  keep_alive = [];
  max_idle = codes "1m";
  rps_num = pos 50;
  rps_den = 1;
  read_body = false;
  insecure = false;
  local_certs = true;
  headers = codes "X-Run: 1" ∷ [] ∷ [];
  mode = codes "open";
  warmup = codes "0s";
  max_inflight = pos 64;
  method = codes "get";
  body = [];
  urls = [];
  probe_0rtt = true;
}

abbrev floats : Floats
floats = record { fraction = λ f u. 0; parse_float = λ v. some (pos 50, 1) }

abbrev demo_flags : List (List ℕ)
demo_flags =
    codes "-url=https://edge:8443/fast"
    ∷ codes "-header=X-Run: 1"
    ∷ codes "-certs=/certs"
    ∷ codes "-server-name=edge"
    ∷ codes "-duration=90s"
    ∷ codes "-timeout=500ms"
    ∷ codes "-max-idle-timeout=1m"
    ∷ codes "-conns=2"
    ∷ codes "-workers=256"
    ∷ codes "-stats-every=5s"
    ∷ codes "-read-body=false"
    ∷ codes "-rps=50"
    ∷ codes "-mode=open"
    ∷ codes "-max-inflight=64"
    ∷ codes "-probe-0rtt"
    ∷ []

demo-args :
    build_run_args (λ n d. codes "50") demo (codes "https://edge:8443/fast")
    ≡ ok (codes "blast" ∷ demo_flags)
unfolding build_run_args blast_flags duration_flags warmup_flag optional_blast_flags flags_of
    load_flags common_flags header_flags is_duration is_numbered bytes_eq skip_digits zero_duration
    clamp decimal skip_zeros
demo-args = refl

abbrev InTime : List ℕ → Type 0
InTime s = duration_value s < two_63

demo-InTime :
    InTime demo.duration
    × InTime demo.timeout
    × InTime demo.keep_alive
    × InTime demo.max_idle
    × InTime demo.warmup
unfolding duration_value leading_digits skip_digits digits_value bytes_eq
demo-InTime = (omega arith, omega arith, omega arith, omega arith, omega arith)

parse_config-build_run_args_example :
    ((fs : List (List ℕ)) × (codes "blast" ∷ demo_flags ≡ codes "blast" ∷ fs)
      × (parse_config floats fs ≡ parsed (wanted demo (codes "https://edge:8443/fast"))))
    × ((validate (config_of (wanted demo (codes "https://edge:8443/fast"))) ≡ none)
        ↔ ((bytes_eq (codes "open") (codes "open") ≡ false) ⊎ (pos 1 ≤ℤ pos 50)))
parse_config-build_run_args_example =
    parse_config-build_run_args floats (λ n d. codes "50") demo (codes "https://edge:8443/fast")
      (codes "blast" ∷ demo_flags) refl demo-InTime.0 demo-InTime.1 demo-InTime.2 demo-InTime.3
      demo-InTime.4 refl demo-args

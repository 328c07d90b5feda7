-- ===== src/Ui/Commands/Tests.antt =====
-- internal/ui/ui.go, the API handlers, on concrete requests.
use quicshot.Prelude.{ℕ, ◌≡◌, refl, true, false, List, [], ◌∷◌}
use quicshot.Prelude.Bytes.{codes, bytes_eq}
use quicshot.Prelude.Int.{ℤ, pos}
use quicshot.Blast.CfCode.{decimal}
use quicshot.Ui.Commands.{
  ok, skip_digits, is_numbered, is_duration, zero_duration, skip_zeros, clamp,
}
use quicshot.Ui.Commands.Stack.{
  StackReq, edge_max_idle, edge_keepalive, stack_command, duration_env, lb_env, stack_args,
  scale_args,
}
use quicshot.Ui.Commands.Impair.{ImpairReq}
use quicshot.Ui.Commands.Run.{
  RunReq, build_run_args, blast_flags, duration_flags, warmup_flag, optional_blast_flags, flags_of,
  load_flags, common_flags, header_flags,
}

abbrev scale_up : StackReq
scale_up = record {
  action = codes "scale-connectors";
  origin_timeout = [];
  max_idle = codes "30s";
  keep_alive = [];
  tunnel_max_idle = [];
  tunnel_keep_alive = [];
  tunnel_lb = codes "hash";
  connectors = pos 3;
}

abbrev scale_env : List (List ℕ)
scale_env = codes "EDGE_MAX_IDLE=30s" ∷ codes "EDGE_TUNNEL_LB=hash" ∷ []

stack_command-scale_up :
    stack_command (edge_keepalive ∷ edge_max_idle ∷ []) scale_up
    ≡ ok (scale_env, scale_args (codes "3"))
unfolding stack_command duration_env is_duration is_numbered bytes_eq skip_digits lb_env stack_args
    decimal
stack_command-scale_up = refl

abbrev slow_edge : ImpairReq
slow_edge = record {
  service = codes "edge";
  mode = codes "delay";
  a = codes "12.5ms";
  b = [];
  burst = [];
}

-- More connections than are allowed, and a header that could pass for something else.
abbrev big_run : RunReq
big_run = record {
  tool = codes "blast";
  runner = codes "host";
  url = codes "https://edge/";
  conns = pos 1000;
  workers = pos 8;
  duration = codes "30s";
  timeout = [];
  keep_alive = [];
  max_idle = [];
  rps_num = pos 0;
  rps_den = 1;
  read_body = true;
  insecure = true;
  local_certs = false;
  headers = codes "a: b" ∷ [];
  mode = codes "closed";
  warmup = codes "0s";
  max_inflight = pos 0;
  method = codes "get";
  body = [];
  urls = [];
  probe_0rtt = false;
}

abbrev no_float : ℤ → ℕ → List ℕ
no_float n d = []

abbrev big_flags : List (List ℕ)
big_flags =
    codes "-duration=30s"
    ∷ codes "-conns=64"
    ∷ codes "-workers=8"
    ∷ codes "-stats-every=5s"
    ∷ codes "-read-body=true"
    ∷ []

blast_flags-big_run : blast_flags no_float big_run ≡ ok big_flags
unfolding blast_flags duration_flags is_duration is_numbered bytes_eq skip_digits warmup_flag
    zero_duration skip_zeros load_flags decimal optional_blast_flags clamp flags_of
blast_flags-big_run = refl

abbrev big_args : List (List ℕ)
big_args =
    codes "blast"
    ∷ codes "-url=https://edge/"
    ∷ codes "-header=a: b"
    ∷ codes "-insecure"
    ∷ big_flags

build_run_args-big_run : build_run_args no_float big_run (codes "https://edge/") ≡ ok big_args
unfolding build_run_args blast_flags bytes_eq duration_flags is_duration is_numbered skip_digits
    warmup_flag zero_duration skip_zeros common_flags header_flags load_flags decimal
    optional_blast_flags clamp flags_of
build_run_args-big_run = refl

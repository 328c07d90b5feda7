-- ===== src/Ui/Commands/Stack.antt =====
-- internal/ui/ui.go, `stackCommand`: the environment and the arguments of `docker compose`.
pub mod Safe
use quicshot.Prelude.{is_empty, ℕ, ◌||◌, ◌&&◌, List, [], ◌∷◌, ◌++◌, if◌then◌else◌}
use quicshot.Prelude.Bytes.{codes, bytes_eq}
use quicshot.Prelude.Int.{ℤ, pos, pos_part, ltb_ℤ}
use quicshot.Blast.CfCode.{decimal}
use quicshot.Ui.Commands.{
  with_arg, CommandError, bad_duration, bad_lb, bad_connectors, unknown_action, Checked, ok,
  refused, is_duration,
}

pub record StackReq : Type 0 where
  pub action : List ℕ
  pub origin_timeout : List ℕ
  pub max_idle : List ℕ
  pub keep_alive : List ℕ
  pub tunnel_max_idle : List ℕ
  pub tunnel_keep_alive : List ℕ
  pub tunnel_lb : List ℕ
  pub connectors : ℤ

-- The keys of the map that the source ranges over.
pub data EnvVar : Type 0 where
  edge_origin_timeout edge_max_idle edge_keepalive edge_tunnel_max_idle : EnvVar
  edge_tunnel_keepalive : EnvVar

abbrev pub env_key : EnvVar → List ℕ
env_key edge_origin_timeout = codes "EDGE_ORIGIN_TIMEOUT"
env_key edge_max_idle = codes "EDGE_MAX_IDLE"
env_key edge_keepalive = codes "EDGE_KEEPALIVE"
env_key edge_tunnel_max_idle = codes "EDGE_TUNNEL_MAX_IDLE"
env_key edge_tunnel_keepalive = codes "EDGE_TUNNEL_KEEPALIVE"

abbrev pub env_value : StackReq → EnvVar → List ℕ
env_value req edge_origin_timeout = req.origin_timeout
env_value req edge_max_idle = req.max_idle
env_value req edge_keepalive = req.keep_alive
env_value req edge_tunnel_max_idle = req.tunnel_max_idle
env_value req edge_tunnel_keepalive = req.tunnel_keep_alive

abbrev pub setting : List ℕ → List ℕ → List ℕ
setting key value = key ++ (b'=' ∷ value)

-- The loop over the map, in the order in which the keys come.
unfoldable pub duration_env : StackReq → List EnvVar → Checked (List (List ℕ))
duration_env req [] = ok []
duration_env req (k ∷ ks) =
    let rest = duration_env req ks in
    let v = env_value req k in
    if is_empty v
    then rest
    else if is_duration v
    then with_arg (setting (env_key k) v) rest
    else refused (bad_duration (env_key k))

unfoldable pub lb_env : StackReq → Checked (List (List ℕ))
lb_env req =
    if is_empty req.tunnel_lb
    then ok []
    else if bytes_eq req.tunnel_lb (codes "rr") || bytes_eq req.tunnel_lb (codes "hash")
    then ok (setting (codes "EDGE_TUNNEL_LB") req.tunnel_lb ∷ [])
    else refused bad_lb

abbrev pub scale_args : List ℕ → List (List ℕ)
scale_args n =
    codes "compose"
    ∷ codes "up"
    ∷ codes "-d"
    ∷ codes "--scale"
    ∷ (codes "connector=" ++ n)
    ∷ codes "connector"
    ∷ []

unfoldable pub stack_args : StackReq → Checked (List (List ℕ))
stack_args req =
    if bytes_eq req.action (codes "up")
    then ok (
        codes "compose"
        ∷ codes "up"
        ∷ codes "-d"
        ∷ codes "--build"
        ∷ codes "origin"
        ∷ codes "edge"
        ∷ codes "connector"
        ∷ [])
    else if bytes_eq req.action (codes "down")
    then ok (codes "compose" ∷ codes "down" ∷ [])
    else if bytes_eq req.action (codes "restart-edge")
    then ok
        (codes "compose" ∷ codes "up" ∷ codes "-d" ∷ codes "--force-recreate" ∷ codes "edge" ∷ [])
    else if bytes_eq req.action (codes "scale-connectors")
    then (if ltb_ℤ req.connectors (pos 0) || ltb_ℤ (pos 10) req.connectors
        then refused bad_connectors
        else ok (scale_args (decimal (pos_part req.connectors))))
    else if bytes_eq req.action (codes "stop-connector")
    then ok (codes "compose" ∷ codes "stop" ∷ codes "connector" ∷ [])
    else if bytes_eq req.action (codes "start-connector")
    then ok (scale_args (codes "1"))
    else refused unknown_action

-- The environment and the arguments, put together, or the first refusal.
abbrev pub all_parts :
    Checked (List (List ℕ))
    → Checked (List (List ℕ))
    → Checked (List (List ℕ))
    → Checked (List (List ℕ) × List (List ℕ))
all_parts (refused why) lb args = refused why
all_parts (ok env) (refused why) args = refused why
all_parts (ok env) (ok more) (refused why) = refused why
all_parts (ok env) (ok more) (ok args) = ok (env ++ more, args)

-- `order` is the order in which the map is ranged over.
unfoldable pub stack_command : List EnvVar → StackReq → Checked (List (List ℕ) × List (List ℕ))
stack_command order req = all_parts (duration_env req order) (lb_env req) (stack_args req)

-- ===== src/Connector.antt =====
-- internal/connector/connector.go: the connector's side of the tunnel. Times are nanoseconds. Each call
-- that can fail contributes its outcome as an argument.
pub mod Backoff
pub mod Session
pub mod Options
mod Tests
use quicshot.Prelude.{
  ℕ, ◌+◌, ◌*◌, Bool, true, false, String, List, [], ◌∷◌, ◌++◌, map, Option, none, some, ltb, str_eq,
  if◌then◌else◌,
}
use quicshot.Prelude.Int.{ℤ, pos, pos_part, ltb_ℤ, leb_ℤ}
use quicshot.Quicerr.{Err}
use quicshot.Tunnelproto.{Msg}

-- The number of loops that `Start` runs.
unfoldable pub ha_loops : ℤ → ℤ
ha_loops ha = if ltb_ℤ ha (pos 1) then pos 1 else ha

abbrev pub first_backoff : ℕ
first_backoff = 500000000

unfoldable pub next_backoff : ℕ → ℕ
next_backoff b = if ltb b 10000000000 then b * 2 else b

-- One round of `reconnectLoop`: the context ended while `runOnce` ran, or while the loop waited, or
-- the wait was over.
pub data Round : Type 0 where
  ended_running : Round
  ended_waiting : Round
  waited : Round

-- The back-offs that the loop announces, round by round. No further round means that the context has
-- ended at the top of the loop.
unfoldable pub reconnect_loop : ℕ → List Round → List ℕ
reconnect_loop b [] = []
reconnect_loop b (ended_running ∷ rounds) = []
reconnect_loop b (ended_waiting ∷ rounds) = b ∷ []
reconnect_loop b (waited ∷ rounds) = b ∷ reconnect_loop (next_backoff b) rounds

pub record RunConfig : Type 0 where
  pub skip_register : Bool
  pub register_delay : ℤ
  pub hostname : String
  pub ha_id : ℤ

-- What the calls of `runOnce` return. `stopped` is the end of the context during the delay.
pub record Dialing : Type 0 where
  pub configure_err : Option Err
  pub dial_err : Option Err
  pub stopped : Option Err
  pub open_err : Option Err
  pub write_err : Option Err
  pub accept_err : Err  -- the error that ends the loop over the streams

-- At which call `runOnce` returned, with the error.
pub data Ended : Type 0 where
  not_configured not_dialed stopped_early no_control not_registered : Err → Ended
  no_more_streams : Err → Ended

abbrev pub or_local : String → String
or_local host = if str_eq host "" then "local" else host

-- The first message of the control stream.
unfoldable pub register_msg : RunConfig → Msg
register_msg cfg = record {
  t = "register";
  hostname = or_local cfg.hostname;
  ha_id = cfg.ha_id;
  reason = "";
}

abbrev pub ping_msg : Msg
ping_msg = record { t = "ping"; hostname = ""; ha_id = pos 0; reason = "" }

abbrev pub unregister_msg : Msg
unregister_msg = record { t = "unregister"; hostname = ""; ha_id = pos 0; reason = "shutdown" }

-- The registration: whether the control stream has been opened and `register` written on it.
unfoldable pub register_outcome : Dialing → RunConfig → Bool × Ended
register_outcome d cfg = elim d.open_err [
  | some e ↦ (false, no_control e)
  | none ↦ elim d.write_err [
    | some e ↦ (false, not_registered e)
    | none ↦ (true, no_more_streams d.accept_err)
  ]
]

unfoldable pub delayed_outcome : Dialing → RunConfig → Bool × Ended
delayed_outcome d cfg =
    if ltb_ℤ (pos 0) cfg.register_delay
    then elim d.stopped [ some e ↦ (false, stopped_early e) | none ↦ register_outcome d cfg ]
    else register_outcome d cfg

-- `runOnce`: whether it registered, and how it ended.
unfoldable pub run_once : Dialing → RunConfig → Bool × Ended
run_once d cfg = elim d.configure_err [
  | some e ↦ (false, not_configured e)
  | none ↦ elim d.dial_err [
    | some e ↦ (false, not_dialed e)
    | none ↦
        if cfg.skip_register then (false, no_more_streams d.accept_err) else delayed_outcome d cfg
  ]
]

-- The period of `pingLoop`.
unfoldable pub ping_period : ℤ → ℕ
ping_period every = if leb_ℤ every (pos 0) then 5000000000 else pos_part every

-- The control stream of a connector that registered: the messages of `pingLoop` behind the first one,
-- and the one of the shutdown.
unfoldable pub control_msgs : RunConfig → List ℕ → Bool → List Msg
control_msgs cfg pings shut_down =
    register_msg cfg
    ∷ (map (λ t. ping_msg) pings ++ (if shut_down then unregister_msg ∷ [] else []))

-- What the calls of `serveStream` return, and what becomes of the stream.
pub record Origin : Type 0 where
  pub read_err : Option Err
  pub build_err : Option Err
  pub do_err : Option Err
  pub ctx_err : Option Err  -- of the request's context, after a failed call
  pub write_err : Option Err

pub data Outcome : Type 0 where
  unreadable bad_request abandoned reset write_failed served : Outcome

abbrev pub is_none : Option Err → Bool
is_none none = true
is_none (some e) = false

unfoldable pub reset_tunnel_on_origin_error : Option Err → Option Err → Bool
reset_tunnel_on_origin_error none ctx_err = false
reset_tunnel_on_origin_error (some e) ctx_err = is_none ctx_err

abbrev pub response_outcome : Origin → Outcome
response_outcome o = elim o.write_err [ some e ↦ write_failed | none ↦ served ]

unfoldable pub serve_stream : Origin → Outcome
serve_stream o = elim o.read_err [
  | some e ↦ unreadable
  | none ↦ elim o.build_err [
    | some e ↦ bad_request
    | none ↦ elim o.do_err [
      | some e ↦ if reset_tunnel_on_origin_error (some e) o.ctx_err then reset else abandoned
      | none ↦ response_outcome o
    ]
  ]
]

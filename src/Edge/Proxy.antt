-- ===== src/Edge/Proxy.antt =====
-- internal/edge/edge.go, `ServeHTTP`: what one request of the public side becomes. What the network
-- and the clock contribute is the argument `Exchange`, one field for each call that can fail. Each
-- field is the outcome of its call if the handler makes it.
pub mod Errors
use quicshot.Prelude.{ℕ, Bool, true, false, ◌||◌, String, List, Option, none, some, if◌then◌else◌}
use quicshot.Quicerr.{
  Kind, Link, net_link, deadline_link, Err, first_of_type, any_link, deadline_here, times_out,
  classify,
}
use quicshot.Edge.Registry.{Edge, ConnectorRef, pick_connector}

-- `http.Response` up to its body.
pub record Response : Type 0 where
  pub status : ℕ
  pub header : List (String × String)

pub data ReadResult : Type 0 where
  read_ok : Response → ReadResult
  read_err : Err → ReadResult

pub record Exchange : Type 0 where
  pub open_err : Option Err
  pub gone_at_open : Bool  -- `clientGone(r)` when the stream could not be opened
  pub write_err : Option Err
  pub read : ReadResult
  pub gone_at_read : Bool  -- `clientGone(r)` when the response could not be read
  pub deadline_passed : Bool  -- `errors.Is(ctx.Err(), context.DeadlineExceeded)` at that point
  pub copied : ℕ  -- the bytes that `io.Copy` moved
  pub copy_err : Option Err

-- What the client receives, besides the `cf-ray` and `server` headers.
pub data Reply : Type 0 where
  silent : Reply
  cf_error : ℕ → ℕ → String → Reply
  proxied : Response → ℕ → Bool → Reply  -- the bytes of the body, and whether it is whole

-- The log line that the handler ends with, with the attributes that the rig reads.
pub data Log : Type 0 where
  no_connector : Log
  gone_before_stream : Log
  open_failed : Kind → Log
  write_failed : Kind → Log
  gone_before_response : Log
  origin_failure : ℕ → ℕ → Kind → Log
  interrupted : ℕ → ℕ → Kind → Log
  served : ℕ → ℕ → Log

abbrev pub status_bad_gateway : ℕ
status_bad_gateway = 502

abbrev pub status_origin_timeout : ℕ
status_origin_timeout = 524

-- Which links have a `Timeout` method, and what it returns. For the types of quic-go that is an
-- argument; those of the standard library are given here.
abbrev pub link_timeout : (Link → Option Bool) → Link → Option Bool
link_timeout quic_timeout (net_link b) = some b
link_timeout quic_timeout deadline_link = some true
link_timeout quic_timeout l = quic_timeout l

unfoldable pub is_timeout : (Link → Option Bool) → Err → Bool
is_timeout quic_timeout e = times_out (first_of_type (link_timeout quic_timeout) e.chain)

-- Status, Cloudflare code and label.
unfoldable pub classify_origin_failure : (Link → Option Bool) → Err → Bool → ℕ × ℕ × String
classify_origin_failure quic_timeout e deadline_passed =
    if deadline_passed || (any_link deadline_here e.chain || is_timeout quic_timeout e)
    then (status_origin_timeout, 524, "origin did not respond in time")
    else (status_bad_gateway, 1014, "origin connection error")

unfoldable pub copy_response : Exchange → Response → Reply × Log
copy_response x resp = elim x.copy_err [
  | some err ↦
      (proxied resp x.copied false, interrupted resp.status x.copied (classify (some err)).0)
  | none ↦ (proxied resp x.copied true, served resp.status x.copied)
]

unfoldable pub read_response : (Link → Option Bool) → Exchange → Reply × Log
unfolding copy_response
read_response quic_timeout x = elim x.read [
  | read_ok resp ↦ copy_response x resp
  | read_err err ↦
      if x.gone_at_read
      then (silent, gone_before_response)
      else (let (status, code, label) =
            classify_origin_failure quic_timeout err x.deadline_passed in
          (cf_error status code label, origin_failure status code (classify (some err)).0))
]

unfoldable pub forward : (Link → Option Bool) → Exchange → Reply × Log
unfolding read_response
forward quic_timeout x = elim x.open_err [
  | some err ↦ if x.gone_at_open then (silent, gone_before_stream) else (
    cf_error status_bad_gateway 1033 "tunnel stream unavailable",
    open_failed (classify (some err)).0,
  )
  | none ↦ elim x.write_err [
    | some err ↦ (
      cf_error status_bad_gateway 1033 "failed to forward request",
      write_failed (classify (some err)).0,
    )
    | none ↦ read_response quic_timeout x
  ]
]

abbrev pub no_tunnel : Reply
no_tunnel = cf_error status_bad_gateway 1033 "no connector registered"

-- The whole handler: the edge afterwards, the connector that was picked, the reply and the log line.
unfoldable pub serve_http :
    (Link → Option Bool) → Edge → List ℕ → ℕ → Exchange → Edge × Option ConnectorRef × Reply × Log
unfolding forward
serve_http quic_timeout e path now x =
    let (picked, e') = pick_connector e path now in
    elim picked [
      | none ↦ (e', none, no_tunnel, no_connector)
      | some c ↦ let (reply, log) = forward quic_timeout x in (e', some c, reply, log)
    ]

-- ===== src/Ui/Flow/EdgeLog.antt =====
-- internal/edge/edge.go and internal/ui/ui.go together: what the panel counts of the requests that
-- the edge answers. The log lines reach it through `observeEdgeLine`, which looks for four messages.
use quicshot.Prelude.{
  ◌||◌, refl, ℕ, ◌+◌, ◌≡◌, String, ◌⊎◌, Bool, true, false, List, Option, none, ◌==◌, if◌then◌else◌,
  arith,
}
use quicshot.Prelude.Bytes.{codes, contains, bytes_eq}
use quicshot.Quicerr.{Link}
use quicshot.Blast.CfCode.{find_digits}
use quicshot.Edge.Proxy.{
  Exchange, Reply, silent, cf_error, proxied, Log, no_connector, gone_before_stream, open_failed,
  write_failed, gone_before_response, origin_failure, interrupted, served, forward,
  classify_origin_failure,
}
use quicshot.Ui.Flow.Parse.{number_after}
use quicshot.Ui.Flow.{
  FlowState, proxied_seen, origin_failure_seen, no_connector_seen, connectors_seen,
  observe_edge_line,
}

-- The message of the line, as `ServeHTTP` gives it to the logger.
abbrev pub msg_text : Log → String
msg_text no_connector = "no connector"
msg_text gone_before_stream = "client gave up before the tunnel stream opened"
msg_text (open_failed kind) = "open tunnel stream"
msg_text (write_failed kind) = "write tunnel request"
msg_text gone_before_response = "client gave up before the origin responded"
msg_text (origin_failure status code kind) = "origin failure"
msg_text (interrupted status n kind) = "body copy interrupted"
msg_text (served status n) = "proxied"

abbrev pub StatusIn : Log → List ℕ → Type 0
StatusIn (origin_failure status code kind) line = number_after "\"status\":" line ≡ status
StatusIn _ line = Unit

-- What `slog.JSONHandler` makes of a log call, as far as it is relied on: `"msg":` is followed by the
-- call's message in quotes and by no other, since quotes inside values are escaped; `"status":` is
-- followed by the digits of that attribute.
pub record IsLine (log : Log) (line : List ℕ) : Type 0 where
  pub proxied_msg :
      contains line (codes "\"msg\":\"proxied\"")
      ≡ bytes_eq (codes (msg_text log)) (codes "proxied")
  pub failure_msg :
      contains line (codes "\"msg\":\"origin failure\"")
      ≡ bytes_eq (codes (msg_text log)) (codes "origin failure")
  pub no_connector_msg :
      contains line (codes "\"msg\":\"no connector\"")
      ≡ bytes_eq (codes (msg_text log)) (codes "no connector")
  pub registered_msg :
      contains line (codes "\"msg\":\"connector registered\"")
      ≡ bytes_eq (codes (msg_text log)) (codes "connector registered")
  pub lost_msg :
      contains line (codes "\"msg\":\"connector lost\"")
      ≡ bytes_eq (codes (msg_text log)) (codes "connector lost")
  pub status : StatusIn log line

-- The cases of `observe_edge_line`, told apart by the log call instead of the line.
log_seen : FlowState → List ℕ → Log → FlowState
log_seen f line (served status n) =
    proxied_seen f (number_after "\"elapsed_ms\":" line) (number_after "\"connector_id\":" line)
log_seen f line (origin_failure status code kind) =
    origin_failure_seen f status (number_after "\"connector_id\":" line)
log_seen f line no_connector = no_connector_seen f
log_seen f line _ = f

-- One of the five messages that `observeEdgeLine` looks for.
abbrev is_watched : List ℕ → Bool
is_watched text =
    bytes_eq text (codes "proxied")
    || bytes_eq text (codes "origin failure")
    || bytes_eq text (codes "no connector")
    || bytes_eq text (codes "connector registered")
    || bytes_eq text (codes "connector lost")

unwatched-IsLine :
    (f : FlowState) (log : Log) (line : List ℕ)
    → IsLine log line
    → is_watched (codes (msg_text log)) ≡ false
    → observe_edge_line f line ≡ f
unfolding observe_edge_line
unwatched-IsLine f log line h e =
    rw (h.proxied_msg, h.failure_msg, h.no_connector_msg, h.registered_msg, h.lost_msg)
      (ground arith)

observe_edge_line-IsLine :
    (f : FlowState) (log : Log) (line : List ℕ)
    → IsLine log line
    → observe_edge_line f line ≡ log_seen f line log
unfolding observe_edge_line log_seen bytes_eq
observe_edge_line-IsLine f (served status n) line h = rw (h.proxied_msg)
observe_edge_line-IsLine f (origin_failure status code kind) line h =
    rw (h.proxied_msg, h.failure_msg, h.status)
observe_edge_line-IsLine f no_connector line h =
    rw (h.proxied_msg, h.failure_msg, h.no_connector_msg)
observe_edge_line-IsLine f (open_failed kind) line h =
    unwatched-IsLine f (open_failed kind) line h refl
observe_edge_line-IsLine f (write_failed kind) line h =
    unwatched-IsLine f (write_failed kind) line h refl
observe_edge_line-IsLine f (interrupted status n kind) line h =
    unwatched-IsLine f (interrupted status n kind) line h refl
observe_edge_line-IsLine f gone_before_stream line h =
    unwatched-IsLine f gone_before_stream line h refl
observe_edge_line-IsLine f gone_before_response line h =
    unwatched-IsLine f gone_before_response line h refl

-- Whether a reply is a 502 or a 524 of the edge's own.
abbrev pub edge_status : ℕ → Reply → ℕ
edge_status status silent = 0
edge_status status (cf_error s c l) = if s == status then 1 else 0
edge_status status (proxied r n w) = 0

abbrev pub tunnel_error : Log → ℕ
tunnel_error (open_failed kind) = 1
tunnel_error (write_failed kind) = 1
tunnel_error _ = 0

log_seen-forward :
    (quic_timeout : Link → Option Bool) (x : Exchange) (f : FlowState) (line : List ℕ)
    → let (reply, log) = forward quic_timeout x in
      let g = log_seen f line log in
      (g.edge_524 ≡ f.edge_524 + edge_status 524 reply)
      × (g.edge_502 + tunnel_error log ≡ f.edge_502 + edge_status 502 reply)
      × ((tunnel_error log ≡ 0) ⊎ (g ≡ f))
unfolding forward classify_origin_failure log_seen proxied_seen origin_failure_seen
log_seen-forward quic_timeout x f line = (ground arith, ground arith, ground arith)

-- Where the panel reads the line that the logger makes of a request's last log call: of the requests
-- that reached a connector, it counts every 524 that the edge answers, and every 502 except those of a
-- stream that could not be opened or a request that could not be written, which it does not see at all.
pub observe_edge_line-forward :
    (quic_timeout : Link → Option Bool) (x : Exchange) (f : FlowState) (line : List ℕ)
    → let (reply, log) = forward quic_timeout x in
      let g = observe_edge_line f line in
      IsLine log line
      → (g.edge_524 ≡ f.edge_524 + edge_status 524 reply)
        × (g.edge_502 + tunnel_error log ≡ f.edge_502 + edge_status 502 reply)
        × ((tunnel_error log ≡ 0) ⊎ (g ≡ f))
observe_edge_line-forward quic_timeout x f line h =
    rw (observe_edge_line-IsLine f (forward quic_timeout x).1 line h)
      (log_seen-forward quic_timeout x f line)

-- A line that says that a connector has registered, and carries no number of connectors, makes the
-- panel show the tunnel as down with no connectors.
pub registered_line_down :
    (f : FlowState) (line : List ℕ)
    → contains line (codes "\"msg\":\"proxied\"") ≡ false
    → contains line (codes "\"msg\":\"origin failure\"") ≡ false
    → contains line (codes "\"msg\":\"no connector\"") ≡ false
    → contains line (codes "\"msg\":\"connector registered\"") ≡ true
    → find_digits (codes "\"connectors\":") line ≡ none
    → observe_edge_line f line ≡ record f { connectors = 0; tunnel_up = false; tunnel_known = true }
unfolding observe_edge_line connectors_seen number_after
registered_line_down f line a b c d e = rw (a, b, c, d, e, observe_edge_line)

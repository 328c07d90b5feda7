-- ===== src/Ui/Tests.antt =====
-- internal/ui at concrete inputs.
use quicshot.Prelude.{
  ℕ, ◌+◌, ◌≡◌, ◌⊎◌, inl, refl, Bool, false, List, [], ◌∷◌, Option, none, some, arith,
}
use quicshot.Prelude.Bytes.{codes, contains, bytes_eq}
use quicshot.Quicerr.{Link, plain_link, any_link, first_of_type}
use quicshot.Edge.Proxy.{Exchange, read_err, forward, classify_origin_failure, is_timeout}
use quicshot.Ui.Flow.{FlowState, BlastEvent, published_rps}
use quicshot.Ui.Flow.Counts.{
  Consistent, Update, line, polled, published, update_all, update_all-Consistent,
}
use quicshot.Ui.Flow.EdgeLog.{IsLine, edge_status, tunnel_error, observe_edge_line-forward}
use quicshot.Blast.Recorder.{Recorder, new_recorder}
use quicshot.Udpsock.{Counters}
use quicshot.Blast.CfCode.{find_digits, atoi, digits_value}
use quicshot.Blast.Summary.{Progress, progress_tick}
use quicshot.Ui.Flow.{observe_blast, observe_edge_line}
use quicshot.Ui.Flow.Parse.{number_after}
use quicshot.Ui.Flow.ReadBack.{observe_blast-progress_tick}
use quicshot.Prelude.Bytes.{bytes_key}
use quicshot.Ui.RateLimit.{Bucket}
use quicshot.Ui.RateLimit.Budget.{IsFair}
use quicshot.Ui.RunSlot.{start, handle_stop, finish}
use quicshot.Ui.RunSlot.Exclusive

abbrev pub blank_flow : FlowState
blank_flow = record {
  tunnel_up = false;
  tunnel_known = false;
  connectors = 0;
  connector_req = [];
  connector_err = [];
  client_req = 0;
  client_fail = 0;
  edge_req = 0;
  edge_524 = 0;
  edge_502 = 0;
  d_req = 0;
  d_524 = 0;
  d_502 = 0;
  edge_latency = [];
  conn_opened = 0;
  conn_closed = 0;
  conn_opened_total = 0;
  conn_closed_total = 0;
  conn_drops_total = 0;
  active_conns = 0;
  quic_versions = [];
  protos = [];
  zero_rtt_accept = 0;
  zero_rtt_reject = 0;
  connector_lat = [];
}

abbrev pub no_json : List ℕ → Option BlastEvent
no_json l = none

abbrev updates : List Update
updates =
    polled 2
    ∷ line "edge" (codes "{\"msg\":\"no connector\"}")
    ∷ line "edge" (codes "{\"msg\":\"proxied\",\"elapsed_ms\":12,\"connector_id\":1}")
    ∷ published
    ∷ line "blast" (codes "[blast] 5s total=20 fail=3")
    ∷ []

blank_flow-Consistent : Consistent blank_flow
blank_flow-Consistent = ground arith

update_all-Consistent_example :
    let g = update_all no_json blank_flow updates in
    Consistent g × ((published_rps g).1 + g.d_502 ≡ (published_rps g).0)
update_all-Consistent_example =
    update_all-Consistent no_json blank_flow updates blank_flow-Consistent

abbrev unanswered : Exchange
unanswered = record {
  open_err = none;
  gone_at_open = false;
  write_err = none;
  read = read_err (record { text = codes "boom"; chain = plain_link ∷ [] });
  gone_at_read = false;
  deadline_passed = false;
  copied = 0;
  copy_err = none;
}

abbrev no_timeout : Link → Option Bool
no_timeout l = none

-- The line of an origin failure, shortened.
abbrev failure_line : List ℕ
failure_line = codes "{\"msg\":\"origin failure\",\"connector_id\":1,\"status\":502}"

failure_line-IsLine : IsLine (forward no_timeout unanswered).1 failure_line
unfolding forward contains number_after bytes_eq find_digits atoi digits_value
    classify_origin_failure any_link is_timeout first_of_type
failure_line-IsLine = record {
  proxied_msg = refl;
  failure_msg = refl;
  no_connector_msg = refl;
  registered_msg = refl;
  lost_msg = refl;
  status = refl;
}

observe_edge_line-forward_example :
    let (reply, log) = forward no_timeout unanswered in
    let g = observe_edge_line blank_flow failure_line in
    (g.edge_524 ≡ 0 + edge_status 524 reply)
    × (g.edge_502 + tunnel_error log ≡ 0 + edge_status 502 reply)
    × ((tunnel_error log ≡ 0) ⊎ (g ≡ blank_flow))
observe_edge_line-forward_example =
    observe_edge_line-forward no_timeout unanswered blank_flow failure_line failure_line-IsLine

-- The line that `serveControl` writes when a connector registers, shortened.
abbrev registered_line : List ℕ
registered_line = codes "{\"msg\":\"connector registered\",\"connector_id\":1,\"ha_id\":0}"

-- The budget of the second is used up, with three lines beyond it.
abbrev full_bucket : Bucket
full_bucket = record { window = 1000; count = 123; suppressed = 3 }

full_bucket-IsFair : IsFair full_bucket
full_bucket-IsFair = omega arith

-- One run is started and stopped, a second one is refused, and the first returns.
reachable-Holds_example :
    let s = (start (handle_stop (start Exclusive.idle (codes "blast")).1) (codes "probe")).1 in
    Exclusive.Holds (finish s 0).slot (finish s 0).running
unfolding start handle_stop
reachable-Holds_example = Exclusive.reachable-Holds (
    Exclusive.next
      (Exclusive.next
        (Exclusive.next (Exclusive.next Exclusive.here (Exclusive.starts (codes "blast")))
          Exclusive.stops)
        (Exclusive.starts (codes "probe")))
      (Exclusive.returns 0 (inl refl)))

abbrev nothing_read : Counters
nothing_read = record {
  in_datagrams = 0;
  no_ports = 0;
  in_errors = 0;
  out_datagrams = 0;
  rcvbuf_errors = 0;
  sndbuf_errors = 0;
  in_csum_errors = 0;
}

abbrev counted : Recorder
counted = record new_recorder { requests = 42; failures = 5 }

-- The first tick after the statistics were reset.
abbrev after_warmup : Progress
after_warmup = record { prev_req = 100; prev_fail = 0; prev_udp = some nothing_read }

observe_blast-progress_tick_example :
    observe_blast (λ l. none) blank_flow (progress_tick counted nothing_read after_warmup).0
    ≡ record blank_flow { client_req = 42; client_fail = 5 }
observe_blast-progress_tick_example =
    observe_blast-progress_tick (λ l. none) blank_flow counted nothing_read after_warmup
      (omega arith) (omega arith)

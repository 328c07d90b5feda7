-- ===== src/Ui/Flow/Counts.antt =====
-- internal/ui/ui.go: the counters over any sequence of updates.
use quicshot.Prelude.{
  ℕ, ◌+◌, ◌≤◌, ◌≡◌, Bool, true, false, ◌&&◌, String, List, [], ◌∷◌, Option, none, some, length,
  str_eq, if◌then◌else◌, arith,
}
use quicshot.Prelude.Bytes.{codes, is_prefix}
use quicshot.Ui.Flow.Parse.{number_after, blast_total}
use quicshot.Ui.Flow.Samples.{append_sample_lem}
use quicshot.Ui.Flow.{
  FlowState, BlastEvent, proxied_seen, origin_failure_seen, no_connector_seen, connectors_seen,
  observe_edge_line, conn_open_seen, conn_closed_seen, apply_blast_event, observe_blast_line,
  observe_blast, observe, published_rps, publish_flow, reset_flow, event_or, totals_seen,
  starts_json,
}

-- Errors are requests, an interval's counts are part of the totals, the latency buffer is bounded, and
-- no more connections are open than were opened.
pub record Consistent (f : FlowState) : Type 0 where
  pub errors : f.edge_524 + f.edge_502 ≤ f.edge_req
  pub interval_errors : f.d_524 + f.d_502 ≤ f.d_req
  pub interval : f.d_req ≤ f.edge_req
  pub interval_524 : f.d_524 ≤ f.edge_524
  pub interval_502 : f.d_502 ≤ f.edge_502
  pub latencies : length f.edge_latency ≤ 1024
  pub opened : f.conn_opened ≤ f.conn_opened_total
  pub closed : f.conn_closed ≤ f.conn_closed_total
  pub active : f.active_conns ≤ f.conn_opened_total
  pub handshakes : f.zero_rtt_accept + f.zero_rtt_reject ≡ f.conn_opened_total
  pub known : f.tunnel_up ≡ true → f.tunnel_known ≡ true

proxied-Consistent : (f : FlowState) (ms id : ℕ) → Consistent f → Consistent (proxied_seen f ms id)
unfolding proxied_seen
proxied-Consistent f ms id c =
    let sampled = (append_sample_lem f.edge_latency ms 1024).0 in ground arith

origin_failure-Consistent :
    (f : FlowState) (status id : ℕ) → Consistent f → Consistent (origin_failure_seen f status id)
unfolding origin_failure_seen
origin_failure-Consistent f status id c = ground arith

no_connector-Consistent : (f : FlowState) → Consistent f → Consistent (no_connector_seen f)
unfolding no_connector_seen
no_connector-Consistent f c = ground arith

connectors-Consistent : (f : FlowState) (n : ℕ) → Consistent f → Consistent (connectors_seen f n)
unfolding connectors_seen
connectors-Consistent f n c = ground arith

edge_line-Consistent :
    (f : FlowState) (line : List ℕ) → Consistent f → Consistent (observe_edge_line f line)
unfolding observe_edge_line
edge_line-Consistent f line c = ground (
  arith,
  proxied-Consistent f (number_after "\"elapsed_ms\":" line) (number_after "\"connector_id\":" line)
      c,
  origin_failure-Consistent f (number_after "\"status\":" line)
      (number_after "\"connector_id\":" line) c,
  no_connector-Consistent f c,
  connectors-Consistent f (number_after "\"connectors\":" line) c,
)

blast_event-Consistent :
    (f : FlowState) (ev : BlastEvent) → Consistent f → Consistent (apply_blast_event f ev)
unfolding apply_blast_event conn_open_seen conn_closed_seen
blast_event-Consistent f ev c = ground arith

event_or-Consistent :
    (f : FlowState) (line : List ℕ) (o : Option BlastEvent)
    → Consistent f
    → Consistent (event_or f line o)
event_or-Consistent f line (some ev) c = blast_event-Consistent f ev c
event_or-Consistent f line none c = ground arith

either :
    (b : Bool) (f g : FlowState) → Consistent f → Consistent g → Consistent (if b then f else g)
either true f g c d = c
either false f g c d = d

totals-Consistent :
    (f : FlowState) (o : Option (ℕ × ℕ)) → Consistent f → Consistent (totals_seen f o)
totals-Consistent f none c = c
totals-Consistent f (some (req, fail)) c = ground arith

observe-Consistent :
    (unmarshal : List ℕ → Option BlastEvent) (f : FlowState) (src : String) (line : List ℕ)
    → Consistent f
    → Consistent (observe unmarshal f src line)
unfolding observe observe_blast observe_blast_line
observe-Consistent unmarshal f src line c =
    either (str_eq src "blast") _ _
      (either (is_prefix (codes "[blast]") line) _ _ (totals-Consistent f (blast_total line) c)
        (event_or-Consistent f line _ c))
      (either (str_eq src "edge" && starts_json line) _ _ (edge_line-Consistent f line c) c)

-- What happens to the state, in the order of its critical sections.
pub data Update : Type 0 where
  line : String → List ℕ → Update
  polled : ℕ → Update
  published : Update
  new_test : Update

unfoldable pub update : (List ℕ → Option BlastEvent) → FlowState → Update → FlowState
update unmarshal f (line src text) = observe unmarshal f src text
update unmarshal f (polled n) = connectors_seen f n
update unmarshal f published = publish_flow f
update unmarshal f new_test = reset_flow f

unfoldable pub update_all : (List ℕ → Option BlastEvent) → FlowState → List Update → FlowState
update_all unmarshal f [] = f
update_all unmarshal f (u ∷ us) = update_all unmarshal (update unmarshal f u) us

update-Consistent :
    (unmarshal : List ℕ → Option BlastEvent) (f : FlowState) (u : Update)
    → Consistent f
    → Consistent (update unmarshal f u)
unfolding update publish_flow reset_flow
update-Consistent unmarshal f (line src text) c = observe-Consistent unmarshal f src text c
update-Consistent unmarshal f (polled n) c = connectors-Consistent f n c
update-Consistent unmarshal f published c = ground arith
update-Consistent unmarshal f new_test c = ground arith

-- Every sequence of log lines, polls, publications and resets keeps the counters consistent, whatever
-- the lines say; so the origin's rate that is published next is the edge's rate less the 502s, and
-- does not fall below 0.
pub update_all-Consistent :
    (unmarshal : List ℕ → Option BlastEvent) (f : FlowState) (us : List Update)
    → Consistent f
    → let g = update_all unmarshal f us in
      Consistent g × ((published_rps g).1 + g.d_502 ≡ (published_rps g).0)
unfolding update_all published_rps
update_all-Consistent unmarshal f [] c = (c, omega arith)
update_all-Consistent unmarshal f (u ∷ us) c =
    update_all-Consistent unmarshal (update unmarshal f u) us (update-Consistent unmarshal f u c)

-- ===== src/Ui/Health/Ticks.antt =====
-- internal/ui/ui.go: the numbers per second in the messages of `publishFlow`, against the totals.
use quicshot.Prelude.{
  ℕ, ◌+◌, ◌≡◌, Bool, true, false, ◌&&◌, String, List, [], ◌∷◌, Option, none, some, str_eq,
  if◌then◌else◌, arith,
}
use quicshot.Prelude.Bytes.{codes, is_prefix}
use quicshot.Ui.Flow.Parse.{number_after, blast_total}
use quicshot.Ui.Flow.{
  FlowState, BlastEvent, proxied_seen, origin_failure_seen, no_connector_seen, connectors_seen,
  observe_edge_line, conn_open_seen, conn_closed_seen, apply_blast_event, observe_blast_line,
  observe_blast, observe, publish_flow, reset_flow, event_or, totals_seen, starts_json,
}
use quicshot.Ui.Flow.Counts.{Update, line, polled, published, new_test, update, update_all}
use quicshot.Ui.Health.{edge_msg, lifecycle_msg}

-- What the messages have shown since the last reset, added up.
pub record Shown : Type 0 where
  pub requests : ℕ
  pub s524 : ℕ
  pub s502 : ℕ
  pub opened : ℕ
  pub closed : ℕ

abbrev pub nothing_shown : Shown
nothing_shown = record { requests = 0; s524 = 0; s502 = 0; opened = 0; closed = 0 }

unfoldable pub shown_after : (ℕ → ℕ → ℕ) → Shown → FlowState → Update → Shown
shown_after scaled s f (line src text) = s
shown_after scaled s f (polled n) = s
shown_after scaled s f published = record {
  requests = s.requests + (edge_msg scaled f).rps;
  s524 = s.s524 + (edge_msg scaled f).s524;
  s502 = s.s502 + (edge_msg scaled f).s502;
  opened = s.opened + (lifecycle_msg f).open_sec;
  closed = s.closed + (lifecycle_msg f).closed_sec;
}
shown_after scaled s f new_test = nothing_shown

unfoldable pub shown_all :
    (List ℕ → Option BlastEvent) → (ℕ → ℕ → ℕ) → Shown → FlowState → List Update → Shown
shown_all unmarshal scaled s f [] = s
shown_all unmarshal scaled s f (u ∷ us) =
    shown_all unmarshal scaled (shown_after scaled s f u) (update unmarshal f u) us

-- The totals are what was shown and what the next message will show.
pub record IsShown (s : Shown) (f : FlowState) : Type 0 where
  pub requests : s.requests + f.d_req ≡ f.edge_req
  pub s524 : s.s524 + f.d_524 ≡ f.edge_524
  pub s502 : s.s502 + f.d_502 ≡ f.edge_502
  pub opened : s.opened + f.conn_opened ≡ f.conn_opened_total
  pub closed : s.closed + f.conn_closed ≡ f.conn_closed_total

proxied-IsShown :
    (s : Shown) (f : FlowState) (ms id : ℕ) → IsShown s f → IsShown s (proxied_seen f ms id)
unfolding proxied_seen
proxied-IsShown s f ms id c = ground arith

origin_failure-IsShown :
    (s : Shown) (f : FlowState) (status id : ℕ)
    → IsShown s f
    → IsShown s (origin_failure_seen f status id)
unfolding origin_failure_seen
origin_failure-IsShown s f status id c = ground arith

no_connector-IsShown : (s : Shown) (f : FlowState) → IsShown s f → IsShown s (no_connector_seen f)
unfolding no_connector_seen
no_connector-IsShown s f c = ground arith

connectors-IsShown :
    (s : Shown) (f : FlowState) (n : ℕ) → IsShown s f → IsShown s (connectors_seen f n)
unfolding connectors_seen
connectors-IsShown s f n c = ground arith

edge_line-IsShown :
    (s : Shown) (f : FlowState) (text : List ℕ) → IsShown s f → IsShown s (observe_edge_line f text)
unfolding observe_edge_line
edge_line-IsShown s f text c = ground (
  arith,
  proxied-IsShown s f (number_after "\"elapsed_ms\":" text) (number_after "\"connector_id\":" text)
      c,
  origin_failure-IsShown s f (number_after "\"status\":" text)
      (number_after "\"connector_id\":" text) c,
  no_connector-IsShown s f c,
  connectors-IsShown s f (number_after "\"connectors\":" text) c,
)

event_or-IsShown :
    (s : Shown) (f : FlowState) (text : List ℕ) (o : Option BlastEvent)
    → IsShown s f
    → IsShown s (event_or f text o)
unfolding apply_blast_event conn_open_seen conn_closed_seen
event_or-IsShown s f text (some ev) c = ground arith
event_or-IsShown s f text none c = ground arith

totals-IsShown :
    (s : Shown) (f : FlowState) (o : Option (ℕ × ℕ)) → IsShown s f → IsShown s (totals_seen f o)
totals-IsShown s f none c = c
totals-IsShown s f (some (req, fail)) c = ground arith

either :
    (s : Shown) (b : Bool) (f g : FlowState)
    → IsShown s f
    → IsShown s g
    → IsShown s (if b then f else g)
either s true f g c d = c
either s false f g c d = d

observe-IsShown :
    (unmarshal : List ℕ → Option BlastEvent) (s : Shown) (f : FlowState) (src : String)
    (text : List ℕ)
    → IsShown s f
    → IsShown s (observe unmarshal f src text)
unfolding observe observe_blast observe_blast_line
observe-IsShown unmarshal s f src text c =
    either s (str_eq src "blast") _ _
      (either s (is_prefix (codes "[blast]") text) _ _ (totals-IsShown s f (blast_total text) c)
        (event_or-IsShown s f text _ c))
      (either s (str_eq src "edge" && starts_json text) _ _ (edge_line-IsShown s f text c) c)

update-IsShown :
    (unmarshal : List ℕ → Option BlastEvent) (scaled : ℕ → ℕ → ℕ) (s : Shown) (f : FlowState)
    (u : Update)
    → IsShown s f
    → IsShown (shown_after scaled s f u) (update unmarshal f u)
unfolding update publish_flow reset_flow shown_after edge_msg lifecycle_msg
update-IsShown unmarshal scaled s f (line src text) c = observe-IsShown unmarshal s f src text c
update-IsShown unmarshal scaled s f (polled n) c = connectors-IsShown s f n c
update-IsShown unmarshal scaled s f published c = ground arith
update-IsShown unmarshal scaled s f new_test c = ground arith

-- Over any sequence of log lines, polls, messages and resets, no request, error, opened or closed
-- connection is lost between two messages or shown twice: the numbers per second of all messages since
-- the last reset, and of the next one, add up to the totals.
pub update_all-IsShown :
    (unmarshal : List ℕ → Option BlastEvent) (scaled : ℕ → ℕ → ℕ) (s : Shown) (f : FlowState)
    (us : List Update)
    → IsShown s f
    → IsShown (shown_all unmarshal scaled s f us) (update_all unmarshal f us)
unfolding update_all shown_all
update_all-IsShown unmarshal scaled s f [] c = c
update_all-IsShown unmarshal scaled s f (u ∷ us) c =
    update_all-IsShown unmarshal scaled (shown_after scaled s f u) (update unmarshal f u) us
      (update-IsShown unmarshal scaled s f u c)

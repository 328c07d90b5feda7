-- ===== src/Ui/Flow.antt =====
-- internal/ui/ui.go: the counters behind the diagram, which are read off the log lines of the
-- containers. A line is a list of bytes. Each function is one critical section under `flow.mu`. The
-- counters are int64 counts of lines and are left unbounded.
pub mod Parse
pub mod Counts
pub mod Samples
pub mod EdgeLog
pub mod ReadBack
use quicshot.Prelude.{
  ℕ, ◌+◌, ◌-◌, ◌/◌, Bool, true, false, ◌&&◌, ◌||◌, String, List, [], ◌∷◌, ◌++◌, Option, none, some,
  ltb, leb, ◌==◌, length, drop, get_or, str_eq, if◌then◌else◌,
}
use quicshot.Prelude.Bytes.{codes, contains, is_prefix, bytes_key}
use quicshot.Prelude.Maps.{bump, insert, lookup, nat_key, string_key}
use Parse.{number_after, blast_total, conn_drops_of, protocol_of}

pub record FlowState : Type 0 where
  pub tunnel_up : Bool
  pub tunnel_known : Bool
  pub connectors : ℕ
  pub connector_req : List (ℕ × ℕ)
  pub connector_err : List (ℕ × ℕ)
  pub client_req : ℕ
  pub client_fail : ℕ
  pub edge_req : ℕ
  pub edge_524 : ℕ
  pub edge_502 : ℕ
  pub d_req : ℕ
  pub d_524 : ℕ
  pub d_502 : ℕ
  pub edge_latency : List ℕ
  pub conn_opened : ℕ
  pub conn_closed : ℕ
  pub conn_opened_total : ℕ
  pub conn_closed_total : ℕ
  pub conn_drops_total : ℕ
  pub active_conns : ℕ
  pub quic_versions : List (String × ℕ)
  pub protos : List (List ℕ × ℕ)
  pub zero_rtt_accept : ℕ
  pub zero_rtt_reject : ℕ
  pub connector_lat : List (ℕ × List ℕ)

abbrev pub status_origin_timeout : ℕ
status_origin_timeout = 524

unfoldable pub append_sample : List ℕ → ℕ → ℕ → List ℕ
append_sample samples v keep =
    let longer = samples ++ (v ∷ []) in
    if ltb keep (length longer) then drop (length longer - keep) longer else longer

abbrev pub or_empty : Option (List ℕ) → List ℕ
or_empty none = []
or_empty (some l) = l

-- `observeEdgeProxied` behind its two extractions.
unfoldable pub proxied_seen : FlowState → ℕ → ℕ → FlowState
proxied_seen f ms connector_id = record f {
  edge_req = f.edge_req + 1;
  d_req = f.d_req + 1;
  edge_latency = append_sample f.edge_latency ms 1024;
  connector_req = if ltb 0 connector_id then bump connector_id f.connector_req else f.connector_req;
  connector_lat =
      if ltb 0 connector_id
      then insert connector_id
          (append_sample (or_empty (lookup connector_id f.connector_lat)) ms 512) f.connector_lat
      else f.connector_lat;
  tunnel_up = true;
  tunnel_known = true;
}

abbrev timeout_seen : FlowState → FlowState
timeout_seen f = record f {
  edge_524 = f.edge_524 + 1;
  d_524 = f.d_524 + 1;
  tunnel_up = true;
  tunnel_known = true;
}

abbrev gateway_error_seen : FlowState → FlowState
gateway_error_seen f = record f { edge_502 = f.edge_502 + 1; d_502 = f.d_502 + 1 }

-- `observeEdgeOriginFailure`.
unfoldable pub origin_failure_seen : FlowState → ℕ → ℕ → FlowState
origin_failure_seen f status connector_id =
    let g = record f {
      edge_req = f.edge_req + 1;
      d_req = f.d_req + 1;
      connector_err =
          if ltb 0 connector_id then bump connector_id f.connector_err else f.connector_err;
    } in
    if status == status_origin_timeout then timeout_seen g else gateway_error_seen g

-- `observeEdgeNoConnector`.
unfoldable pub no_connector_seen : FlowState → FlowState
no_connector_seen f = record f {
  edge_req = f.edge_req + 1;
  d_req = f.d_req + 1;
  edge_502 = f.edge_502 + 1;
  d_502 = f.d_502 + 1;
  tunnel_up = false;
  tunnel_known = true;
  connectors = 0;
}

-- `observeEdgeConnectorState`, and what `pollConnectors` does with its count.
unfoldable pub connectors_seen : FlowState → ℕ → FlowState
connectors_seen f n = record f { connectors = n; tunnel_up = ltb 0 n; tunnel_known = true }

unfoldable pub observe_edge_line : FlowState → List ℕ → FlowState
observe_edge_line f line =
    if contains line (codes "\"msg\":\"proxied\"")
    then proxied_seen f (number_after "\"elapsed_ms\":" line)
        (number_after "\"connector_id\":" line)
    else if contains line (codes "\"msg\":\"origin failure\"")
    then origin_failure_seen f (number_after "\"status\":" line)
        (number_after "\"connector_id\":" line)
    else if contains line (codes "\"msg\":\"no connector\"")
    then no_connector_seen f
    else if contains line (codes "\"msg\":\"connector registered\"")
        || contains line (codes "\"msg\":\"connector lost\"")
    then connectors_seen f (number_after "\"connectors\":" line)
    else f

pub record BlastEvent : Type 0 where
  pub event : String
  pub version : String
  pub used_0rtt : Bool

unfoldable pub conn_open_seen : FlowState → String → Bool → FlowState
conn_open_seen f version used_0rtt = record f {
  conn_opened = f.conn_opened + 1;
  conn_opened_total = f.conn_opened_total + 1;
  active_conns = f.active_conns + 1;
  quic_versions = if str_eq version "" then f.quic_versions else bump version f.quic_versions;
  zero_rtt_accept = if used_0rtt then f.zero_rtt_accept + 1 else f.zero_rtt_accept;
  zero_rtt_reject = if used_0rtt then f.zero_rtt_reject else f.zero_rtt_reject + 1;
}

-- `activeConns` is decremented only above 0, so `-` is exact.
unfoldable pub conn_closed_seen : FlowState → FlowState
conn_closed_seen f = record f {
  conn_closed = f.conn_closed + 1;
  conn_closed_total = f.conn_closed_total + 1;
  active_conns = if ltb 0 f.active_conns then f.active_conns - 1 else f.active_conns;
  conn_drops_total = f.conn_drops_total + 1;
}

unfoldable pub apply_blast_event : FlowState → BlastEvent → FlowState
apply_blast_event f ev =
    if str_eq ev.event "conn_open"
    then conn_open_seen f ev.version ev.used_0rtt
    else if str_eq ev.event "conn_closed"
    then conn_closed_seen f
    else f

abbrev pub protocol_seen : FlowState → Option (List ℕ × ℕ) → FlowState
protocol_seen f none = f
protocol_seen f (some (proto, n)) = record f { protos = insert proto n f.protos }

abbrev pub drops_or : FlowState → List ℕ → Option ℕ → FlowState
drops_or f line (some n) = record f { conn_drops_total = n }
drops_or f line none = protocol_seen f (protocol_of line)

abbrev pub starts_json : List ℕ → Bool
starts_json [] = false
starts_json (c ∷ s) = c == b'{'

abbrev pub event_or : FlowState → List ℕ → Option BlastEvent → FlowState
event_or f line (some ev) = apply_blast_event f ev
event_or f line none = drops_or f line (conn_drops_of line)

-- `observeBlastLine`. `json.Unmarshal` into the three fields is the argument: `none` where it fails.
unfoldable pub observe_blast_line : (List ℕ → Option BlastEvent) → FlowState → List ℕ → FlowState
observe_blast_line unmarshal f line =
    event_or f line (if starts_json line then unmarshal line else none)

abbrev pub totals_seen : FlowState → Option (ℕ × ℕ) → FlowState
totals_seen f none = f
totals_seen f (some (req, fail)) = record f { client_req = req; client_fail = fail }

unfoldable pub observe_blast : (List ℕ → Option BlastEvent) → FlowState → List ℕ → FlowState
observe_blast unmarshal f line =
    if is_prefix (codes "[blast]") line
    then totals_seen f (blast_total line)
    else observe_blast_line unmarshal f line

unfoldable pub observe : (List ℕ → Option BlastEvent) → FlowState → String → List ℕ → FlowState
observe unmarshal f src line =
    if str_eq src "blast"
    then observe_blast unmarshal f line
    else if str_eq src "edge" && starts_json line
    then observe_edge_line f line
    else f

-- What one tick of `publishFlow` puts into the fields "rps" of the edge and of the origin, and the
-- state that it leaves. The difference is one of int64 values.
unfoldable pub published_rps : FlowState → ℕ × ℕ
published_rps f = (f.d_req, f.d_req - f.d_502)

unfoldable pub publish_flow : FlowState → FlowState
publish_flow f = record f {
  d_req = 0;
  d_524 = 0;
  d_502 = 0;
  conn_opened = 0;
  conn_closed = 0;
  edge_latency = [];
}

unfoldable pub reset_flow : FlowState → FlowState
reset_flow f = record f {
  client_req = 0;
  client_fail = 0;
  edge_req = 0;
  edge_524 = 0;
  edge_502 = 0;
  d_req = 0;
  d_524 = 0;
  d_502 = 0;
  edge_latency = [];
  connector_req = [];
  connector_lat = [];
  connector_err = [];
  conn_opened = 0;
  conn_closed = 0;
  conn_opened_total = 0;
  conn_closed_total = 0;
  conn_drops_total = 0;
  active_conns = 0;
  quic_versions = [];
  protos = [];
  zero_rtt_accept = 0;
  zero_rtt_reject = 0;
}

unfoldable pub sum : List ℕ → ℕ
sum [] = 0
sum (n ∷ ns) = n + sum ns

unfoldable pub avg_ms : List ℕ → ℕ
unfolding sum
avg_ms samples = if length samples == 0 then 0 else sum samples / length samples

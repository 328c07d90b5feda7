-- ===== src/Ui/Health.antt =====
-- internal/ui/ui.go: the polls of docker (`pollConnectors`, `updateServiceHealth`) and the message of
-- `publishFlow`. The outputs of the commands are lists of bytes, `none` where the command fails.
pub mod Polls
pub mod Ticks
mod Tests
use quicshot.Prelude.{
  ℕ, zero, suc, ◌+◌, ◌-◌, Bool, true, false, not, ◌&&◌, String, List, [], ◌∷◌, ◌++◌, Option, none,
  some, ltb, leb, ◌==◌, length, get_or, is_empty, if◌then◌else◌,
}
use quicshot.Prelude.Bytes.{codes, bytes_eq}
use quicshot.Prelude.Maps.{insert, string_key}
use quicshot.Blast.Config.{split, trim_space}
use quicshot.Blast.Summary.{sort}
use quicshot.Ui.Commands.Impair.{ImpairReq}
use quicshot.Ui.Flow.{FlowState, connectors_seen, avg_ms}

unfoldable pub count_in : List (List ℕ) → ℕ
count_in [] = 0
count_in (line ∷ lines) =
    let rest = count_in lines in if is_empty (trim_space line) then rest else rest + 1

unfoldable pub count_lines : List ℕ → ℕ
count_lines s = count_in (split 10 s)

-- One round of `pollConnectors`.
unfoldable pub poll_connectors : Option (List ℕ) → FlowState → FlowState
poll_connectors none f = f
poll_connectors (some out) f = connectors_seen f (count_lines out)

unfoldable pub ids_in : List (List ℕ) → List (List ℕ)
ids_in [] = []
ids_in (line ∷ lines) =
    let id = trim_space line in let rest = ids_in lines in if is_empty id then rest else id ∷ rest

-- `strings.TrimSuffix(s, "%")`.
unfoldable pub trim_percent : List ℕ → List ℕ
trim_percent [] = []
trim_percent (c ∷ []) = if c == b'%' then [] else c ∷ []
trim_percent (c ∷ d ∷ s) = c ∷ trim_percent (d ∷ s)

-- A float is a value of `F`, with its `>` and the result of `strconv.ParseFloat`, its error dropped.
module _ (F : Type 0) (zero_float : F) (gt : F → F → Bool) (parse_float : List ℕ → F) where
  pub record ServiceHealth : Type 0 where
    pub cpu : F
    pub mem : F
    pub replicas : ℕ
    pub updated : ℕ

  unfoldable pub parse_percent : List ℕ → F
  parse_percent s = parse_float (trim_space (trim_percent s))

  abbrev pub larger : F → F → F
  larger v most = if gt v most then v else most

  -- The fields of one line of `docker stats`; one with fewer than two is passed over.
  abbrev pub with_parts : List (List ℕ) → F × F → F × F
  with_parts (c ∷ m ∷ parts) (cpu, mem) =
      (larger (parse_percent c) cpu, larger (parse_percent m) mem)
  with_parts parts most = most

  unfoldable pub stats_max : List (List ℕ) → F × F → F × F
  stats_max [] most = most
  stats_max (line ∷ lines) most =
      stats_max lines (
        if is_empty (trim_space line) then most else with_parts (split b'|' (trim_space line)) most)

  -- The entry of a service with these containers: all zero without one.
  abbrev pub entry_of : List (List ℕ) → Option (List ℕ) → ℕ → Option ServiceHealth
  entry_of [] stats now =
      some (record { cpu = zero_float; mem = zero_float; replicas = 0; updated = now })
  entry_of (id ∷ ids) none now = none
  entry_of (id ∷ ids) (some out) now =
      let most = stats_max (split 10 out) (zero_float, zero_float) in
      some (record { cpu = most.0; mem = most.1; replicas = length (id ∷ ids); updated = now })

  -- The new entry, if there is one: `ps` and `stats` are what the two commands print.
  unfoldable pub service_health : Option (List ℕ) → Option (List ℕ) → ℕ → Option ServiceHealth
  service_health none stats now = none
  service_health (some ps) stats now = entry_of (ids_in (split 10 ps)) stats now

  unfoldable pub set_service_health :
      String → Option ServiceHealth → List (String × ServiceHealth) → List (String × ServiceHealth)
  set_service_health service none health = health
  set_service_health service (some h) health = insert service h health

  -- What the two commands print for a service, and the time.
  pub record Polled : Type 0 where
    pub ps : Option (List ℕ)
    pub stats : Option (List ℕ)
    pub now : ℕ

  unfoldable pub update_service_health :
      String → Polled → List (String × ServiceHealth) → List (String × ServiceHealth)
  update_service_health service p health =
      set_service_health service (service_health p.ps p.stats p.now) health

  -- One round of `pollServiceHealth`.
  unfoldable pub poll_service_health :
      Polled → Polled → Polled → List (String × ServiceHealth) → List (String × ServiceHealth)
  poll_service_health edge connector origin health =
      update_service_health "origin" origin
        (update_service_health "connector" connector (update_service_health "edge" edge health))

-- The label of the impairment in the diagram, once the run has been started.
unfoldable pub impair_label : ImpairReq → List ℕ
impair_label req =
    if bytes_eq req.mode (codes "clear")
    then []
    else req.service ++ (codes " " ++ (req.mode ++ (codes " " ++ req.a)))

-- `percentileMs`; the argument is `int((p / 100) * float64(n))` of n = len - 1, which is not negative.
unfoldable pub percentile_ms : (ℕ → ℕ) → List ℕ → ℕ
percentile_ms scaled samples =
    let n = length samples in
    let idx = scaled (n - 1) in
    if n == 0 then 0 else get_or (sort leb samples) (if leb n idx then n - 1 else idx) 0

abbrev pub each {ℓ} : {K V : Type ℓ} → (V → ℕ) → List (K × V) → List (K × ℕ)
each fn [] = []
each fn ((k, v) ∷ m) = (k, fn v) ∷ each fn m

-- The message of one tick, by its groups of fields.
pub record EdgeMsg : Type 0 where
  pub rps : ℕ
  pub s524 : ℕ
  pub s502 : ℕ
  pub total : ℕ
  pub t524 : ℕ
  pub t502 : ℕ
  pub avg : ℕ
  pub p50 : ℕ
  pub p95 : ℕ
  pub p99 : ℕ

-- The argument is the scaled index of a percentage.
unfoldable pub edge_msg : (ℕ → ℕ → ℕ) → FlowState → EdgeMsg
edge_msg scaled f = record {
  rps = f.d_req;
  s524 = f.d_524;
  s502 = f.d_502;
  total = f.edge_req;
  t524 = f.edge_524;
  t502 = f.edge_502;
  avg = avg_ms f.edge_latency;
  p50 = percentile_ms (scaled 50) f.edge_latency;
  p95 = percentile_ms (scaled 95) f.edge_latency;
  p99 = percentile_ms (scaled 99) f.edge_latency;
}

pub record TunnelMsg : Type 0 where
  pub up : Bool
  pub n : ℕ
  pub known : Bool
  pub connector_req : List (ℕ × ℕ)
  pub connector_p95 : List (ℕ × ℕ)
  pub connector_p99 : List (ℕ × ℕ)
  pub connector_err : List (ℕ × ℕ)

unfoldable pub tunnel_msg : (ℕ → ℕ → ℕ) → FlowState → TunnelMsg
tunnel_msg scaled f = record {
  up = f.tunnel_up;
  n = f.connectors;
  known = f.tunnel_known;
  connector_req = f.connector_req;
  connector_p95 = each (percentile_ms (scaled 95)) f.connector_lat;
  connector_p99 = each (percentile_ms (scaled 99)) f.connector_lat;
  connector_err = f.connector_err;
}

pub record LifecycleMsg : Type 0 where
  pub active : ℕ
  pub open_sec : ℕ
  pub closed_sec : ℕ
  pub open_total : ℕ
  pub closed_total : ℕ
  pub drops_total : ℕ

unfoldable pub lifecycle_msg : FlowState → LifecycleMsg
lifecycle_msg f = record {
  active = f.active_conns;
  open_sec = f.conn_opened;
  closed_sec = f.conn_closed;
  open_total = f.conn_opened_total;
  closed_total = f.conn_closed_total;
  drops_total = f.conn_drops_total;
}

pub record ProtocolMsg : Type 0 where
  pub versions : List (String × ℕ)
  pub negotiated : List (List ℕ × ℕ)
  pub zero_rtt_accept : ℕ
  pub zero_rtt_reject : ℕ

unfoldable pub protocol_msg : FlowState → ProtocolMsg
protocol_msg f = record {
  versions = f.quic_versions;
  negotiated = f.protos;
  zero_rtt_accept = f.zero_rtt_accept;
  zero_rtt_reject = f.zero_rtt_reject;
}

-- ===== src/Blast/Recorder.antt =====
-- internal/blast/blast.go: the recorder.
-- The counters are atomics or stand under `mu`; each function is one such update or a sequence of
-- them. They count events of one run and do not reach 2^63, so they are left unbounded.
pub mod Keys
pub mod Balance
pub mod Verdicts
use quicshot.Prelude.{
  ℕ, ◌+◌, ◌*◌, ◌/◌, Bool, ◌&&◌, String, List, [], ◌∷◌, ◌++◌, Option, none, some, ltb, leb, ◌==◌,
  length, take, get_or, if◌then◌else◌,
}
use quicshot.Prelude.Int.{ℤ, pos, pos_part, ◌*ℤ◌, ltb_ℤ, leb_ℤ}
use quicshot.Prelude.Maps.{bump, string_key, nat_key}
use quicshot.Quicerr.{Kind, Detail, Err, classify, close_reason}
use quicshot.Blast.CfCode.{parse_cf_code}
use quicshot.Blast.Hist.{LatencyHist, new_latency_hist, push}
use Keys.{KindKey, of_kind, http_status, conn_closed_kind, kind_key}

-- The `Detail` field: of quicerr, or the text of a 5xx response.
pub data EventDetail : Type 0 where
  blank : EventDetail
  quic : Detail → EventDetail
  cloudflare : ℕ → String → EventDetail

pub data EventName : Type 0 where
  request request_failed body_truncated request_5xx conn_closed : EventName

-- The fields of `event` that requests and lost connections fill.
pub record Event : Type 0 where
  pub event : EventName
  pub conn : ℕ
  pub worker : ℕ
  pub url : String
  pub status : ℕ
  pub bytes : ℕ
  pub latency_ms : ℕ
  pub kind : Option KindKey  -- `none` is the empty string
  pub detail : EventDetail

-- `out` is what the encoder has written, the last line first.
pub record Recorder : Type 0 where
  pub lat : LatencyHist
  pub status : List (ℕ × ℕ)
  pub kinds : List (KindKey × ℕ)
  pub protos : List (String × ℕ)
  pub cf_codes : List (ℕ × ℕ)
  pub conn_drops : ℕ
  pub requests : ℕ
  pub failures : ℕ
  pub abandoned : ℕ
  pub omitted : ℕ
  pub offered : ℕ
  pub bytes : ℕ
  pub out : List Event

abbrev pub hist_size : ℕ
hist_size = 200000

unfoldable pub new_recorder : Recorder
new_recorder = record {
  lat = new_latency_hist hist_size;
  status = [];
  kinds = [];
  protos = [];
  cf_codes = [];
  conn_drops = 0;
  requests = 0;
  failures = 0;
  abandoned = 0;
  omitted = 0;
  offered = 0;
  bytes = 0;
  out = [];
}

unfoldable pub emit : Recorder → Event → Recorder
emit r e = record r { out = e ∷ r.out }

unfoldable pub success : Recorder → Event → ℕ → Recorder
success r e d = record r {
  requests = r.requests + 1;
  bytes = r.bytes + e.bytes;
  lat = push r.lat d;
  status = bump e.status r.status;
}

-- What a tick of the open loop counts: that it was offered, and that it was omitted.
unfoldable pub offer_one : Recorder → Recorder
offer_one r = record r { offered = r.offered + 1 }

unfoldable pub omit_one : Recorder → Recorder
omit_one r = record r { omitted = r.omitted + 1 }

unfoldable pub reset_request_stats : Recorder → Recorder
reset_request_stats r = record r {
  lat = new_latency_hist hist_size;
  status = [];
  kinds = [];
  protos = [];
  cf_codes = [];
  conn_drops = 0;
  requests = 0;
  failures = 0;
  abandoned = 0;
  omitted = 0;
  offered = 0;
  bytes = 0;
}

-- A failure without a kind counts under the empty string.
unfoldable pub failure : Recorder → Event → Recorder
unfolding emit
failure r e =
    emit
      (record r {
        requests = r.requests + 1;
        failures = r.failures + 1;
        kinds = bump (Keys.or_blank e.kind) r.kinds;
        status = if e.status == 0 then r.status else bump e.status r.status;
      })
      e

unfoldable pub record_proto : Recorder → String → Recorder
record_proto r proto = record r { protos = bump proto r.protos }

unfoldable pub record_cf_code : Recorder → ℕ → Recorder
record_cf_code r code = record r { cf_codes = bump code r.cf_codes }

-- `ctx_done` is `ctx.Err() != nil`. `e` is the event that the source builds, its kind and detail
-- still empty.
unfoldable pub record_dial_error : Recorder → Bool → Err → Event → Recorder
record_dial_error r ctx_done err e =
    if ctx_done
    then record r { abandoned = r.abandoned + 1 }
    else (let (kind, detail) = classify (some err) in
        failure r
          (record e { event = request_failed; kind = some (of_kind kind); detail = quic detail }))

pub record HttpResult : Type 0 where
  pub err : Option Err
  pub cf_code : ℕ
  pub elapsed : ℕ
  pub ray : String
  pub event : Event

-- The three branches of `recordHTTPResult`: the body was cut off,
unfoldable pub record_truncation : Recorder → Bool → Err → Event → Recorder
record_truncation r ctx_done err e =
    if ctx_done
    then record r { abandoned = r.abandoned + 1 }
    else (let (kind, detail) = classify (some err) in
        failure r
          (record e { event = body_truncated; kind = some (of_kind kind); detail = quic detail }))

-- the status is a server error,
unfoldable pub record_5xx : Recorder → ℕ → String → Event → Recorder
record_5xx r cf_code ray e =
    failure (if cf_code == 0 then r else record_cf_code r cf_code) (record e {
      event = request_5xx;
      kind = some (http_status e.status);
      detail = cloudflare cf_code ray;
    })

-- and all else.
unfoldable pub record_http_result : Recorder → Bool → HttpResult → Recorder
record_http_result r ctx_done res = elim res.err [
  | some err ↦ record_truncation r ctx_done err res.event
  | none ↦
      if leb 500 res.event.status
      then record_5xx r res.cf_code res.ray res.event
      else success r (record res.event { event = request }) res.elapsed
]

-- A lost connection: the goroutine behind `Dial` in `makeTransports`. The statistics and the addresses
-- that its event carries, too, are left out.
unfoldable pub conn_lost : Recorder → ℕ → Option Err → Recorder
conn_lost r conn cause =
    let (kind, detail) = close_reason cause in
    emit (record r { conn_drops = r.conn_drops + 1; kinds = bump (conn_closed_kind kind) r.kinds })
      (record {
        event = conn_closed;
        conn = conn;
        worker = 0;
        url = "";
        status = 0;
        bytes = 0;
        latency_ms = 0;
        kind = some (of_kind kind);
        detail = quic detail;
      })

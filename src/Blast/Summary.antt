-- ===== src/Blast/Summary.antt =====
-- internal/blast/blast.go: the report at the end of a run (`summary`), as the lines that it prints, and
-- the line that `progress` prints during it.
-- Go's maps are ranged over in any order: the order of a map's keys is an argument.
pub mod Histograms
pub mod Order
pub mod Latency
mod Tests
use quicshot.Prelude.{
  ℕ, ◌+◌, ◌-◌, Bool, true, false, String, List, [], ◌∷◌, ◌++◌, Option, none, some, ltb, leb, ◌==◌,
  length, map, get_or, is_empty, replicate, if◌then◌else◌,
}
use quicshot.Prelude.Int.{ℤ, sub_ℕ}
use quicshot.Prelude.Bytes.{codes, bytes_eq, bytes_key}
use quicshot.Prelude.Maps.{Key, count_at, nat_key, string_key}
use quicshot.Quicerr.{
  Kind, kind_none, idle_timeout, handshake, stateless_reset, version_negot, transport_error,
  application_err, stream_reset, http3, deadline, canceled, network_timeout, conn_refused,
  buffer_pressure, unknown,
}
use quicshot.Udpsock.{Counters, sub}
use quicshot.Blast.CfCode.{decimal, itoa}
use quicshot.Blast.Config.{percentile}
use quicshot.Blast.Hist.{LatencyHist}
use quicshot.Blast.Recorder.{Recorder}
use quicshot.Blast.Recorder.Keys.{
  KindKey, no_kind, of_kind, http_status, conn_closed_kind, kind_key,
}
unfoldable pub use Histograms.{
  place, sort, bytes_le, pad_right, count_line, titled, write_int_histogram, kind_text, key_text,
  by_text, write_string_histogram, proto_line, write_proto_summary, cf_meaning, cf_line,
  write_cf_code_summary,
}

-- What the formatting of floats and durations yields: the time of the run, a count per second, a count
-- of bytes in KB per second, a duration in milliseconds, and `int(p / 100 * n)` of a p in tenths.
pub record Texts : Type 0 where
  pub elapsed : List ℕ
  pub per_second : ℕ → List ℕ
  pub kb_per_second : ℕ → List ℕ
  pub duration : ℕ → List ℕ
  pub scaled : ℕ → ℕ → ℕ

unfoldable pub sorted : LatencyHist → List ℕ
sorted h = sort leb h.samples

abbrev pub last_of : List ℕ → ℕ
last_of l = get_or l (length l - 1) 0

abbrev pub percentile_line : Texts → List ℕ → String → ℕ → List ℕ
percentile_line t latencies label p = codes label ++ t.duration (percentile (t.scaled p) latencies)

unfoldable pub latency_lines : Texts → LatencyHist → List (List ℕ)
latency_lines t h =
    let latencies = sorted h in
    (if ltb (length latencies) h.seen
      then (codes "  (percentiles from last "
          ++ (decimal (length latencies)
              ++ (codes " of " ++ (decimal h.seen ++ codes " samples)"))))
        ∷ []
      else [])
    ++ (percentile_line t latencies "  p50    " 500
        ∷ percentile_line t latencies "  p90    " 900
        ∷ percentile_line t latencies "  p99    " 990
        ∷ percentile_line t latencies "  p99.9  " 999
        ∷ (codes "  max    " ++ t.duration (last_of latencies))
        ∷ [])

unfoldable pub write_latency_summary : Texts → LatencyHist → List (List ℕ)
write_latency_summary t h = titled h.samples "latency (successful requests)" (latency_lines t h)

-- The order in which `range` goes through the keys of each map.
pub record Ranges : Type 0 where
  pub status : List ℕ
  pub protos : List (List ℕ)
  pub cf_codes : List ℕ
  pub kinds : List (List ℕ)

abbrev pub line_if : ℕ → List ℕ → List (List ℕ)
line_if n line = if ltb 0 n then line ∷ [] else []

unfoldable pub conn_drops_line : ℕ → List ℕ
conn_drops_line n = codes "conn drops      " ++ decimal n

unfoldable pub counter_lines : Texts → Recorder → List (List ℕ)
counter_lines t r =
    ([]
      ∷ codes "=== blast summary ========================================="
      ∷ (codes "duration        " ++ t.elapsed)
      ∷ (codes "requests        "
          ++ (decimal r.requests
              ++ (codes " (" ++ (t.per_second r.requests ++ codes "/s completed)"))))
      ∷ [])
    ++ (line_if r.offered (
          codes "offered         "
          ++ (decimal r.offered ++ (codes " (" ++ (t.per_second r.offered ++ codes "/s)"))))
        ++ (((codes "failures        " ++ decimal r.failures) ∷ [])
            ++ (line_if r.abandoned (
                  codes "abandoned       "
                  ++ (decimal r.abandoned ++ codes " (still in flight when the run ended)"))
                ++ (line_if r.omitted (
                      codes "omitted         "
                      ++ (decimal r.omitted
                          ++ codes " (open-loop ticks dropped: max-inflight full)"))
                    ++ (line_if r.bytes (
                          codes "bytes           "
                          ++ (decimal r.bytes
                              ++ (codes " (" ++ (t.kb_per_second r.bytes ++ codes " KB/s)"))))
                        ++ (conn_drops_line r.conn_drops ∷ []))))))

unfoldable pub summary : Texts → Ranges → Recorder → List (List ℕ)
summary t keys r =
    counter_lines t r
    ++ (write_int_histogram "status codes" keys.status r.status
        ++ (write_proto_summary keys.protos (by_text codes r.protos)
            ++ (write_cf_code_summary keys.cf_codes r.cf_codes
                ++ (write_string_histogram "disconnect / failure reasons" keys.kinds
                      (by_text key_text r.kinds)
                    ++ (write_latency_summary t r.lat
                        ++ (codes "==========================================================="
                            ∷ []))))))

-- What `progress` keeps from one tick to the next; `udp` is `none` where the kernel's counters could
-- not be read at the start.
pub record Progress : Type 0 where
  pub prev_req : ℕ
  pub prev_fail : ℕ
  pub prev_udp : Option Counters

-- "[blast] +%d req  +%d fail  total=%d fail=%d omit=%d".
unfoldable pub progress_text : ℤ → ℤ → ℕ → ℕ → ℕ → List ℕ
progress_text d_req d_fail req fail omit =
    codes "[blast] +"
    ++ (itoa d_req
        ++ (codes " req  +"
            ++ (itoa d_fail
                ++ (codes " fail  "
                    ++ (codes "total="
                        ++ (decimal req
                            ++ (codes " fail="
                                ++ (decimal fail ++ (codes " omit=" ++ decimal omit)))))))))

abbrev pub udp_text : Counters → List ℕ
udp_text d =
    codes "  udp_rcvbuf_errors=+"
    ++ (decimal d.rcvbuf_errors ++ (codes " in_errors=+" ++ decimal d.in_errors))

-- One tick, with the counters that are read at it.
unfoldable pub progress_tick : Recorder → Counters → Progress → List ℕ × Progress
progress_tick r cur p =
    let text =
      progress_text (sub_ℕ r.requests p.prev_req) (sub_ℕ r.failures p.prev_fail) r.requests
        r.failures r.omitted in
    elim p.prev_udp [
      | none ↦ (text, record p { prev_req = r.requests; prev_fail = r.failures })
      | some prev ↦ (
        text ++ udp_text (sub cur prev),
        record p { prev_req = r.requests; prev_fail = r.failures; prev_udp = some cur },
      )
    ]

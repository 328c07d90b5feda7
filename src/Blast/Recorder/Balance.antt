-- ===== src/Blast/Recorder/Balance.antt =====
-- internal/blast/blast.go: the recorder over a whole run.
use quicshot.Prelude.{
  ℕ, ◌+◌, ◌≤◌, ◌≡◌, Bool, true, false, String, List, [], ◌∷◌, Option, ◌==◌, arith, Bool-cases,
  Option-cases, leb, inl, inr,
}
use quicshot.Prelude.Maps.{total, total-bump, nat_key, string_key}
use quicshot.Quicerr.{Err, close_reason}
use quicshot.Blast.Hist.{LatencyHist, push, new_latency_hist}
use quicshot.Blast.Recorder.Keys.{kind_key, or_blank, conn_closed_kind}
use quicshot.Blast.Request.{Attempt, do_request}
use quicshot.Blast.Recorder.{
  Recorder, Event, HttpResult, new_recorder, success, failure, record_proto, record_cf_code,
  record_dial_error, record_http_result, record_truncation, record_5xx, conn_lost,
  reset_request_stats, emit, offer_one, omit_one,
}

-- Every counted request is a failure or a sample; the reasons add up to the failures and the lost
-- connections; each status stands for a counted request and each sample for a status; each Cloudflare
-- code stands for a failure.
pub record Balanced (r : Recorder) : Type 0 where
  pub split : r.requests ≡ r.failures + r.lat.seen
  pub reasons : total r.kinds ≡ r.failures + r.conn_drops
  pub statuses : total r.status ≤ r.requests
  pub samples : r.lat.seen ≤ total r.status
  pub codes : total r.cf_codes ≤ r.failures

pub seen-push : (h : LatencyHist) (d : ℕ) → (push h d).seen ≡ h.seen + 1
unfolding push
seen-push h d = ground arith

success-Balanced : (r : Recorder) (e : Event) (d : ℕ) → Balanced r → Balanced (success r e d)
unfolding success
success-Balanced r e d b = ground (arith, seen-push r.lat d, total-bump e.status r.status)

failure-Balanced : (r : Recorder) (e : Event) → Balanced r → Balanced (failure r e)
unfolding failure
failure-Balanced r e b =
    ground (arith, total-bump (or_blank e.kind) r.kinds, total-bump e.status r.status)

-- A failure makes room for one more Cloudflare code.
coded_failure-Balanced :
    (r : Recorder) (code : ℕ) (e : Event)
    → Balanced r
    → Balanced (failure (record_cf_code r code) e)
unfolding failure record_cf_code
coded_failure-Balanced r code e b = ground (
  arith,
  total-bump code r.cf_codes,
  total-bump (or_blank e.kind) r.kinds,
  total-bump e.status r.status,
)

dial_error-Balanced :
    (r : Recorder) (ctx_done : Bool) (err : Err) (e : Event)
    → Balanced r
    → Balanced (record_dial_error r ctx_done err e)
unfolding record_dial_error
dial_error-Balanced r true err e b = ground arith
dial_error-Balanced r false err e b = failure-Balanced r _ b

truncation-Balanced :
    (r : Recorder) (ctx_done : Bool) (err : Err) (e : Event)
    → Balanced r
    → Balanced (record_truncation r ctx_done err e)
unfolding record_truncation
truncation-Balanced r true err e b = ground arith
truncation-Balanced r false err e b = failure-Balanced r _ b

server_error-Balanced :
    (r : Recorder) (code : ℕ) (ray : String) (e : Event)
    → Balanced r
    → Balanced (record_5xx r code ray e)
unfolding record_5xx
server_error-Balanced r code ray e b = elim (Bool-cases (code == 0)) [
  | inl no_code ↦ rw no_code (failure-Balanced r _ b)
  | inr coded ↦ rw coded (coded_failure-Balanced r code _ b)
]

http_result-Balanced :
    (r : Recorder) (ctx_done : Bool) (res : HttpResult)
    → Balanced r
    → Balanced (record_http_result r ctx_done res)
unfolding record_http_result
http_result-Balanced r ctx_done res b = elim (Option-cases res.err) [
  | inr (err, e) ↦ rw (e, record_http_result) (truncation-Balanced r ctx_done err res.event b)
  | inl e ↦ elim (Bool-cases (leb 500 res.event.status)) [
    | inl server ↦
        rw (e, server, record_http_result) (server_error-Balanced r res.cf_code res.ray res.event b)
    | inr fine ↦ rw (e, fine, record_http_result) (success-Balanced r _ res.elapsed b)
  ]
]

conn_lost-Balanced :
    (r : Recorder) (conn : ℕ) (cause : Option Err) → Balanced r → Balanced (conn_lost r conn cause)
unfolding conn_lost emit
conn_lost-Balanced r conn cause b =
    ground (arith, total-bump (conn_closed_kind (close_reason cause).0) r.kinds)

proto-Balanced : (r : Recorder) (proto : String) → Balanced r → Balanced (record_proto r proto)
unfolding record_proto
proto-Balanced r proto b = ground arith

do_request-Balanced :
    (r : Recorder) (read_body : Bool) (conn worker : ℕ) (target : String) (a : Attempt)
    → Balanced r
    → Balanced (do_request r read_body conn worker target a)
unfolding do_request
do_request-Balanced r read_body conn worker target a b = elim (Bool-cases a.built) [
  | inr unsent ↦ rw (unsent, do_request) b
  | inl sent ↦ elim (Option-cases a.do_err) [
    | inr (err, e) ↦ rw (sent, e, do_request) (dial_error-Balanced r a.ctx_done err _ b)
    | inl e ↦
        rw (sent, e, do_request)
          (http_result-Balanced (record_proto r a.proto) a.ctx_done _ (proto-Balanced r a.proto b))
  ]
]

reset-Balanced : (r : Recorder) → Balanced (reset_request_stats r)
unfolding reset_request_stats new_latency_hist total
reset-Balanced r = ground arith

offer_one-Balanced : (r : Recorder) → Balanced r → Balanced (offer_one r)
unfolding offer_one
offer_one-Balanced r b = ground arith

omit_one-Balanced : (r : Recorder) → Balanced r → Balanced (omit_one r)
unfolding omit_one
omit_one-Balanced r b = ground arith

-- What happens to the recorder during a run, in the order of its critical sections.
pub data Call : Type 0 where
  requested : Bool → ℕ → ℕ → String → Attempt → Call
  lost : ℕ → Option Err → Call
  -- A tick of the open loop, and one that finds no room in flight.
  offered omitted : Call
  warmed_up : Call

unfoldable pub record_all : Recorder → List Call → Recorder
record_all r [] = r
record_all r (requested read_body conn worker target a ∷ cs) =
    record_all (do_request r read_body conn worker target a) cs
record_all r (lost conn cause ∷ cs) = record_all (conn_lost r conn cause) cs
record_all r (offered ∷ cs) = record_all (offer_one r) cs
record_all r (omitted ∷ cs) = record_all (omit_one r) cs
record_all r (warmed_up ∷ cs) = record_all (reset_request_stats r) cs

record_all_from-Balanced : (cs : List Call) (r : Recorder) → Balanced r → Balanced (record_all r cs)
unfolding record_all
record_all_from-Balanced [] r b = b
record_all_from-Balanced (requested read_body conn worker target a ∷ cs) r b =
    record_all_from-Balanced cs _ (do_request-Balanced r read_body conn worker target a b)
record_all_from-Balanced (lost conn cause ∷ cs) r b =
    record_all_from-Balanced cs _ (conn_lost-Balanced r conn cause b)
record_all_from-Balanced (offered ∷ cs) r b = record_all_from-Balanced cs _ (offer_one-Balanced r b)
record_all_from-Balanced (omitted ∷ cs) r b = record_all_from-Balanced cs _ (omit_one-Balanced r b)
record_all_from-Balanced (warmed_up ∷ cs) r b = record_all_from-Balanced cs _ (reset-Balanced r)

-- After any sequence of requests, lost connections, ticks of the open loop and the reset at the end of the warm-up, from a
-- new recorder on, the books balance: counted requests are failures plus samples, the failure and
-- disconnect reasons add up to the failures and drops, each sample has a status, each status a
-- counted request, and each Cloudflare code a failure.
pub record_all-Balanced : (cs : List Call) → Balanced (record_all new_recorder cs)
record_all-Balanced cs =
    record_all_from-Balanced cs new_recorder
      (unfold new_recorder new_latency_hist total in ground arith)

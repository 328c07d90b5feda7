-- ===== src/Blast/Main/Warmup.antt =====
-- internal/blast/blast.go: the report and the verdict do not depend on the warm-up.
use quicshot.Prelude.{
  ℕ, ◌≡◌, refl, sym, ◌∙◌, ap, Bool, true, false, String, List, [], ◌∷◌, Option, ◌==◌, leb,
  Bool-cases, Option-cases, inl, inr,
}
use quicshot.Prelude.Int.{pos, ltb_ℤ}
use quicshot.Quicerr.{Err}
use quicshot.Blast.Request.{Attempt, do_request}
use quicshot.Blast.Recorder.{
  Recorder, Event, HttpResult, new_recorder, success, failure, record_proto, record_cf_code,
  record_dial_error, record_http_result, record_truncation, record_5xx, conn_lost,
  reset_request_stats, emit, offer_one, omit_one,
}
use quicshot.Blast.Recorder.Balance.{Call, requested, lost, offered, omitted, warmed_up, record_all}
use quicshot.Flags.{Parsed, parsed, exits}
use quicshot.Blast.Options.{Options, parse_config}
use quicshot.Blast.Recorder.Verdicts.{verdict}
use quicshot.Blast.Summary.{summary, counter_lines}
use quicshot.Blast.Main.{World, run_load, report, with_options, main}

-- All but the log that was written.
abbrev forget : Recorder → Recorder
forget r = record r { out = [] }

dial_error-forget :
    (r : Recorder) (ctx_done : Bool) (err : Err) (e : Event)
    → forget (record_dial_error (forget r) ctx_done err e)
      ≡ forget (record_dial_error r ctx_done err e)
unfolding record_dial_error failure
dial_error-forget r true err e = refl
dial_error-forget r false err e = refl

truncation-forget :
    (r : Recorder) (ctx_done : Bool) (err : Err) (e : Event)
    → forget (record_truncation (forget r) ctx_done err e)
      ≡ forget (record_truncation r ctx_done err e)
unfolding record_truncation failure
truncation-forget r true err e = refl
truncation-forget r false err e = refl

server_error-forget :
    (r : Recorder) (code : ℕ) (ray : String) (e : Event)
    → forget (record_5xx (forget r) code ray e) ≡ forget (record_5xx r code ray e)
unfolding record_5xx failure record_cf_code
server_error-forget r code ray e = elim (Bool-cases (code == 0)) [
  | inl no_code ↦ rw no_code refl
  | inr coded ↦ rw coded refl
]

success-forget :
    (r : Recorder) (e : Event) (d : ℕ) → forget (success (forget r) e d) ≡ forget (success r e d)
unfolding success
success-forget r e d = refl

http_result-forget :
    (r : Recorder) (ctx_done : Bool) (res : HttpResult)
    → forget (record_http_result (forget r) ctx_done res)
      ≡ forget (record_http_result r ctx_done res)
unfolding record_http_result
http_result-forget r ctx_done res = elim (Option-cases res.err) [
  | inr (err, e) ↦ rw (e, record_http_result) (truncation-forget r ctx_done err res.event)
  | inl e ↦ elim (Bool-cases (leb 500 res.event.status)) [
    | inl server ↦
        rw (e, server, record_http_result) (server_error-forget r res.cf_code res.ray res.event)
    | inr fine ↦ rw (e, fine, record_http_result) (success-forget r _ res.elapsed)
  ]
]

do_request-forget :
    (r : Recorder) (read_body : Bool) (conn worker : ℕ) (target : String) (a : Attempt)
    → forget (do_request (forget r) read_body conn worker target a)
      ≡ forget (do_request r read_body conn worker target a)
unfolding do_request record_proto
do_request-forget r read_body conn worker target a = elim (Bool-cases a.built) [
  | inr unsent ↦ rw (unsent, do_request) refl
  | inl sent ↦ elim (Option-cases a.do_err) [
    | inr (err, e) ↦ rw (sent, e, do_request) (dial_error-forget r a.ctx_done err _)
    | inl e ↦ rw (sent, e, do_request) (http_result-forget (record_proto r a.proto) a.ctx_done _)
  ]
]

conn_lost-forget :
    (r : Recorder) (conn : ℕ) (cause : Option Err)
    → forget (conn_lost (forget r) conn cause) ≡ forget (conn_lost r conn cause)
unfolding conn_lost emit
conn_lost-forget r conn cause = refl

ticks-forget :
    (r : Recorder)
    → (forget (offer_one (forget r)) ≡ forget (offer_one r))
      × (forget (omit_one (forget r)) ≡ forget (omit_one r))
unfolding offer_one omit_one
ticks-forget r = (refl, refl)

reset-forget :
    (r : Recorder) → forget (reset_request_stats (forget r)) ≡ forget (reset_request_stats r)
unfolding reset_request_stats
reset-forget r = refl

record_all-forget :
    (cs : List Call) (r s : Recorder)
    → forget r ≡ forget s
    → forget (record_all r cs) ≡ forget (record_all s cs)
unfolding record_all
record_all-forget [] r s e = e
record_all-forget (requested read_body conn worker target a ∷ cs) r s e =
    let op = λ (x : Recorder). do_request x read_body conn worker target a in
    record_all-forget cs (op r) (op s) (
      sym (do_request-forget r read_body conn worker target a)
      ∙ ap (λ x. forget (op x)) e
      ∙ do_request-forget s read_body conn worker target a)
record_all-forget (lost conn cause ∷ cs) r s e =
    let op = λ (x : Recorder). conn_lost x conn cause in
    record_all-forget cs (op r) (op s) (
      sym (conn_lost-forget r conn cause)
      ∙ ap (λ x. forget (op x)) e
      ∙ conn_lost-forget s conn cause)
record_all-forget (offered ∷ cs) r s e =
    record_all-forget cs (offer_one r) (offer_one s)
      (sym (ticks-forget r).0 ∙ ap (λ x. forget (offer_one x)) e ∙ (ticks-forget s).0)
record_all-forget (omitted ∷ cs) r s e =
    record_all-forget cs (omit_one r) (omit_one s)
      (sym (ticks-forget r).1 ∙ ap (λ x. forget (omit_one x)) e ∙ (ticks-forget s).1)
record_all-forget (warmed_up ∷ cs) r s e =
    record_all-forget cs (reset_request_stats r) (reset_request_stats s)
      (sym (reset-forget r) ∙ ap (λ x. forget (reset_request_stats x)) e ∙ reset-forget s)

-- What the warm-up leaves behind is a new recorder, but for the log.
reset_is_new : (r : Recorder) → forget (reset_request_stats r) ≡ forget new_recorder
unfolding reset_request_stats new_recorder
reset_is_new r = refl

run_load-forget :
    (w : World) (o : Options) (calls : List Call)
    → forget (run_load (record w { warmup = calls }) o) ≡ forget (run_load w o)
unfolding run_load
run_load-forget w o calls = elim (Bool-cases (ltb_ℤ (pos 0) o.warmup)) [
  | inl warm ↦ rw warm (
      record_all-forget w.measured (reset_request_stats (record_all new_recorder calls))
        (reset_request_stats (record_all new_recorder w.warmup))
        (reset_is_new (record_all new_recorder calls)
          ∙ sym (reset_is_new (record_all new_recorder w.warmup))))
  | inr cold ↦ rw cold refl
]

report-forget : (w : World) (o : Options) (r : Recorder) → report w o r ≡ report w o (forget r)
unfolding summary counter_lines verdict
report-forget w o r = refl

same_report :
    (w : World) (o : Options) (calls : List Call)
    → report w o (run_load (record w { warmup = calls }) o) ≡ report w o (run_load w o)
same_report w o calls =
    report-forget w o (run_load (record w { warmup = calls }) o)
    ∙ ap (report w o) (run_load-forget w o calls)
    ∙ sym (report-forget w o (run_load w o))

with_options-warmup :
    (w : World) (calls : List Call) (p : Parsed Options)
    → with_options (record w { warmup = calls }) p ≡ with_options w p
with_options-warmup w calls (exits code) = refl
with_options-warmup w calls (parsed o) = rw (same_report w o calls) refl

-- Whatever happens during the warm-up, requests that fail, connections that are lost and ticks of the
-- open loop included: with the same measured traffic the exit, the error, or the report and the
-- verdict are the same.
pub main-warmup :
    (w : World) (args : List (List ℕ)) (calls : List Call)
    → main (record w { warmup = calls }) args ≡ main w args
unfolding main
main-warmup w args calls = with_options-warmup w calls (parse_config w.floats args)

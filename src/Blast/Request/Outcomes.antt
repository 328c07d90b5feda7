-- ===== src/Blast/Request/Outcomes.antt =====
-- internal/blast/blast.go, `doRequest`: how one request is counted.
use quicshot.Prelude.{
  one, ℕ, ◌+◌, ◌≡◌, Bool, true, false, ◌&&◌, ◌||◌, String, Option, none, some, leb, if◌then◌else◌,
  arith, not,
}
use quicshot.Blast.Recorder.Balance.{seen-push}
use quicshot.Blast.Request.{Attempt, do_request, drain_response}
use quicshot.Blast.Recorder.{
  Recorder, success, failure, record_proto, record_cf_code, record_dial_error, record_http_result,
  record_truncation, record_5xx,
}

abbrev is_some {ℓ} : {A : Type ℓ} → Option A → Bool
is_some none = false
is_some (some a) = true

-- A body is read if it is wanted or if the status is a server error; only then can it fail.
abbrev pub body_failed : Bool → Attempt → Bool
body_failed read_body a = (leb 500 a.status || read_body) && is_some a.copy_err

-- An error ended the request.
abbrev pub errored : Bool → Attempt → Bool
errored read_body a = is_some a.do_err || body_failed read_body a

abbrev pub was_abandoned : Bool → Attempt → Bool
was_abandoned read_body a = a.built && (errored read_body a && a.ctx_done)

abbrev pub has_failed : Bool → Attempt → Bool
has_failed read_body a =
    a.built && (if errored read_body a then not a.ctx_done else leb 500 a.status)

abbrev pub has_succeeded : Bool → Attempt → Bool
has_succeeded read_body a = a.built && (not (errored read_body a) && not (leb 500 a.status))

-- How each counter moves over one request: it is counted in exactly one way, and not at all if it
-- could not be built. It is abandoned if an error ended it when the run was over, a failure if an
-- error ended it before that or it got a server error, and a sample otherwise.
pub do_request_counts :
    (r : Recorder) (read_body : Bool) (conn worker : ℕ) (target : String) (a : Attempt)
    → let r' = do_request r read_body conn worker target a in
      (r'.abandoned ≡ r.abandoned + one (was_abandoned read_body a))
      × (r'.failures ≡ r.failures + one (has_failed read_body a))
      × (r'.lat.seen ≡ r.lat.seen + one (has_succeeded read_body a))
      × (r'.requests ≡ r.requests + one (has_failed read_body a) + one (has_succeeded read_body a))
unfolding do_request record_http_result record_truncation record_5xx record_dial_error failure
    success record_proto record_cf_code drain_response
do_request_counts r read_body conn worker target a = ground (arith, seen-push r.lat a.elapsed)

-- ===== src/Blast/Request.antt =====
-- internal/blast/blast.go, `doRequest`: one request from its start to its entry in the recorder.
pub mod Outcomes
use quicshot.Prelude.{
  ℕ, ◌+◌, ◌*◌, ◌/◌, Bool, ◌&&◌, String, List, [], ◌∷◌, ◌++◌, Option, none, some, ltb, leb, ◌==◌,
  length, take, get_or, if◌then◌else◌,
}
use quicshot.Prelude.Int.{ℤ, pos, pos_part, ◌*ℤ◌, ltb_ℤ, leb_ℤ}
use quicshot.Prelude.Maps.{bump, string_key, nat_key}
use quicshot.Quicerr.{Kind, Detail, Err, classify, close_reason}
use quicshot.Blast.CfCode.{parse_cf_code}
use quicshot.Blast.Hist.{LatencyHist, new_latency_hist, push}
use quicshot.Blast.Recorder.{
  Recorder, Event, EventDetail, blank, EventName, request, HttpResult, record_proto,
  record_dial_error, record_http_result,
}

-- What arrived of the body before the copy ended, and the bytes counted, the Cloudflare code and the
-- error of `drainResponse`.
unfoldable pub drain_response : ℕ → Bool → List ℕ → Option Err → ℕ × ℕ × Option Err
drain_response status read_body body copy_err =
    if leb 500 status
    then (length (take 2048 body), parse_cf_code (take 2048 body), copy_err)
    else if read_body
    then (length body, 0, copy_err)
    else (0, 0, none)

-- What the outside contributes to one request: whether the request could be built, what `client.Do`
-- returned, and whether the run was over when an error was met.
pub record Attempt : Type 0 where
  pub built : Bool
  pub do_err : Option Err
  pub ctx_done : Bool
  pub proto : String
  pub status : ℕ
  pub body : List ℕ
  pub copy_err : Option Err
  pub elapsed : ℕ
  pub ray : String

unfoldable pub do_request : Recorder → Bool → ℕ → ℕ → String → Attempt → Recorder
do_request r read_body conn worker target a =
    if a.built
    then elim a.do_err [
      | some err ↦ record_dial_error r a.ctx_done err base
      | none ↦
          let (n, code, err) = drain_response a.status read_body a.body a.copy_err in
          record_http_result (record_proto r a.proto) a.ctx_done (record {
            err = err;
            cf_code = code;
            elapsed = a.elapsed;
            ray = a.ray;
            event = record base { status = a.status; bytes = n };
          })
    ]
    else r
  where
    base : Event
    base = record {
      event = request;
      conn = conn;
      worker = worker;
      url = target;
      status = 0;
      bytes = 0;
      latency_ms = a.elapsed / 1000000;
      kind = none;
      detail = blank;
    }

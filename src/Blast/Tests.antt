-- ===== src/Blast/Tests.antt =====
-- internal/blast at concrete inputs.
use quicshot.Prelude.{
  one, ℕ, ◌+◌, ◌*◌, ◌≤◌, ◌<◌, ◌≡◌, refl, true, false, List, [], ◌∷◌, Option, none, some, get_elem?,
  arith,
}
use quicshot.Prelude.Bytes.{codes, is_prefix}
use quicshot.Prelude.Int.{pos}
use quicshot.Quicerr.{Err, idle_link}
use quicshot.Blast.Hist.Window.{fill, fill_keeps_oldest}
use quicshot.Blast.CfCode.{error_body, parse_cf_code}
use quicshot.Blast.CfCode.RoundTrip.{parse_cf_code-error_body}
use quicshot.Blast.Recorder.{Recorder, new_recorder}
use quicshot.Blast.Request.{Attempt, do_request}
use quicshot.Blast.Recorder.Balance.{
  Balanced, Call, requested, lost, warmed_up, record_all, record_all-Balanced,
}
use quicshot.Blast.Request.Outcomes.{was_abandoned, has_failed, has_succeeded, do_request_counts}
use quicshot.Blast.Recorder.Verdicts.{Percent}
use quicshot.Blast.Load.{TokenPacer, worker_test, worker_done, open_tick, open_done}
use quicshot.Blast.Load.Pacing.{starts_at, Spaced, NotBefore, starts_at-Spaced}
use quicshot.Blast.Load.Closed
use quicshot.Blast.Load.Open
use quicshot.Blast.Config.{
  Config, load_payload, load_body, url_parts, split, trim_space, trim_right, trim_left,
  file_targets, loaded,
}

-- A buffer for three samples, the sample k being 10 * k.
abbrev tens : ℕ → ℕ
tens k = 10 * k

fill_keeps_oldest_example :
    (get_elem? (fill 3 tens 5).samples 0 ≡ some 10)
    × (get_elem? (fill 3 tens 5).samples 1 ≡ some 40)
fill_keeps_oldest_example = fill_keeps_oldest 3 tens 5 (omega arith) (omega arith) (omega arith)

parse_cf_code-error_body_example :
    parse_cf_code (error_body 1033 (codes "no connector registered")) ≡ 1033
parse_cf_code-error_body_example =
    parse_cf_code-error_body 1033 (codes "no connector registered") (omega arith)

abbrev served : Attempt
served = record {
  built = true;
  do_err = none;
  ctx_done = false;
  proto = "HTTP/3.0";
  status = 200;
  body = codes "hello";
  copy_err = none;
  elapsed = 7000000;
  ray = "";
}

-- A 502 of the edge, with its code in the body.
abbrev refused : Attempt
refused = record served { status = 502; body = codes "error code: 1033\nx\n" }

abbrev idle_out : Err
idle_out = record { text = codes "timeout: no recent network activity"; chain = idle_link ∷ [] }

abbrev calls : List Call
calls =
    warmed_up
    ∷ requested true 0 0 "u" served
    ∷ requested true 0 1 "u" refused
    ∷ lost 0 (some idle_out)
    ∷ []

record_all-Balanced_example : Balanced (record_all new_recorder calls)
record_all-Balanced_example = record_all-Balanced calls

do_request_counts_example :
    let r' = do_request new_recorder true 0 1 "u" refused in
    (r'.abandoned ≡ new_recorder.abandoned + one (was_abandoned true refused))
    × (r'.failures ≡ new_recorder.failures + one (has_failed true refused))
    × (r'.lat.seen ≡ new_recorder.lat.seen + one (has_succeeded true refused))
    × (r'.requests
        ≡ new_recorder.requests + one (has_failed true refused) + one (has_succeeded true refused))
do_request_counts_example = do_request_counts new_recorder true 0 1 "u" refused

-- At most 5 %.
abbrev five_percent : Percent
five_percent = record { num = pos 5; den = 1 }

abbrev some_failed : Recorder
some_failed = record new_recorder { requests = 10; failures = 1; conn_drops = 2 }

abbrev every_ten : TokenPacer
every_ten = record { interval = 10; next = none }

starts_at-Spaced_example :
    Spaced 10 (starts_at every_ten (100 ∷ 101 ∷ 99 ∷ []))
    × NotBefore (100 ∷ 101 ∷ 99 ∷ []) (starts_at every_ten (100 ∷ 101 ∷ 99 ∷ []))
starts_at-Spaced_example = starts_at-Spaced every_ten (100 ∷ 101 ∷ 99 ∷ [])

-- One worker does its one request and stops.
all_stopped_example :
    let w =
      worker_test 1 false true (worker_done true (worker_test 1 false true (Closed.start 1))) in
    (0 < 1) × (1 ≤ w.requests) × (w.requests < 1 + 1)
unfolding worker_test worker_done
all_stopped_example =
    Closed.all_stopped 1 1 (omega arith)
      (Closed.next
        (Closed.next (Closed.next Closed.here (Closed.test false true (omega arith)))
          (Closed.done true (ground arith)))
        (Closed.test false true (ground arith)))
      refl refl refl

reachable-Accounted_example :
    Open.Accounted 5 1 (open_done (open_tick 5 1 2 true (open_tick 5 1 2 true Open.start).1).1)
unfolding open_tick
reachable-Accounted_example = Open.reachable-Accounted 5 1 2 (
    Open.next (Open.next (Open.next Open.here (Open.tick true)) (Open.tick true))
      (Open.done (ground arith)))

abbrev config : Config
config = record {
  target = codes "https://edge/";
  urls = codes " https://edge/a , ,https://edge/b";
  targets = [];
  conns = pos 9223372036854775807;
  workers = pos 2;
  mode = codes "closed";
  rps_num = pos 0;
  max_inflight = pos 0;
  body_str = [];
  body_file = [];
  urls_file = codes "urls.txt";
  body = [];
}

abbrev read_file : List ℕ → Option (List ℕ)
read_file path = some (codes "# more\nhttps://edge/c\n")

abbrev all_targets : List (List ℕ)
all_targets =
    codes "https://edge/"
    ∷ codes "https://edge/a"
    ∷ codes "https://edge/b"
    ∷ codes "https://edge/c"
    ∷ []

load_payload-config :
    load_payload read_file config ≡ loaded (record config { targets = all_targets })
unfolding load_payload load_body url_parts split trim_space trim_right trim_left file_targets
    is_prefix
load_payload-config = refl

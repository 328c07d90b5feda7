-- ===== src/Ui/Api.antt =====
-- internal/ui/ui.go, the API handlers around the command lines: `handleStack`, `handleImpair`,
-- `handleRun`, `handleReset`, `handleStop`, with `startLogged` and `httpErr`. A request is what
-- `json.Decoder` makes of its body, `none` where it fails; a started command is a value.
pub mod Allowed
pub mod Effects
mod Tests
use quicshot.Prelude.{ℕ, List, [], ◌∷◌, ◌++◌, Option, none, some, Bool, true, false}
use quicshot.Prelude.Bytes.{codes}
use quicshot.Ui.Commands.{CommandError, Checked, ok, refused}
use quicshot.Ui.Commands.Stack.{StackReq, EnvVar, stack_command}
use quicshot.Ui.Commands.Impair.{ImpairReq, build_impair_command}
use quicshot.Ui.Commands.Run.{RunReq}
use quicshot.Ui.Commands.Run.Plan.{Host, Command, handle_run}
use quicshot.Ui.Flow.{FlowState, reset_flow}
use quicshot.Ui.Health.{impair_label}
use quicshot.Ui.RunSlot.{Runs, Started, already_running, started, start, handle_stop}

-- The order in which the map of settings is ranged over, what a run depends on, and the path of
-- scripts/impair.sh.
pub record Outside : Type 0 where
  pub order : List EnvVar
  pub host : Host
  pub impair_script : List ℕ

pub record Server : Type 0 where
  pub runs : Runs
  pub flow : FlowState
  pub impair : List ℕ

-- What the goroutine of a run executes, with the name of the run and the source of its lines.
pub record Job : Type 0 where
  pub name : List ℕ
  pub src : List ℕ
  pub env : List (List ℕ)
  pub bin : List ℕ
  pub argv : List (List ℕ)

pub data Why : Type 0 where
  bad_json run_in_progress : Why
  bad_command : CommandError → Why

-- 202, 204 and 400.
pub data Reply : Type 0 where
  accepted no_content : Reply
  bad_request : Why → Reply

pub record Served : Type 0 where
  pub reply : Reply
  pub server : Server
  pub job : Option Job

abbrev pub refuse : Why → Server → Served
refuse why s = record { reply = bad_request why; server = s; job = none }

abbrev pub begin_in : Started × Runs → Job → Server → Served
begin_in (already_running, runs) job s = refuse run_in_progress s
begin_in (started, runs) job s = record {
  reply = accepted;
  server = record s { runs = runs };
  job = some job;
}

-- The handlers behind the decoding: a command that is refused starts nothing.
abbrev pub begin : Checked Job → Server → Served
begin (refused why) s = refuse (bad_command why) s
begin (ok job) s = begin_in (start s.runs job.name) job s

abbrev pub stack_job : StackReq → Checked (List (List ℕ) × List (List ℕ)) → Checked Job
stack_job req (refused why) = refused why
stack_job req (ok (env, args)) = ok (record {
  name = codes "stack:" ++ req.action;
  src = codes "ui";
  env = env;
  bin = codes "docker";
  argv = args;
})

abbrev pub impair_job : Outside → ImpairReq → Checked (List (List ℕ)) → Checked Job
impair_job o req (refused why) = refused why
impair_job o req (ok args) = ok (record {
  name = codes "impair:" ++ (req.service ++ (codes ":" ++ req.mode));
  src = codes "ui";
  env = [];
  bin = o.impair_script;
  argv = args;
})

abbrev pub run_job : RunReq → Checked Command → Checked Job
run_job req (refused why) = refused why
run_job req (ok c) =
    ok (record { name = req.tool; src = req.tool; env = []; bin = c.bin; argv = c.argv })

-- The label of the diagram is set once the script has been started, whatever becomes of it.
abbrev pub label_on : Reply → ImpairReq → Server → Server
label_on accepted req s = record s { impair = impair_label req }
label_on no_content req s = s
label_on (bad_request why) req s = s

abbrev pub with_label : ImpairReq → Served → Served
with_label req r = record r { server = label_on r.reply req r.server }

unfoldable pub handle_stack : Outside → Option StackReq → Server → Served
handle_stack o none s = refuse bad_json s
handle_stack o (some req) s = begin (stack_job req (stack_command o.order req)) s

unfoldable pub handle_impair : Outside → Option ImpairReq → Server → Served
handle_impair o none s = refuse bad_json s
handle_impair o (some req) s =
    with_label req (begin (impair_job o req (build_impair_command req)) s)

unfoldable pub handle_run_start : Outside → Option RunReq → Server → Served
handle_run_start o none s = refuse bad_json s
handle_run_start o (some req) s = begin (run_job req (handle_run o.host req)) s

unfoldable pub handle_reset : Server → Served
handle_reset s = record {
  reply = no_content;
  server = record s { flow = reset_flow s.flow };
  job = none;
}

unfoldable pub handle_stop_request : Server → Served
handle_stop_request s = record {
  reply = no_content;
  server = record s { runs = handle_stop s.runs };
  job = none;
}

pub data ApiCall : Type 0 where
  stack : Option StackReq → ApiCall
  impair : Option ImpairReq → ApiCall
  run : Option RunReq → ApiCall
  reset stop : ApiCall

-- The routes of `Main`.
unfoldable pub serve : Outside → ApiCall → Server → Served
unfolding handle_stack handle_impair handle_run_start handle_reset handle_stop_request
serve o (stack body) s = handle_stack o body s
serve o (impair body) s = handle_impair o body s
serve o (run body) s = handle_run_start o body s
serve o reset s = handle_reset s
serve o stop s = handle_stop_request s

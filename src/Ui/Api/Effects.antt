-- ===== src/Ui/Api/Effects.antt =====
-- internal/ui/ui.go: what a call of the API does to the panel, and which commands it starts.
use quicshot.Prelude.{◌≡◌, refl, sym, ◌∙◌, ap, ◌⊎◌, inl, inr, Option, none, some, true}
use quicshot.Ui.Commands.{Checked, ok, refused}
use quicshot.Ui.Commands.Stack.{stack_command}
use quicshot.Ui.Commands.Impair.{ImpairReq, build_impair_command}
use quicshot.Ui.Commands.Run.Plan.{handle_run}
use quicshot.Ui.Flow.{reset_flow}
use quicshot.Ui.RunSlot.{Run, start, start_in, cancel, handle_stop}
use quicshot.Ui.Api.{
  Outside, Server, Job, Why, Reply, accepted, no_content, bad_request, bad_command, bad_json,
  run_in_progress, Served, begin, begin_in, stack_job, impair_job, run_job, ApiCall, stack, impair,
  run, reset, stop, serve, with_label, label_on,
}
use quicshot.Ui.Api.Allowed.{
  IsAllowed, IfAllowed, stack-IfAllowed, impair-IfAllowed, run-IfAllowed, handle_run-IfRun,
}

-- What a request for a command does: it starts an allowed command in the free slot, or it is refused and
-- changes nothing.
abbrev pub Tries : Outside → Server → Served → Type 0
Tries o s r =
    ((j : Job) × (r.job ≡ some j)
      × (r.reply ≡ accepted)
      × (s.runs.slot ≡ none)
      × (r.server.runs ≡ (start s.runs j.name).1)
      × (r.server.flow ≡ s.flow)
      × IsAllowed o j)
    ⊎ ((why : Why) × (r.job ≡ none) × (r.reply ≡ bad_request why) × (r.server ≡ s))

-- The run in the slot is cancelled, and stays there.
abbrev pub IsCanceled : Option Run → Option Run → Type 0
IsCanceled none after = after ≡ none
IsCanceled (some r) after = after ≡ some (record { id = r.id; name = r.name; canceled = true })

abbrev pub Settles : Served → Type 0
Settles r = (r.job ≡ none) × (r.reply ≡ no_content)

-- By the call.
abbrev pub Does : Outside → ApiCall → Server → Served → Type 0
Does o (stack body) s r = Tries o s r
Does o (impair body) s r = Tries o s r
Does o (run body) s r = Tries o s r
Does o reset s r =
    Settles r
    × (r.server.runs ≡ s.runs)
    × (r.server.impair ≡ s.impair)
    × (r.server.flow ≡ reset_flow s.flow)
Does o stop s r =
    Settles r
    × IsCanceled s.runs.slot r.server.runs.slot
    × (r.server.runs.running ≡ s.runs.running)
    × (r.server.runs.next ≡ s.runs.next)
    × (r.server.impair ≡ s.impair)
    × (r.server.flow ≡ s.flow)

cancel-IsCanceled : (slot : Option Run) → IsCanceled slot (cancel slot)
cancel-IsCanceled none = refl
cancel-IsCanceled (some r) = refl

slot-Tries :
    (o : Outside) (s : Server) (j : Job) (x : Option Run)
    → s.runs.slot ≡ x
    → IsAllowed o j
    → Tries o s (begin_in (start_in x j.name s.runs) j s)
unfolding start
slot-Tries o s j (some r) e h = inr (run_in_progress, refl, refl, refl)
slot-Tries o s j none e h =
    inl (j, refl, refl, e, ap (λ x. (start_in x j.name s.runs).1) (sym e), refl, h)

begin-Tries : (o : Outside) (s : Server) (c : Checked Job) → IfAllowed o c → Tries o s (begin c s)
unfolding start
begin-Tries o s (refused why) h = inr (bad_command why, refl, refl, refl)
begin-Tries o s (ok j) h = slot-Tries o s j s.runs.slot refl h

label_on-runs : (x : Reply) (req : ImpairReq) (s : Server) → (label_on x req s).runs ≡ s.runs
label_on-runs accepted req s = refl
label_on-runs no_content req s = refl
label_on-runs (bad_request why) req s = refl

label_on-flow : (x : Reply) (req : ImpairReq) (s : Server) → (label_on x req s).flow ≡ s.flow
label_on-flow accepted req s = refl
label_on-flow no_content req s = refl
label_on-flow (bad_request why) req s = refl

with_label-Tries :
    (o : Outside) (s : Server) (req : ImpairReq) (r : Served)
    → Tries o s r
    → Tries o s (with_label req r)
with_label-Tries o s req r (inl (j, job, reply, slot, runs, flow, allowed)) = inl (
  j,
  job,
  reply,
  slot,
  label_on-runs r.reply req r.server ∙ runs,
  label_on-flow r.reply req r.server ∙ flow,
  allowed,
)
with_label-Tries o s req r (inr (why, job, reply, same)) =
    inr (why, job, reply, ap (λ x. label_on x req r.server) reply ∙ same)

-- A call of the API, whatever its body holds. One for the stack, an impairment or a run answers 202, and
-- has then started one command in the slot that was free: `docker compose` with one of four fixed
-- calls or a scale of at most ten connectors, and with durations and a load balancing mode in its
-- environment; the impairment script on values of netem; or a tool with a checked URL or with flags
-- only. Or it answers 400 and has changed nothing. A reset answers 204 and resets the counters alone; a
-- stop answers 204 and cancels the run in the slot, which stays there until it has returned.
pub serve-Does : (o : Outside) (c : ApiCall) (s : Server) → Does o c s (serve o c s)
unfolding serve handle_stop
serve-Does o (stack none) s = inr (bad_json, refl, refl, refl)
serve-Does o (impair none) s = inr (bad_json, refl, refl, refl)
serve-Does o (run none) s = inr (bad_json, refl, refl, refl)
serve-Does o (stack (some req)) s =
    begin-Tries o s (stack_job req (stack_command o.order req))
      (stack-IfAllowed o req (stack_command o.order req) refl)
serve-Does o (impair (some req)) s =
    with_label-Tries o s req (begin (impair_job o req (build_impair_command req)) s) (
      begin-Tries o s (impair_job o req (build_impair_command req))
        (impair-IfAllowed o req (build_impair_command req) refl))
serve-Does o (run (some req)) s =
    begin-Tries o s (run_job req (handle_run o.host req))
      (run-IfAllowed o req (handle_run o.host req) (handle_run-IfRun o.host req))
serve-Does o reset s = ((refl, refl), refl, refl, refl)
serve-Does o stop s = ((refl, refl), cancel-IsCanceled s.runs.slot, refl, refl, refl, refl)

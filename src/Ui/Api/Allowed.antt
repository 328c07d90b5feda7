-- ===== src/Ui/Api/Allowed.antt =====
-- internal/ui/ui.go: which programs the panel starts.
use quicshot.Prelude.{
  ℕ, ◌≡◌, refl, sym, subst, ◌⊎◌, inl, inr, Bool, ◌||◌, List, [], ◌∷◌, ◌++◌, Option, none, some,
  is_empty, Bool-cases,
}
use quicshot.Prelude.Bytes.{codes, bytes_eq, bytes_eq_iff}
use quicshot.Prelude.Members.{Member, All}
use quicshot.Ui.Commands.{Checked, ok, refused, bad_tool, one_of}
use quicshot.Ui.Commands.Values.{one_of_iff}
use quicshot.Ui.Commands.Stack.{StackReq, stack_command}
use quicshot.Ui.Commands.Stack.Safe.{IsSetting, IsComposeCall, stack_command_safe}
use quicshot.Ui.Commands.Impair.{ImpairReq, build_impair_command}
use quicshot.Ui.Commands.Impair.Accepts.{Accepted, build_impair_command_lem}
use quicshot.Ui.Commands.Run.{
  RunReq, Url, safe_url, safe_parsed, tools, check_headers, validate_run_request, flag_if,
  build_run_args,
}
use quicshot.Ui.Commands.Run.Flags.{IsFlag, build_run_args_flags}
use quicshot.Ui.Commands.Run.Plan.{
  Host, Command, self_command, resolve_run_command, resolve_all, plan_run, after_checks, handle_run,
}
use quicshot.Ui.Api.{Outside, Job, stack_job, impair_job, run_job}

abbrev compose_run : List (List ℕ)
compose_run =
    codes "compose" ∷ codes "run" ∷ codes "--build" ∷ codes "--rm" ∷ codes "-T" ∷ codes "blast" ∷ []

-- An absolute HTTP URL, as the parser prints it.
abbrev pub IsTarget : Host → List ℕ → Type 0
IsTarget host t =
    (s : List ℕ) × (u : Url) × (host.parse s ≡ some u)
    × ((u.scheme ≡ codes "http") ⊎ (u.scheme ≡ codes "https"))
    × (t ≡ u.text)

-- A browser script on a tool and a target, or the tool with flags only, in its container or by the
-- panel's own executable.
abbrev pub IsRun : Host → Command → Type 0
IsRun host c =
    ((tool t : List ℕ) × (b : Bool) × Member tool tools
      × IsTarget host t
      × (c.bin ≡ host.script)
      × (c.argv ≡ tool ∷ t ∷ flag_if b (codes "--insecure")))
    ⊎ ((tool : List ℕ) × (fs : List (List ℕ)) × Member tool tools
        × All IsFlag fs
        × (((c.bin ≡ codes "docker") × (c.argv ≡ compose_run ++ (tool ∷ fs)))
            ⊎ ((host.executable ≡ some c.bin) × (c.argv ≡ tool ∷ fs))))

abbrev pub IfRun : Host → Checked Command → Type 0
IfRun host (ok c) = IsRun host c
IfRun host (refused why) = Unit {0}

abbrev IfTarget : Host → Checked (List ℕ) → Type 0
IfTarget host (ok t) = IsTarget host t
IfTarget host (refused why) = Unit {0}

module _ (host : Host) (req : RunReq) (m : Member req.tool tools) where
  own_executable :
      (x : Option (List ℕ)) (fs : List (List ℕ))
      → host.executable ≡ x
      → All IsFlag fs
      → IfRun host (self_command x (req.tool ∷ fs))
  own_executable none fs e a = tt
  own_executable (some self) fs e a = inr (req.tool, fs, m, a, inr (e, refl))

  resolve-IfRun :
      (fs : List (List ℕ))
      → All IsFlag fs
      → IfRun host (resolve_run_command host req.runner (req.tool ∷ fs))
  unfolding resolve_run_command
  resolve-IfRun fs a = elim (Bool-cases (bytes_eq req.runner (codes "host"))) [
    | inl h ↦ rw h (own_executable host.executable fs refl a)
    | inr d ↦ rw d (inr (req.tool, fs, m, a, inl (refl, refl)))
  ]

  resolve_all-IfRun :
      (target : List ℕ) (r : Checked (List (List ℕ)))
      → build_run_args host.format_float req target ≡ r
      → IfRun host (resolve_all host req.runner r)
  resolve_all-IfRun target (refused why) e = tt
  resolve_all-IfRun target (ok args) e =
      let (fs, split, a) = build_run_args_flags host.format_float req target args e in
      subst (λ l. IfRun host (resolve_run_command host req.runner l)) (sym split)
        (resolve-IfRun fs a)

  plan_run-IfRun : (target : List ℕ) → IsTarget host target → IfRun host (plan_run host req target)
  unfolding plan_run
  plan_run-IfRun target t =
      elim (Bool-cases (bytes_eq req.tool (codes "curl") || bytes_eq req.tool (codes "chrome"))) [
        | inl s ↦ rw s (inl (req.tool, target, req.insecure || req.local_certs, m, t, refl, refl))
        | inr f ↦ rw f (resolve_all-IfRun target (build_run_args host.format_float req target) refl)
      ]

  checked-IfRun :
      (t : Checked (List ℕ)) (v : Checked (List (List ℕ)))
      → IfTarget host t
      → IfRun host (after_checks host req t v)
  checked-IfRun (refused why) v h = tt
  checked-IfRun (ok target) (refused why) h = tt
  checked-IfRun (ok target) (ok headers) h = plan_run-IfRun target h

safe_url-IfTarget :
    (host : Host) (s : List ℕ) (p : Option Url) → host.parse s ≡ p → IfTarget host (safe_parsed p)
safe_url-IfTarget host s none e = tt
safe_url-IfTarget host s (some u) e = elim (Bool-cases (bytes_eq u.scheme (codes "http"))) [
  | inl h ↦ elim (Bool-cases (is_empty u.host)) [
    | inl b ↦ rw (h, b) tt
    | inr b ↦ rw (h, b) (s, u, e, inl ((bytes_eq_iff u.scheme (codes "http")).0 h), refl)
  ]
  | inr n ↦ elim (Bool-cases (bytes_eq u.scheme (codes "https"))) [
    | inr k ↦ rw (n, k) tt
    | inl h ↦ elim (Bool-cases (is_empty u.host)) [
      | inl b ↦ rw (n, h, b) tt
      | inr b ↦ rw (n, h, b) (s, u, e, inr ((bytes_eq_iff u.scheme (codes "https")).0 h), refl)
    ]
  ]
]

url-IfTarget : (host : Host) (s : List ℕ) → IfTarget host (safe_url host.parse s)
unfolding safe_url
url-IfTarget host s = elim (Bool-cases (is_empty s)) [
  | inl e ↦ rw e tt
  | inr f ↦ rw f (safe_url-IfTarget host s (host.parse s) refl)
]

no_tool-IfRun :
    (host : Host) (req : RunReq) (t : Checked (List ℕ))
    → IfRun host (after_checks host req t (refused bad_tool))
no_tool-IfRun host req (refused why) = tt
no_tool-IfRun host req (ok target) = tt

pub handle_run-IfRun : (host : Host) (req : RunReq) → IfRun host (handle_run host req)
unfolding handle_run validate_run_request
handle_run-IfRun host req = elim (Bool-cases (one_of tools req.tool)) [
  | inl y ↦ rw y (
      checked-IfRun host req ((one_of_iff tools req.tool).0 y) (safe_url host.parse req.url)
        (check_headers req.headers) (url-IfTarget host req.url))
  | inr n ↦ rw n (no_tool-IfRun host req (safe_url host.parse req.url))
]

-- `docker compose` with one of its calls and settings, the impairment script on values of netem, or a
-- run.
abbrev pub IsAllowed : Outside → Job → Type 0
IsAllowed o j =
    ((j.bin ≡ codes "docker") × All IsSetting j.env × IsComposeCall j.argv)
    ⊎ ((req : ImpairReq) × (j.bin ≡ o.impair_script) × (j.env ≡ []) × Accepted req j.argv)
    ⊎ ((j.env ≡ []) × IsRun o.host (record { bin = j.bin; argv = j.argv }))

abbrev pub IfAllowed : Outside → Checked Job → Type 0
IfAllowed o (ok j) = IsAllowed o j
IfAllowed o (refused why) = Unit {0}

pub stack-IfAllowed :
    (o : Outside) (req : StackReq) (r : Checked (List (List ℕ) × List (List ℕ)))
    → stack_command o.order req ≡ r
    → IfAllowed o (stack_job req r)
stack-IfAllowed o req (refused why) e = tt
stack-IfAllowed o req (ok (env, args)) e =
    let (settings, call) = stack_command_safe o.order req env args e in inl (refl, settings, call)

pub impair-IfAllowed :
    (o : Outside) (req : ImpairReq) (r : Checked (List (List ℕ)))
    → build_impair_command req ≡ r
    → IfAllowed o (impair_job o req r)
impair-IfAllowed o req (refused why) e = tt
impair-IfAllowed o req (ok args) e =
    inr (inl (req, refl, refl, (build_impair_command_lem req args).0 e))

pub run-IfAllowed :
    (o : Outside) (req : RunReq) (r : Checked Command)
    → IfRun o.host r
    → IfAllowed o (run_job req r)
run-IfAllowed o req (refused why) h = tt
run-IfAllowed o req (ok c) h = inr (inr (refl, h))

-- ===== src/Ui/Commands/Run/Plan.antt =====
-- internal/ui/ui.go, `planRun` and `handleRun`: the program that a request for a run starts.
use quicshot.Prelude.{ℕ, ◌||◌, List, [], ◌∷◌, ◌++◌, Option, none, some, if◌then◌else◌}
use quicshot.Prelude.Bytes.{codes, bytes_eq}
use quicshot.Prelude.Int.{ℤ}
use quicshot.Ui.Commands.{no_executable, Checked, ok, refused}
use quicshot.Ui.Commands.Run.{RunReq, Url, safe_url, validate_run_request, flag_if, build_run_args}

-- The outside: `url.Parse`, `strconv.FormatFloat`, the path of scripts/h3-clients.sh, and what
-- `os.Executable` returns.
pub record Host : Type 0 where
  pub parse : List ℕ → Option Url
  pub format_float : ℤ → ℕ → List ℕ
  pub script : List ℕ
  pub executable : Option (List ℕ)

pub record Command : Type 0 where
  pub bin : List ℕ
  pub argv : List (List ℕ)

abbrev pub self_command : Option (List ℕ) → List (List ℕ) → Checked Command
self_command none args = refused no_executable
self_command (some self) args = ok (record { bin = self; argv = args })

unfoldable pub resolve_run_command : Host → List ℕ → List (List ℕ) → Checked Command
resolve_run_command host runner args =
    if bytes_eq runner (codes "host")
    then self_command host.executable args
    else ok (record {
      bin = codes "docker";
      argv =
          (codes "compose"
            ∷ codes "run"
            ∷ codes "--build"
            ∷ codes "--rm"
            ∷ codes "-T"
            ∷ codes "blast"
            ∷ [])
          ++ args;
    })

abbrev pub resolve_all : Host → List ℕ → Checked (List (List ℕ)) → Checked Command
resolve_all host runner (refused why) = refused why
resolve_all host runner (ok args) = resolve_run_command host runner args

unfoldable pub plan_run : Host → RunReq → List ℕ → Checked Command
plan_run host req target =
    if bytes_eq req.tool (codes "curl") || bytes_eq req.tool (codes "chrome")
    then ok (record {
      bin = host.script;
      argv = req.tool ∷ target ∷ flag_if (req.insecure || req.local_certs) (codes "--insecure");
    })
    else resolve_all host req.runner (build_run_args host.format_float req target)

abbrev pub after_checks :
    Host → RunReq → Checked (List ℕ) → Checked (List (List ℕ)) → Checked Command
after_checks host req (refused why) headers = refused why
after_checks host req (ok target) (refused why) = refused why
after_checks host req (ok target) (ok headers) = plan_run host req target

-- `handleRun` up to the start of the program.
unfoldable pub handle_run : Host → RunReq → Checked Command
handle_run host req = after_checks host req (safe_url host.parse req.url) (validate_run_request req)

-- ===== src/Blast/Options/Panel.antt =====
-- internal/ui/ui.go (`buildRunArgs`) and internal/blast/blast.go (`parseConfig`): the configuration of a
-- run that the panel starts.
use mathlib.Core.Path.{ap₂}
use quicshot.Blast.Config.{validate}
use quicshot.Prelude.{
  ℕ, ◌≡◌, refl, subst, Bool, true, false, List, ◌∷◌, none, some, if◌then◌else◌, ◌↔◌, ◌⊎◌, ◌<◌,
}
use quicshot.Prelude.Bytes.{codes, bytes_eq, bytes_eq_iff}
use quicshot.Prelude.Int.{ℤ, pos, ◌≤ℤ◌}
use quicshot.Flags.{parsed}
use quicshot.Flags.Durations.{two_63}
use quicshot.Flags.Reads.{parse-Reads}
use quicshot.Flags.Whole.{duration_value}
use quicshot.Blast.Options.{Options, Floats, defaults, blast_flag_set, parse_config, config_of}
use quicshot.Ui.Commands.{Checked, ok, refused}
use quicshot.Ui.Commands.Run.{RunReq, for_tool, build_run_args}
use quicshot.Blast.Options.Wanted.{wanted}
use quicshot.Blast.Options.Groups.{IfTakes, as_read, args-IfTakes}
use quicshot.Blast.Options.Accepted.{validate-wanted}

as_is : (b : Bool) → (if b then true else false) ≡ b
as_is true = refl
as_is false = refl

as_read_lem :
    (fl : Floats) (ff : ℤ → ℕ → List ℕ) (req : RunReq) (o : Options) → as_read fl ff req o ≡ o
as_read_lem fl ff req o =
    ap₂ (λ i p. record o { insecure = i; probe_0rtt = p }) (as_is o.insecure) (as_is o.probe_0rtt)

-- The name of the tool, and then flags by which blast gets the configuration `o`.
abbrev IfRuns : Floats → List ℕ → Options → Checked (List (List ℕ)) → Type 0
IfRuns fl tool o (ok args) =
    (fs : List (List ℕ)) × (args ≡ tool ∷ fs) × (parse_config fl fs ≡ parsed o)
IfRuns fl tool o (refused why) = Unit {0}

for_tool-IfRuns :
    (fl : Floats) (tool : List ℕ) (o : Options) (r : Checked (List (List ℕ)))
    → IfTakes fl r defaults o
    → IfRuns fl tool o (for_tool tool r)
unfolding parse_config
for_tool-IfRuns fl tool o (ok fs) t = (fs, refl, parse-Reads (blast_flag_set fl) fs defaults o t)
for_tool-IfRuns fl tool o (refused why) t = tt

-- The panel and blast agree on a run: where the panel accepts a request for blast, whose durations fit
-- an int64 of nanoseconds and whose rate is read as it was printed, its arguments are the name of the
-- tool and flags that blast reads as exactly the configuration that the request means. Its checks
-- refuse this only if the mode is "open" and no rate is given.
pub parse_config-build_run_args :
    (fl : Floats) (format_float : ℤ → ℕ → List ℕ) (req : RunReq) (target : List ℕ)
    (args : List (List ℕ))
    → req.tool ≡ codes "blast"
    → duration_value req.duration < two_63
    → duration_value req.timeout < two_63
    → duration_value req.keep_alive < two_63
    → duration_value req.max_idle < two_63
    → duration_value req.warmup < two_63
    → fl.parse_float (format_float req.rps_num req.rps_den) ≡ some (req.rps_num, req.rps_den)
    → build_run_args format_float req target ≡ ok args
    → ((fs : List (List ℕ)) × (args ≡ req.tool ∷ fs)
        × (parse_config fl fs ≡ parsed (wanted req target)))
      × ((validate (config_of (wanted req target)) ≡ none)
          ↔ ((bytes_eq req.mode (codes "open") ≡ false) ⊎ (pos 1 ≤ℤ req.rps_num)))
unfolding build_run_args
parse_config-build_run_args fl format_float req target args b d t k m u x e =
    let blast = (bytes_eq_iff req.tool (codes "blast")).1 b in
    let o = as_read fl format_float req (wanted req target) in
    (
      subst (λ p. IfRuns fl req.tool p (ok args))
          (as_read_lem fl format_float req (wanted req target))
          (subst (IfRuns fl req.tool o) e (
            for_tool-IfRuns fl req.tool o _
              (args-IfTakes fl format_float req target blast d t k m u x))),
      validate-wanted req target,
    )

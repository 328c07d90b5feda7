-- ===== src/Cli.antt =====
-- cmd/quicshot/main.go: the choice of a command by its name, and the exit code.
use quicshot.Prelude.{
  ℕ, Bool, true, false, String, List, [], ◌∷◌, Option, none, some, str_eq, if◌then◌else◌,
}
use quicshot.Prelude.Maps.{lookup, string_key}

pub data Role : Type 0 where
  gencerts origin connector edge blast probe ui : Role

-- Whether the usage text is printed, which command runs on which arguments, and the exit code.
pub record Outcome : Type 0 where
  pub usage : Bool
  pub ran : Option (Role × List String)
  pub exit_code : ℕ

-- The cases of the switch that run a command.
abbrev pub commands : List (String × Role)
commands =
    ("gencerts", gencerts)
    ∷ ("origin", origin)
    ∷ ("connector", connector)
    ∷ ("edge", edge)
    ∷ ("blast", blast)
    ∷ ("probe", probe)
    ∷ ("ui", ui)
    ∷ []

abbrev pub is_help : String → Bool
is_help name =
    if str_eq name "-h" then true else if str_eq name "--help" then true else str_eq name "help"

-- The first argument is whether the command's `Main` returns no error.
abbrev pub run_or_usage : (Role → List String → Bool) → Option Role → String → List String → Outcome
run_or_usage succeeds (some role) name args = record {
  usage = false;
  ran = some (role, args);
  exit_code = if succeeds role args then 0 else 1;
}
run_or_usage succeeds none name args = record {
  usage = true;
  ran = none;
  exit_code = if is_help name then 0 else 2;
}

-- On the arguments behind the program's name.
unfoldable pub main : (Role → List String → Bool) → List String → Outcome
main succeeds [] = record { usage = true; ran = none; exit_code = 2 }
main succeeds (name ∷ args) = run_or_usage succeeds (lookup name commands) name args

-- ===== src/Ui/Commands/Impair.antt =====
-- internal/ui/ui.go, `buildImpairCommand`: the arguments of scripts/impair.sh.

pub mod Accepts
use quicshot.Prelude.{is_empty, ℕ, ◌&&◌, ◌||◌, ◌∷◌, [], ◌++◌, Bool, List, not, if◌then◌else◌}
use quicshot.Prelude.Bytes.{codes, bytes_eq}
use quicshot.Ui.Commands.{
  with_arg, unknown_impairment, bad_netem, Checked, ok, refused, one_of, is_netem,
}

pub record ImpairReq : Type 0 where
  pub service : List ℕ
  pub mode : List ℕ
  pub a : List ℕ
  pub b : List ℕ
  pub burst : List ℕ

abbrev pub services : List (List ℕ)
services = codes "edge" ∷ codes "connector" ∷ codes "origin" ∷ []

abbrev pub netem_modes : List (List ℕ)
netem_modes = codes "loss" ∷ codes "delay" ∷ codes "rate" ∷ codes "reorder" ∷ codes "clear" ∷ []

-- `validateNetemInput` and the three appends behind it.
unfoldable pub netem_args : List (List ℕ) → Checked (List (List ℕ))
netem_args [] = ok []
netem_args (v ∷ vs) =
    let rest = netem_args vs in
    if is_empty v then rest else if is_netem v then with_arg v rest else refused (bad_netem v)

abbrev pub behind : List ℕ → List ℕ → Checked (List (List ℕ)) → Checked (List (List ℕ))
behind service mode (ok args) = ok (service ∷ mode ∷ args)
behind service mode (refused why) = refused why

unfoldable pub build_impair_command : ImpairReq → Checked (List (List ℕ))
build_impair_command req =
    if not (one_of services req.service) || not (one_of netem_modes req.mode)
    then refused unknown_impairment
    else if bytes_eq req.mode (codes "clear")
    then ok (req.service ∷ req.mode ∷ [])
    else behind req.service req.mode (netem_args (req.a ∷ req.b ∷ req.burst ∷ []))

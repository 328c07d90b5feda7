-- ===== src/Ui/Main.antt =====
-- internal/ui/ui.go, `Main` in front of the server, and `warnStaleImage`.
use quicshot.Prelude.{
  Bool, ◌||◌, ℕ, List, [], ◌∷◌, ◌++◌, Option, none, some, is_empty, if◌then◌else◌,
}
use quicshot.Prelude.Bytes.{codes, bytes_eq}
use quicshot.Blast.Config.{trim_space}

pub record Settings : Type 0 where
  pub addr : List ℕ
  pub dir : List ℕ

abbrev pub defaults : Settings
defaults = record { addr = codes "127.0.0.1:8088"; dir = codes "." }

-- The usage text is printed, or the panel runs.
pub data Read : Type 0 where
  help : Read
  panel : Settings → Read

abbrev pub is_help : List ℕ → Bool
is_help a = bytes_eq a (codes "-h") || bytes_eq a (codes "--help")

-- The loop over the arguments: what it does not know, and a flag without its value, is passed over.
unfoldable pub read_args : List (List ℕ) → Settings → Read
read_args [] s = panel s
read_args (a ∷ []) s = if is_help a then help else panel s
read_args (a ∷ b ∷ args) s =
    let at_addr = read_args args (record s { addr = b }) in
    let at_dir = read_args args (record s { dir = b }) in
    let next = read_args (b ∷ args) s in
    if bytes_eq a (codes "-addr")
    then at_addr
    else if bytes_eq a (codes "-dir")
    then at_dir
    else if is_help a
    then help
    else next

-- `warnStaleImage`: the line that it logs, if it does. The arguments are the outputs of git and docker,
-- `none` where they fail.
abbrev pub stale_line : List ℕ → List ℕ → Option (List ℕ)
stale_line w g =
    if is_empty g || bytes_eq g (codes "dev") || bytes_eq w g
    then none
    else some (
        codes "quicshot:local revision "
        ++ (g ++ (codes " != source " ++ (w ++ codes "; next blast/run will --build"))))

unfoldable pub warn_stale_image : Option (List ℕ) → Option (List ℕ) → Option (List ℕ)
warn_stale_image none got = none
warn_stale_image (some want) none = none
warn_stale_image (some want) (some got) = stale_line (trim_space want) (trim_space got)

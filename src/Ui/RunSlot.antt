-- ===== src/Ui/RunSlot.antt =====
-- internal/ui/ui.go, `start`, `handleStop` and the goroutine behind `start`: the single run slot.
pub mod Exclusive
use quicshot.Prelude.{
  ℕ, ◌+◌, ◌==◌, if◌then◌else◌, Bool, true, false, List, [], ◌∷◌, Option, none, some,
}

-- A run's context, with whether it has been cancelled.
pub record Run : Type 0 where
  pub id : ℕ
  pub name : List ℕ
  pub canceled : Bool

-- `slot` is `Server.cancel` and `Server.current`. `running` holds the runs whose goroutine has not
-- returned, `next` makes their identities.
pub record Runs : Type 0 where
  pub slot : Option Run
  pub running : List ℕ
  pub next : ℕ

pub data Started : Type 0 where
  already_running : Started
  started : Started

abbrev pub start_in : Option Run → List ℕ → Runs → Started × Runs
start_in (some r) name s = (already_running, s)
start_in none name s = (
  started,
  record s {
    slot = some (record { id = s.next; name = name; canceled = false });
    running = s.next ∷ s.running;
    next = s.next + 1;
  },
)

unfoldable pub start : Runs → List ℕ → Started × Runs
start s name = start_in s.slot name s

abbrev pub cancel : Option Run → Option Run
cancel none = none
cancel (some r) = some (record r { canceled = true })

unfoldable pub handle_stop : Runs → Runs
handle_stop s = record s { slot = cancel s.slot }

abbrev pub without : ℕ → List ℕ → List ℕ
without i [] = []
without i (j ∷ js) = if j == i then without i js else j ∷ without i js

-- `fn` has returned: the goroutine clears the slot, whoever holds it.
unfoldable pub finish : Runs → ℕ → Runs
finish s i = record s { slot = none; running = without i s.running }

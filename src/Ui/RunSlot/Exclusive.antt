-- ===== src/Ui/RunSlot/Exclusive.antt =====
-- internal/ui/ui.go: starts, stops and returning runs, interleaved. The end of a run clears the slot
-- without looking whose it is.
use quicshot.Prelude.{
  ℕ, ◌≡◌, refl, List, [], ◌∷◌, Option, none, some, ap, sym, subst, ◌∙◌, arith, inl, inr,
}
use quicshot.Prelude.Members.{Member}
use quicshot.Ui.RunSlot.{Run, Runs, start, start_in, cancel, without, handle_stop, finish}

-- A request to start, a request to stop, and the return of a run that is under way, interleaved.
pub data Step (s : Runs) : Runs → Type 0 where
  starts : (name : List ℕ) → Step s (start s name).1
  stops : Step s (handle_stop s)
  returns : (i : ℕ) → Member i s.running → Step s (finish s i)

pub data Reach (s : Runs) : Runs → Type 0 where
  here : Reach s s
  next : {t u : Runs} → Reach s t → Step t u → Reach s u

abbrev pub idle : Runs
idle = record { slot = none; running = []; next = 0 }

-- The slot is held by the one run under way, or is free and none is.
abbrev pub Holds : Option Run → List ℕ → Type 0
Holds none js = js ≡ []
Holds (some r) js = js ≡ r.id ∷ []

start_in-Holds :
    (o : Option Run) (name : List ℕ) (s : Runs)
    → s.slot ≡ o
    → Holds o s.running
    → Holds (start_in o name s).1.slot (start_in o name s).1.running
start_in-Holds none name s e h = ap (λ js. s.next ∷ js) h
start_in-Holds (some r) name s e h = subst (λ o. Holds o s.running) (sym e) h

cancel-Holds : (o : Option Run) (js : List ℕ) → Holds o js → Holds (cancel o) js
cancel-Holds none js h = h
cancel-Holds (some r) js h = h

without_self : (i : ℕ) → without i (i ∷ []) ≡ []
without_self i = grind arith

finish-Holds : (i : ℕ) (o : Option Run) (js : List ℕ) → Member i js → Holds o js → without i js ≡ []
finish-Holds i none js m h = ap (without i) h
finish-Holds i (some r) js m h = elim (subst (λ l. Member i l) h m) [
  | inl e ↦ ap (without i) h ∙ ap (λ j. without i (j ∷ [])) e ∙ without_self i
  | inr e ↦ elim e [ ]
]

Step-Holds : {s t : Runs} → Step s t → Holds s.slot s.running → Holds t.slot t.running
unfolding start handle_stop finish
Step-Holds {s} (starts name) h = start_in-Holds s.slot name s refl h
Step-Holds {s} stops h = cancel-Holds s.slot s.running h
Step-Holds {s} (returns i m) h = finish-Holds i s.slot s.running m h

-- In every interleaving of starts, stops and returns, from an idle server on, the slot is held by the
-- only run under way, and is free exactly when none is.
pub reachable-Holds : {s : Runs} → Reach idle s → Holds s.slot s.running
reachable-Holds here = refl
reachable-Holds (next r s) = Step-Holds s (reachable-Holds r)

-- ===== src/Origin/Listen.antt =====
-- internal/origin/origin.go, `Main` and `Listen`, by what they do to the listener. The outcomes of the
-- system calls are arguments.
use quicshot.Prelude.{ℕ, Bool, List, [], ◌∷◌, none, if◌then◌else◌}
use quicshot.Prelude.Bytes.{codes}
use quicshot.Flags.{Flag, Parsed, parsed, exits, parse, string_flag}

-- The only flag is the address.
abbrev pub origin_flag_set : List (Flag (List ℕ))
origin_flag_set = string_flag (codes "addr") (λ v addr. v) ∷ []

unfoldable pub parse_addr : List (List ℕ) → Parsed (List ℕ)
parse_addr args = parse origin_flag_set none args (codes ":8080")

-- `close_at_end` and `serve` are goroutines; the first waits for the end of the context.
pub data Act : Type 0 where
  listen_tcp : List ℕ → Act
  close_at_end serve : Act

pub data Listened : Type 0 where
  not_bound : Listened
  -- Bound, but the context is already done.
  bound_late : Listened
  bound : Listened

unfoldable pub listen : Bool → Bool → List ℕ → List Act × Listened
listen binds ctx_done addr =
    if binds
    then (listen_tcp addr ∷ close_at_end ∷ serve ∷ [], if ctx_done then bound_late else bound)
    else ([], not_bound)

-- How `Main` ends: in the flag package, with an error, or at the end of the context.
pub data Ended : Type 0 where
  exited : ℕ → Ended
  failed : Listened → Ended
  stopped : Ended

abbrev pub end_of : Listened → Ended
end_of not_bound = failed not_bound
end_of bound_late = failed bound_late
end_of bound = stopped

abbrev pub with_addr : Bool → Bool → Parsed (List ℕ) → List Act × Ended
with_addr binds ctx_done (exits code) = ([], exited code)
with_addr binds ctx_done (parsed addr) =
    let (acts, r) = listen binds ctx_done addr in (acts, end_of r)

unfoldable pub main : Bool → Bool → List (List ℕ) → List Act × Ended
main binds ctx_done args = with_addr binds ctx_done (parse_addr args)

-- ===== src/Udpsock/Listen.antt =====
-- internal/udpsock/udpsock.go, `Listen`, by what it does to the socket. The outcomes of the system calls
-- are arguments.
use quicshot.Prelude.{Bool, List, [], ◌∷◌, ◌++◌, if◌then◌else◌}
use quicshot.Prelude.Int.{ℤ, pos, ltb_ℤ}

pub data SocketAct : Type 0 where
  bind : SocketAct
  set_read_buffer set_write_buffer : ℤ → SocketAct
  close : SocketAct

pub data Listened : Type 0 where
  bad_addr not_bound : Listened
  no_read_buffer no_write_buffer : ℤ → Listened
  listening : Listened

pub record SocketEnv : Type 0 where
  pub resolves : Bool
  pub binds : Bool
  pub sets_read : Bool
  pub sets_write : Bool

abbrev pub more_acts : List SocketAct → List SocketAct × Listened → List SocketAct × Listened
more_acts acts (later, r) = (acts ++ later, r)

abbrev pub with_write_buffer : SocketEnv → ℤ → List SocketAct × Listened
with_write_buffer env n =
    if ltb_ℤ (pos 0) n
    then (if env.sets_write
        then (set_write_buffer n ∷ [], listening)
        else (set_write_buffer n ∷ close ∷ [], no_write_buffer n))
    else ([], listening)

unfoldable pub listen : SocketEnv → ℤ → ℤ → List SocketAct × Listened
listen env recv_buf send_buf =
    if env.resolves
    then (if env.binds
        then more_acts (bind ∷ []) (
            if ltb_ℤ (pos 0) recv_buf
            then (if env.sets_read
                then more_acts (set_read_buffer recv_buf ∷ []) (with_write_buffer env send_buf)
                else (set_read_buffer recv_buf ∷ close ∷ [], no_read_buffer recv_buf))
            else with_write_buffer env send_buf)
        else ([], not_bound))
    else ([], bad_addr)

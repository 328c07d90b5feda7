-- ===== src/Tunnelproto.antt =====
-- internal/tunnelproto/proto.go: one message per line on the control stream. JSON is an argument: what
-- `json.Marshal` prints for a message and what `json.Unmarshal` makes of a line.
pub mod Frames
mod Tests
use quicshot.Prelude.{
  ℕ, zero, suc, String, List, [], ◌∷◌, ◌++◌, Option, none, some, ◌==◌, str_eq, if◌then◌else◌,
}
use quicshot.Prelude.Int.{ℤ}
use quicshot.Edge.Registry.{Control, read_failed, register, ping, unregister, other}

pub record Msg : Type 0 where
  pub t : String
  pub hostname : String
  pub ha_id : ℤ
  pub reason : String

pub record Codec : Type 0 where
  pub marshal : Msg → List ℕ
  pub unmarshal : List ℕ → Option Msg

-- What `Write` sends.
unfoldable pub write : Codec → Msg → List ℕ
write codec m = codec.marshal m ++ (10 ∷ [])

abbrev pub cons_line : ℕ → Option (List ℕ × List ℕ) → Option (List ℕ × List ℕ)
cons_line c none = none
cons_line c (some (line, rest)) = some (c ∷ line, rest)

-- `ReadBytes('\n')`: the line with its end, and what is left; `none` where the stream ends before it.
unfoldable pub read_bytes : List ℕ → Option (List ℕ × List ℕ)
read_bytes [] = none
read_bytes (c ∷ s) =
    let more = read_bytes s in if c == 10 then some (c ∷ [], s) else cons_line c more

abbrev pub with_type : Option Msg → List ℕ → Option (Msg × List ℕ)
with_type none rest = none
with_type (some m) rest = if str_eq m.t "" then none else some (m, rest)

abbrev pub read_line : Codec → Option (List ℕ × List ℕ) → Option (Msg × List ℕ)
read_line codec none = none
read_line codec (some (line, rest)) = with_type (codec.unmarshal line) rest

-- The message, and the stream behind it. `none` is an error.
unfoldable pub read : Codec → List ℕ → Option (Msg × List ℕ)
read codec s = read_line codec (read_bytes s)

-- The case of the edge's switch that a message comes to.
unfoldable pub control_of : Msg → Control
control_of m =
    if str_eq m.t "register"
    then register m.hostname m.ha_id
    else if str_eq m.t "ping"
    then ping
    else if str_eq m.t "unregister"
    then unregister
    else other

-- What the loop of the edge's `serveControl` meets on a stream that holds these bytes and ends, for at
-- most `fuel` rounds.
unfoldable pub controls : ℕ → Codec → List ℕ → List Control
controls zero codec s = []
controls (suc fuel) codec s = elim (read codec s) [
  | none ↦ read_failed ∷ []
  | some p ↦ control_of p.0 ∷ controls fuel codec p.1
]

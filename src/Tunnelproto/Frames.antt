-- ===== src/Tunnelproto/Frames.antt =====
-- internal/tunnelproto/proto.go: `Write` on one side and `Read` on the other.
use quicshot.Prelude.{
  ℕ, suc, ◌≡◌, ◌≢◌, refl, ap, ◌∙◌, false, List, [], ◌∷◌, ◌++◌, map, some, length, ◌==◌, eq_iff,
  arith,
}
use quicshot.Prelude.Members.{All}
use quicshot.Edge.Registry.{read_failed}
use quicshot.Tunnelproto.{
  Msg, Codec, write, read_bytes, with_type, read_line, read, control_of, controls,
}

-- The codec prints this message without a line break and reads it back, and its type is not empty.
pub record Travels (codec : Codec) (m : Msg) : Type 0 where
  pub back : codec.unmarshal (codec.marshal m ++ (10 ∷ [])) ≡ some m
  pub one_line : All (λ c. (c == 10) ≡ false) (codec.marshal m)
  pub typed : m.t ≢ ""

unfoldable pub write_all : Codec → List Msg → List ℕ
write_all codec [] = []
write_all codec (m ∷ ms) = write codec m ++ write_all codec ms

read_bytes-line :
    (line rest : List ℕ)
    → All (λ c. (c == 10) ≡ false) line
    → read_bytes (line ++ (10 ∷ []) ++ rest) ≡ some (line ++ (10 ∷ []), rest)
unfolding read_bytes
read_bytes-line [] rest a = refl
read_bytes-line (c ∷ line) rest a = rw (a.0, read_bytes-line line rest a.1) refl

read-write :
    (codec : Codec) (m : Msg) (rest : List ℕ)
    → Travels codec m
    → read codec (write codec m ++ rest) ≡ some (m, rest)
unfolding read write
read-write codec m rest v =
    ap (read_line codec) (read_bytes-line (codec.marshal m) rest v.one_line)
    ∙ ap (λ o. with_type o rest) v.back
    ∙ ground (arith, eq_iff m.t "", v.typed)

next_control :
    (fuel : ℕ) (codec : Codec) (m : Msg) (s rest : List ℕ)
    → read codec s ≡ some (m, rest)
    → controls (suc fuel) codec s ≡ control_of m ∷ controls fuel codec rest
unfolding controls
next_control fuel codec m s rest h = rw (h, controls) refl

-- The edge meets exactly the messages that were written, in their order, and then the end of the
-- stream, if each of them travels; a round for each message and one for the end are enough.
pub controls-write_all :
    (codec : Codec) (ms : List Msg)
    → All (Travels codec) ms
    → controls (suc (length ms)) codec (write_all codec ms)
      ≡ map control_of ms ++ (read_failed ∷ [])
unfolding controls write_all
controls-write_all codec [] a = unfold read read_bytes in refl
controls-write_all codec (m ∷ ms) a =
    next_control (suc (length ms)) codec m (write codec m ++ write_all codec ms)
      (write_all codec ms) (read-write codec m (write_all codec ms) a.0)
    ∙ ap (λ l. control_of m ∷ l) (controls-write_all codec ms a.1)

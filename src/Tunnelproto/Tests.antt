-- ===== src/Tunnelproto/Tests.antt =====
-- internal/tunnelproto/proto.go with a codec that prints the type of a message only.
use quicshot.Prelude.{
  suc, ◌≡◌, refl, String, List, [], ◌∷◌, ◌++◌, map, none, some, length, if◌then◌else◌,
}
use quicshot.Prelude.Bytes.{codes, bytes_eq}
use quicshot.Prelude.Int.{pos}
use quicshot.Edge.Registry.{read_failed}
use quicshot.Tunnelproto.{Msg, Codec, control_of, controls}
use quicshot.Tunnelproto.Frames.{Travels, write_all, controls-write_all}

abbrev of_type : String → Msg
of_type t = record { t = t; hostname = ""; ha_id = pos 0; reason = "" }

abbrev by_type : Codec
by_type = record {
  marshal = λ m. codes m.t;
  unmarshal = λ line.
      if bytes_eq line (codes "register" ++ (10 ∷ []))
      then some (of_type "register")
      else if bytes_eq line (codes "ping" ++ (10 ∷ []))
      then some (of_type "ping")
      else none;
}

abbrev two_msgs : List Msg
two_msgs = of_type "register" ∷ of_type "ping" ∷ []

register-Travels : Travels by_type (of_type "register")
unfolding bytes_eq
register-Travels = record {
  back = refl;
  one_line = (refl, (refl, (refl, (refl, (refl, (refl, (refl, (refl, tt))))))));
  typed = λ p. cc;
}

ping-Travels : Travels by_type (of_type "ping")
unfolding bytes_eq
ping-Travels = record {
  back = refl;
  one_line = (refl, (refl, (refl, (refl, tt))));
  typed = λ p. cc;
}

controls-write_all_example :
    controls (suc (length two_msgs)) by_type (write_all by_type two_msgs)
    ≡ map control_of two_msgs ++ (read_failed ∷ [])
controls-write_all_example =
    controls-write_all by_type two_msgs (register-Travels, (ping-Travels, tt))

-- ===== src/Ui/Udp/Tests.antt =====
-- The parsers of the UDP counters at concrete inputs.
use quicshot.Prelude.{ℕ, ◌<◌, ◌≡◌, refl, subst, List, [], ◌∷◌, ◌++◌, length, arith}
use quicshot.Prelude.Bytes.{codes, is_prefix, bytes_eq}
use quicshot.Prelude.Members.{All}
use quicshot.Blast.Config.{split}
use quicshot.Udpsock.{max_token, fields, parse_uint, parse_digits, parse_counters}
use quicshot.Udpsock.Rows.{rows}
use quicshot.Ui.Udp.{parse_udp_snmp}
use quicshot.Ui.Udp.Agree.{Readable, shown_or, parse_udp_snmp-parse_counters}

abbrev snmp : List ℕ
snmp = codes "Udp: InDatagrams RcvbufErrors" ++ (10 ∷ codes "Udp: 7 3") ++ (13 ∷ 10 ∷ [])

abbrev short : All (λ l. length l < max_token) (split 10 snmp)
unfolding split
short = (omega arith, (omega arith, (omega arith, tt)))

abbrev cells : List (List (List ℕ))
cells =
    (codes "Udp:" ∷ codes "InDatagrams" ∷ codes "RcvbufErrors" ∷ [])
    ∷ (codes "Udp:" ∷ codes "7" ∷ codes "3" ∷ [])
    ∷ []

snmp-cells : cells ≡ rows (split 10 snmp)
unfolding split rows fields is_prefix
snmp-cells = refl

readable : Readable cells
unfolding bytes_eq parse_uint parse_digits
readable = (((refl, tt), (tt, tt)), ((λ e. cc), ((λ e. cc), tt)))

parse_udp_snmp-parse_counters_example : parse_udp_snmp snmp ≡ shown_or (parse_counters snmp)
parse_udp_snmp-parse_counters_example =
    parse_udp_snmp-parse_counters snmp short (subst Readable snmp-cells readable)

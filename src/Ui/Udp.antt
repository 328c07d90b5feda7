-- ===== src/Ui/Udp.antt =====
-- internal/ui/ui.go: the poll of the edge's UDP counters (`pollUDP`), with a parser of its own.
pub mod Agree
mod Tests
use quicshot.Prelude.{
  ℕ, Bool, true, false, ◌&&◌, List, [], ◌∷◌, Option, none, some, ◌==◌, drop, or_try, if◌then◌else◌,
}
use quicshot.Prelude.Bytes.{codes, bytes_key}
use quicshot.Prelude.Maps.{insert, count_at}
use quicshot.Blast.Config.{split}
use quicshot.Udpsock.{
  u64, minus_u64, fields, is_udp, Parsed, number, bad_syntax, out_of_range, parse_uint,
}

-- The source's four counters.
pub record UdpCounts : Type 0 where
  pub inbound : ℕ
  pub outbound : ℕ
  pub rcv : ℕ
  pub snd : ℕ

-- The number that `strconv.ParseUint` returns next to an error that is dropped.
abbrev pub number_or : Parsed → ℕ
number_or (number n) = n
number_or bad_syntax = 0
number_or out_of_range = 18446744073709551615

unfoldable pub vals : List (List ℕ) → List (List ℕ) → List (List ℕ × ℕ) → List (List ℕ × ℕ)
vals [] fs m = m
vals (h ∷ hs) [] m = m
vals (h ∷ hs) (f ∷ fs) m = vals hs fs (insert h (number_or (parse_uint f)) m)

unfoldable pub counts_of : List (List ℕ) → List (List ℕ) → UdpCounts
counts_of header row =
    let m = vals (drop 1 header) (drop 1 row) [] in
    record {
      inbound = count_at (codes "InDatagrams") m;
      outbound = count_at (codes "OutDatagrams") m;
      rcv = count_at (codes "RcvbufErrors") m;
      snd = count_at (codes "SndbufErrors") m;
    }

unfoldable pub parse_rows : Option (List (List ℕ)) → List (List ℕ) → Option UdpCounts
parse_rows header [] = none
parse_rows header (line ∷ ls) =
    let rest = parse_rows (if is_udp line then or_try header (some (fields line)) else header) ls in
    if is_udp line
    then elim header [ none ↦ rest | some h ↦ some (counts_of h (fields line)) ]
    else rest

unfoldable pub parse_udp_snmp : List ℕ → Option UdpCounts
parse_udp_snmp snmp = parse_rows none (split 10 snmp)

-- The message of `publishUDPDelta`.
pub record UdpMsg : Type 0 where
  pub delta : UdpCounts
  pub rcv_total : ℕ
  pub snd_total : ℕ

unfoldable pub publish_udp_delta : UdpCounts → UdpCounts → UdpMsg
publish_udp_delta prev cur = record {
  delta = record {
    inbound = minus_u64 cur.inbound prev.inbound;
    outbound = minus_u64 cur.outbound prev.outbound;
    rcv = minus_u64 cur.rcv prev.rcv;
    snd = minus_u64 cur.snd prev.snd;
  };
  rcv_total = cur.rcv;
  snd_total = cur.snd;
}

abbrev pub is_zero : UdpCounts → Bool
is_zero c = c.inbound == 0 && (c.outbound == 0 && (c.rcv == 0 && c.snd == 0))

-- The argument is what `cat /proc/net/snmp` prints in the edge's container, `none` where it fails.
unfoldable pub read_udp_counters : Option (List ℕ) → Option UdpCounts
read_udp_counters none = none
read_udp_counters (some out) = parse_udp_snmp out

-- One round of `pollUDP`: the previous counters, and the message if one is published. The argument is
-- what `readUDPCounters` returns.
unfoldable pub poll_udp : UdpCounts → Option UdpCounts → UdpCounts × Option UdpMsg
poll_udp prev none = (prev, none)
poll_udp prev (some cur) = (cur, if is_zero prev then none else some (publish_udp_delta prev cur))

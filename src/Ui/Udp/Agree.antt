-- ===== src/Ui/Udp/Agree.antt =====
-- internal/ui/ui.go (`parseUDPSNMP`) and internal/udpsock/udpsock.go (`parseCounters`): the panel's
-- parser and the edge's, on one text.
use quicshot.Prelude.{
  ◌+◌, ◌%◌, ℕ, ◌<◌, ◌≡◌, ◌≢◌, refl, sym, ap, ◌∙◌, Bool-cases, inl, inr, false, List, [], ◌∷◌,
  Option, none, some, length, drop, if◌then◌else◌, arith,
}
use quicshot.Prelude.Bytes.{codes, bytes_eq, bytes_eq_iff, bytes_key}
use quicshot.Prelude.Maps.{insert, count_at, lookup, lookup-insert}
use quicshot.Prelude.Members.{All}
use quicshot.Blast.Config.{split}
use quicshot.Udpsock.{
  u64, Counters, sub, minus_u64, fields, max_token, is_udp, Parsed, number, bad_syntax,
  out_of_range, parse_uint, put_number, values, counters_of, scan, parse_counters,
}
use quicshot.Udpsock.Rows.{rows, table, table-none, rows-scanned, parse_lines_lem}
use quicshot.Ui.Udp.{
  UdpCounts, number_or, vals, counts_of, parse_rows, parse_udp_snmp, publish_udp_delta,
}

-- The four counters that the panel shows.
unfoldable pub shown : Counters → UdpCounts
shown c = record {
  inbound = c.in_datagrams;
  outbound = c.out_datagrams;
  rcv = c.rcvbuf_errors;
  snd = c.sndbuf_errors;
}

abbrev pub shown_or : Option Counters → Option UdpCounts
shown_or none = none
shown_or (some c) = some (shown c)

abbrev pub Distinct : List (List ℕ) → Type 0
Distinct [] = Unit {0}
Distinct (h ∷ hs) = All (λ k. bytes_eq h k ≡ false) hs × Distinct hs

-- No column is named twice, and no number is 2 ^ 64 or more.
abbrev pub Readable : List (List (List ℕ)) → Type 0
Readable [] = Unit {0}
Readable (h ∷ []) = Unit {0}
Readable (h ∷ r ∷ rs) = Distinct (drop 1 h) × All (λ f. parse_uint f ≢ out_of_range) (drop 1 r)

abbrev Same : List (List ℕ × ℕ) → List (List ℕ × ℕ) → Type 0
Same m n = (k : List ℕ) → count_at k m ≡ count_at k n

count_at-insert :
    (a b : List ℕ) (v : ℕ) (m : List (List ℕ × ℕ))
    → count_at b (insert a v m) ≡ (if bytes_eq a b then v else count_at b m)
unfolding count_at
count_at-insert a b v m = ground (arith, lookup-insert a b v m)

-- The columns ahead read 0 still, and the next one is not among them.
ahead :
    (a : List ℕ) (v : ℕ) (m : List (List ℕ × ℕ)) (hs : List (List ℕ))
    → All (λ k. bytes_eq a k ≡ false) hs
    → All (λ k. count_at k m ≡ 0) hs
    → All (λ k. count_at k (insert a v m) ≡ 0) hs
ahead a v m [] d z = tt
ahead a v m (k ∷ hs) d z = (rw (count_at-insert a k v m, d.0, z.0), ahead a v m hs d.1 z.1)

put-Same :
    (h : List ℕ) (p : Parsed) (m n : List (List ℕ × ℕ))
    → p ≢ out_of_range
    → Same m n
    → count_at h m ≡ 0
    → Same (put_number h p m) (insert h (number_or p) n)
put-Same h (number v) m n r e z k = rw (count_at-insert h k v m, count_at-insert h k v n, e k)
put-Same h bad_syntax m n r e z k = ground (arith, count_at-insert h k 0 n, bytes_eq_iff h k, e k)
put-Same h out_of_range m n r e z k = absurd (r refl)

put_ahead :
    (h : List ℕ) (p : Parsed) (m : List (List ℕ × ℕ)) (hs : List (List ℕ))
    → All (λ k. bytes_eq h k ≡ false) hs
    → All (λ k. count_at k m ≡ 0) hs
    → All (λ k. count_at k (put_number h p m) ≡ 0) hs
put_ahead h (number v) m hs d z = ahead h v m hs d z
put_ahead h bad_syntax m hs d z = z
put_ahead h out_of_range m hs d z = z

values-vals :
    (hs fs : List (List ℕ)) (m n : List (List ℕ × ℕ))
    → Distinct hs
    → All (λ f. parse_uint f ≢ out_of_range) fs
    → Same m n
    → All (λ k. count_at k m ≡ 0) hs
    → Same (values hs fs m) (vals hs fs n)
unfolding values vals
values-vals [] fs m n d r e z = e
values-vals (h ∷ hs) [] m n d r e z = e
values-vals (h ∷ hs) (f ∷ fs) m n d r e z =
    values-vals hs fs (put_number h (parse_uint f) m) (insert h (number_or (parse_uint f)) n) d.1
      r.1 (put-Same h (parse_uint f) m n r.0 e z.0) (put_ahead h (parse_uint f) m hs d.0 z.1)

empty_ahead : (hs : List (List ℕ)) → All (λ k. count_at k [] ≡ 0) hs
unfolding count_at lookup
empty_ahead [] = tt
empty_ahead (h ∷ hs) = (refl, empty_ahead hs)

counts_of_lem :
    (h r : List (List ℕ)) (rs : List (List (List ℕ)))
    → Readable (h ∷ r ∷ rs)
    → counts_of h r ≡ shown (counters_of h r)
unfolding counts_of counters_of shown
counts_of_lem h r rs d =
    let same =
      values-vals (drop 1 h) (drop 1 r) [] [] d.0 d.1 (λ k. refl) (empty_ahead (drop 1 h)) in
    rw (
      same (codes "InDatagrams"),
      same (codes "OutDatagrams"),
      same (codes "RcvbufErrors"),
      same (codes "SndbufErrors"),
    )

parse_rows_header :
    (h : List (List ℕ)) (ls : List (List ℕ))
    → parse_rows (some h) ls ≡ table counts_of (some h) (rows ls)
unfolding parse_rows rows
parse_rows_header h [] = refl
parse_rows_header h (l ∷ ls) = ground (arith, parse_rows_header h ls)

parse_rows_lem : (ls : List (List ℕ)) → parse_rows none ls ≡ table counts_of none (rows ls)
unfolding parse_rows rows
parse_rows_lem [] = refl
parse_rows_lem (l ∷ ls) = elim (Bool-cases (is_udp l)) [
  | inl e ↦ rw (e, parse_rows_header (fields l) ls, table-none counts_of (fields l) (rows ls))
  | inr n ↦ rw (n, parse_rows_lem ls)
]

table-shown :
    (rs : List (List (List ℕ)))
    → Readable rs
    → table counts_of none rs ≡ shown_or (table counters_of none rs)
table-shown [] a = refl
table-shown (h ∷ []) a = refl
table-shown (h ∷ r ∷ rs) a = ap some (counts_of_lem h r rs a)

-- On a text whose lines fit the buffer of the edge's scanner, and whose first two "Udp:" lines name no
-- column twice and hold no number of 2 ^ 64 or more, the panel's parser finds a table where the
-- edge's does, and reads the same four counters from it.
pub parse_udp_snmp-parse_counters :
    (text : List ℕ)
    → All (λ l. length l < max_token) (split 10 text)
    → Readable (rows (split 10 text))
    → parse_udp_snmp text ≡ shown_or (parse_counters text)
unfolding parse_udp_snmp parse_counters scan
parse_udp_snmp-parse_counters text short a =
    parse_rows_lem (split 10 text)
    ∙ table-shown (rows (split 10 text)) a
    ∙ ap (λ t. shown_or (table counters_of none t)) (sym (rows-scanned (split 10 text) short))
    ∙ ap shown_or (sym (parse_lines_lem (scan text)))

-- Counters that add up to the later ones, modulo 2 ^ 64.
abbrev pub advance : Counters → Counters → Counters
advance c d = record {
  in_datagrams = (c.in_datagrams + d.in_datagrams) % u64;
  no_ports = (c.no_ports + d.no_ports) % u64;
  in_errors = (c.in_errors + d.in_errors) % u64;
  out_datagrams = (c.out_datagrams + d.out_datagrams) % u64;
  rcvbuf_errors = (c.rcvbuf_errors + d.rcvbuf_errors) % u64;
  sndbuf_errors = (c.sndbuf_errors + d.sndbuf_errors) % u64;
  in_csum_errors = (c.in_csum_errors + d.in_csum_errors) % u64;
}

abbrev pub IsU64 : Counters → Type 0
IsU64 c =
    (c.in_datagrams < u64)
    × ((c.no_ports < u64)
        × ((c.in_errors < u64)
            × ((c.out_datagrams < u64)
                × ((c.rcvbuf_errors < u64)
                    × ((c.sndbuf_errors < u64) × (c.in_csum_errors < u64))))))

back : (a b : ℕ) → a < u64 → b < u64 → (b + minus_u64 a b) % u64 ≡ a
back a b h k = omega arith

-- Of counters that are uint64, the differences that the panel publishes are those of the edge's log
-- line, and these, added to the counters before, give all seven counters now, also where some have
-- wrapped around in between.
pub publish_udp_delta-sub :
    (prev cur : Counters)
    → IsU64 prev
    → IsU64 cur
    → ((publish_udp_delta (shown prev) (shown cur)).delta ≡ shown (sub cur prev))
      × (advance prev (sub cur prev) ≡ cur)
unfolding publish_udp_delta shown sub
publish_udp_delta-sub prev cur p c = (
  refl,
  rw (
    back cur.in_datagrams prev.in_datagrams c.0 p.0,
    back cur.no_ports prev.no_ports c.1.0 p.1.0,
    back cur.in_errors prev.in_errors c.1.1.0 p.1.1.0,
    back cur.out_datagrams prev.out_datagrams c.1.1.1.0 p.1.1.1.0,
    back cur.rcvbuf_errors prev.rcvbuf_errors c.1.1.1.1.0 p.1.1.1.1.0,
    back cur.sndbuf_errors prev.sndbuf_errors c.1.1.1.1.1.0 p.1.1.1.1.1.0,
    back cur.in_csum_errors prev.in_csum_errors c.1.1.1.1.1.1 p.1.1.1.1.1.1,
  ),
)

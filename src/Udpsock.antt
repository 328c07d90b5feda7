-- ===== src/Udpsock.antt =====
-- internal/udpsock/udpsock.go: the kernel's UDP counters, out of the text of /proc/net/snmp. A text is
-- a list of bytes.
pub mod Rows
pub mod Listen
use quicshot.Prelude.{
  ℕ, ◌+◌, ◌-◌, ◌*◌, ◌^◌, ◌%◌, Bool, true, false, not, List, [], ◌∷◌, Option, none, some, ltb, leb,
  ◌==◌, length, drop, is_empty, or_try, if◌then◌else◌,
}
use quicshot.Prelude.Bytes.{codes, is_prefix, is_digit, bytes_key}
use quicshot.Prelude.Maps.{insert, count_at}
use quicshot.Blast.Config.{is_blank, split, cons_first}

pub record Counters : Type 0 where
  pub in_datagrams : ℕ
  pub no_ports : ℕ
  pub in_errors : ℕ
  pub out_datagrams : ℕ
  pub rcvbuf_errors : ℕ
  pub sndbuf_errors : ℕ
  pub in_csum_errors : ℕ

abbrev pub u64 : ℕ
u64 = 18446744073709551616

-- `a - b` of uint64 values, which wraps around.
abbrev pub minus_u64 : ℕ → ℕ → ℕ
minus_u64 a b = (a + u64 - b) % u64

unfoldable pub sub : Counters → Counters → Counters
sub c prev = record {
  in_datagrams = minus_u64 c.in_datagrams prev.in_datagrams;
  no_ports = minus_u64 c.no_ports prev.no_ports;
  in_errors = minus_u64 c.in_errors prev.in_errors;
  out_datagrams = minus_u64 c.out_datagrams prev.out_datagrams;
  rcvbuf_errors = minus_u64 c.rcvbuf_errors prev.rcvbuf_errors;
  sndbuf_errors = minus_u64 c.sndbuf_errors prev.sndbuf_errors;
  in_csum_errors = minus_u64 c.in_csum_errors prev.in_csum_errors;
}

abbrev pub starts_word : List ℕ → Bool
starts_word [] = false
starts_word (c ∷ s) = not (is_blank c)

-- `strings.Fields` of ASCII text.
unfoldable pub fields : List ℕ → List (List ℕ)
fields [] = []
fields (c ∷ s) =
    let rest = fields s in
    if is_blank c then rest else if starts_word s then cons_first c rest else (c ∷ []) ∷ rest

-- What `strconv.ParseUint(s, 10, 64)` says: a number, or one of its two errors.
pub data Parsed : Type 0 where
  number : ℕ → Parsed
  bad_syntax : Parsed
  out_of_range : Parsed

unfoldable pub parse_digits : ℕ → List ℕ → Parsed
parse_digits n [] = number n
parse_digits n (c ∷ s) =
    let m = n * 10 + (c - b'0') in
    let rest = parse_digits m s in
    if is_digit c then (if ltb m u64 then rest else out_of_range) else bad_syntax

unfoldable pub parse_uint : List ℕ → Parsed
parse_uint [] = bad_syntax
parse_uint (c ∷ s) = parse_digits 0 (c ∷ s)

-- `values[header[i]] = n`, or `continue` on an error.
abbrev pub put_number : List ℕ → Parsed → List (List ℕ × ℕ) → List (List ℕ × ℕ)
put_number h (number n) m = insert h n m
put_number h bad_syntax m = m
put_number h out_of_range m = m

-- The loop over the columns that both rows have, the first left out by the caller.
unfoldable pub values : List (List ℕ) → List (List ℕ) → List (List ℕ × ℕ) → List (List ℕ × ℕ)
values [] fs m = m
values (h ∷ hs) [] m = m
values (h ∷ hs) (f ∷ fs) m = values hs fs (put_number h (parse_uint f) m)

unfoldable pub counters_of : List (List ℕ) → List (List ℕ) → Counters
counters_of header row =
    let m = values (drop 1 header) (drop 1 row) [] in
    record {
      in_datagrams = count_at (codes "InDatagrams") m;
      no_ports = count_at (codes "NoPorts") m;
      in_errors = count_at (codes "InErrors") m;
      out_datagrams = count_at (codes "OutDatagrams") m;
      rcvbuf_errors = count_at (codes "RcvbufErrors") m;
      sndbuf_errors = count_at (codes "SndbufErrors") m;
      in_csum_errors = count_at (codes "InCsumErrors") m;
    }

-- `bufio.Scanner` over the text with its line endings: a last line that is empty is none, a "\r" at
-- the end is dropped, and a line that does not fit into its buffer of 64 KB ends the scan.
abbrev pub max_token : ℕ
max_token = 65536

unfoldable pub drop_cr : List ℕ → List ℕ
drop_cr [] = []
drop_cr (c ∷ []) = if c == 13 then [] else c ∷ []
drop_cr (c ∷ d ∷ s) = c ∷ drop_cr (d ∷ s)

abbrev pub last_line : List ℕ → List (List ℕ)
last_line [] = []
last_line (c ∷ s) = drop_cr (c ∷ s) ∷ []

unfoldable pub scanned : List (List ℕ) → List (List ℕ)
scanned [] = []
scanned (l ∷ []) = if ltb (length l) max_token then last_line l else []
scanned (l ∷ k ∷ ls) =
    let rest = scanned (k ∷ ls) in if ltb (length l) max_token then drop_cr l ∷ rest else []

unfoldable pub scan : List ℕ → List (List ℕ)
scan text = scanned (split 10 text)

abbrev pub is_udp : List ℕ → Bool
is_udp line = is_prefix (codes "Udp:") line

-- The loop of `parseCounters`; both of its ends without a second row, after an error or not, say none.
unfoldable pub parse_lines : Option (List (List ℕ)) → List (List ℕ) → Option Counters
parse_lines header [] = none
parse_lines header (line ∷ ls) =
    let rest =
      parse_lines (if is_udp line then or_try header (some (fields line)) else header) ls in
    if is_udp line
    then elim header [ none ↦ rest | some h ↦ some (counters_of h (fields line)) ]
    else rest

unfoldable pub parse_counters : List ℕ → Option Counters
parse_counters text = parse_lines none (scan text)

-- `ReadCounters`; the argument is the text of /proc/net/snmp, `none` where it cannot be opened.
unfoldable pub read_counters : Option (List ℕ) → Option Counters
read_counters none = none
read_counters (some text) = parse_counters text

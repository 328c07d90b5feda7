-- ===== src/Origin.antt =====
-- internal/origin: the test origin. A handler is the list of what it does to its `ResponseWriter`, the
-- connection and the clock, in order. The request, the client and the writer are a record of what the
-- handlers ask them. Memory is taken as unlimited,
-- but for the length that `make` takes.
pub mod Handlers
pub mod Mux
pub mod Listen
pub mod Atoi
mod Tests
use quicshot.Prelude.{
  ℕ, ◌+◌, ◌-◌, ◌*◌, ◌<◌, Bool, true, false, ◌&&◌, String, List, [], ◌∷◌, ◌++◌, Option, none, some,
  leb, ◌==◌, if◌then◌else◌,
}
use quicshot.Prelude.Bytes.{is_digit}
use quicshot.Prelude.Int.{ℤ, pos, negsuc, ◌*ℤ◌, leb_ℤ, i64}
use quicshot.Blast.CfCode.{digits_value}

-- What `w.(http.Hijacker)` and `Hijack()` give.
pub data Hijack : Type 0 where
  no_hijacker : Hijack
  hijack_error : Hijack
  hijacked : Hijack

pub record Request : Type 0 where
  -- `r.URL.Query().Get(name)`.
  pub query : String → List ℕ
  pub path : String
  pub content_type : List ℕ
  pub body : List ℕ
  pub has_body : Bool
  -- How many reads of one byte each return no error.
  pub reads : ℕ
  -- Whether reading the body fails before its end, and before 8 MB.
  pub body_fails : Bool
  pub hijack : Hijack
  pub is_flusher : Bool
  -- What the i-th write of so many bytes returns: how many were written, `none` with an error.
  pub write : ℕ → ℕ → Option ℕ
  -- Whether the client is gone at the i-th wait or check.
  pub client_gone : ℕ → Bool
  -- `rand.Intn(100)`.
  pub draw : ℕ
  -- The longest slice of bytes that `make` does not panic on, which depends on the platform.
  pub make_limit : ℕ

pub data Act : Type 0 where
  set_header : List ℕ → List ℕ → Act
  write_header : ℤ → Act
  write_body : List ℕ → Act
  write_failed : Act
  -- `http.Error`.
  error_reply : ℕ → List ℕ → Act
  flush : Act
  -- A wait of so many nanoseconds that ends by itself, and one that the client's leaving ends.
  wait : ℤ → Act
  cut_short : Act
  take_over : Act
  raw_bytes : List ℕ → Act
  linger_zero : Act
  close_conn : Act
  -- A run-time error of the handler itself.
  panic : Act

abbrev pub all_digits : List ℕ → Bool
all_digits [] = true
all_digits (c ∷ s) = is_digit c && all_digits s

abbrev pub in_int : Option ℕ → Option ℤ
in_int none = none
in_int (some n) = if leb n 9223372036854775807 then some (pos n) else none

abbrev pub minus_int : Option ℕ → Option ℤ
minus_int none = none
minus_int (some n) =
    if n == 0
    then some (pos 0)
    else if leb n 9223372036854775808
    then some (negsuc (n - 1))
    else none

unfoldable pub digits_number : List ℕ → Option ℕ
digits_number [] = none
digits_number (c ∷ s) = if all_digits (c ∷ s) then some (digits_value 0 (c ∷ s)) else none

-- `strconv.Atoi`, its two errors taken together.
unfoldable pub atoi : List ℕ → Option ℤ
atoi [] = none
atoi (c ∷ s) =
    if c == b'-'
    then minus_int (digits_number s)
    else if c == b'+'
    then in_int (digits_number s)
    else in_int (digits_number (c ∷ s))

abbrev pub int_or : ℤ → Option ℤ → ℤ
int_or d none = d
int_or d (some v) = v

unfoldable pub int_param : Request → String → ℤ → ℤ
int_param r name d = int_or d (atoi (r.query name))

abbrev pub millisecond : ℤ
millisecond = pos 1000000

-- In nanoseconds; the product of two int64 values wraps around.
unfoldable pub duration_param : Request → String → ℤ → ℤ
duration_param r name d =
    let ms = int_param r name (negsuc 0) in if leb_ℤ (pos 0) ms then i64 (ms *ℤ millisecond) else d

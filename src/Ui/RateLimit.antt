-- ===== src/Ui/RateLimit.antt =====
-- internal/ui/ui.go, `allow`: each source of log lines has a budget per second. Times are nanoseconds;
-- the clock is read once in each call.
pub mod Budget
use quicshot.Prelude.{
  ℕ, ◌+◌, Bool, true, false, String, List, Option, none, some, ltb, leb, if◌then◌else◌,
}
use quicshot.Prelude.Maps.{lookup, insert, string_key}

abbrev pub lines_per_second : ℕ
lines_per_second = 120

abbrev pub second : ℕ
second = 1000000000

pub record Bucket : Type 0 where
  pub window : ℕ
  pub count : ℕ
  pub suppressed : ℕ

abbrev pub Rate : Type 0
Rate = List (String × Bucket)

pub record Allowed : Type 0 where
  pub shown : Bool
  pub note : Option ℕ  -- the number in the note, `none` for no note
  pub bucket : Bucket

-- A window of a second or more is over: its overflow is noted and the bucket starts anew.
abbrev pub is_over : Bucket → ℕ → Bool
is_over b now = leb (b.window + second) now

unfoldable pub renew : Bucket → ℕ → Bucket
renew b now = if is_over b now then record { window = now; count = 0; suppressed = 0 } else b

unfoldable pub note_of : Bucket → ℕ → Option ℕ
note_of b now =
    if is_over b now then (if ltb 0 b.suppressed then some b.suppressed else none) else none

unfoldable pub take_line : Bucket → ℕ → Allowed
take_line b now =
    let c = renew b now in
    let count = c.count + 1 in
    if ltb lines_per_second count
    then record {
      shown = false;
      note = note_of b now;
      bucket = record c { count = count; suppressed = c.suppressed + 1 };
    }
    else record { shown = true; note = note_of b now; bucket = record c { count = count } }

abbrev pub bucket_or_new : Option Bucket → ℕ → Bucket
bucket_or_new none now = record { window = now; count = 0; suppressed = 0 }
bucket_or_new (some b) now = b

-- The map is updated in place; the pointers in it are to different buckets.
unfoldable pub allow : Rate → String → ℕ → Bool × Option ℕ × Rate
allow rate src now =
    let a = take_line (bucket_or_new (lookup src rate) now) now in
    (a.shown, a.note, insert src a.bucket rate)

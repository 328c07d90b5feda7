-- ===== src/Ui/RateLimit/Budget.antt =====
-- internal/ui/ui.go, `allow`: the lines of one source over time, and of two sources.
use quicshot.Prelude.{
  one, ℕ, suc, ◌+◌, ◌≤◌, ◌<◌, ◌≡◌, ◌≢◌, true, String, List, [], ◌∷◌, none, length, eq_iff, arith,
  ltb, ◌⊎◌, inl, inr, dec_lt,
}
use quicshot.Prelude.Maps.{lookup, lookup-insert, string_key, or_zero}
use quicshot.Ui.RateLimit.{
  Bucket, Rate, allow, take_line, renew, note_of, lines_per_second, second, bucket_or_new,
}

-- One source's lines, at these times: how many were shown, how many were reported in notes, and the
-- bucket at the end.
pub record Tally : Type 0 where
  pub shown : ℕ
  pub noted : ℕ
  pub bucket : Bucket

unfoldable pub tally : Tally → List ℕ → Tally
tally t [] = t
tally t (now ∷ nows) =
    let a = take_line t.bucket now in
    tally
      (record {
        shown = t.shown + one a.shown;
        noted = t.noted + or_zero a.note;
        bucket = a.bucket;
      })
      nows

pub take_line-adds :
    (b : Bucket) (now : ℕ)
    → let a = take_line b now in
      one a.shown + or_zero a.note + a.bucket.suppressed ≡ suc b.suppressed
unfolding take_line renew note_of
take_line-adds b now = ground arith

-- Every line of a source is shown, or reported in a note, or waits in the bucket for the next note.
pub tally_total :
    (nows : List ℕ) (t : Tally)
    → let u = tally t nows in
      u.shown + u.noted + u.bucket.suppressed
      ≡ t.shown + t.noted + t.bucket.suppressed + length nows
unfolding tally
tally_total [] t = omega arith
tally_total (now ∷ nows) t =
    let a = take_line t.bucket now in
    let rest = tally_total nows (record {
      shown = t.shown + one a.shown;
      noted = t.noted + or_zero a.note;
      bucket = a.bucket;
    }) in
    omega (arith, take_line-adds t.bucket now, rest)

-- A bucket whose overflow is what it has counted beyond the budget.
pub record IsFair (b : Bucket) : Type 0 where
  pub overflow : b.count ≤ b.suppressed + lines_per_second
  pub within : 0 < b.suppressed → b.count ≡ b.suppressed + lines_per_second

-- On a bucket that is fair, which it stays: while its second lasts, a line is shown exactly if fewer
-- than 120 lines have been counted, is counted, and brings no note; when it is over, the line is
-- shown as the first of a new second and the note has the number of lines that were suppressed.
take_line_lem :
    (b : Bucket) (now : ℕ)
    → IsFair b
    → let a = take_line b now in
      IsFair a.bucket
      × (((now < b.window + second)
            × (a.shown ≡ ltb b.count lines_per_second)
            × (a.note ≡ none)
            × (a.bucket.count ≡ b.count + 1)
            × (a.bucket.window ≡ b.window))
          ⊎ ((b.window + second ≤ now)
              × (a.shown ≡ true)
              × (a.bucket.count ≡ 1)
              × (or_zero a.note ≡ b.suppressed)))
unfolding take_line renew note_of
take_line_lem b now f = (
  ground arith,
  elim (dec_lt now (b.window + second)) [
    | yes h ↦ inl (h, ground arith, ground arith, ground arith, ground arith)
    | no h ↦ inr (omega arith, ground arith, ground arith, ground arith)
  ],
)

-- A line of one source leaves the budgets of all others alone.
pub allow_other :
    (rate : Rate) (src other : String) (now : ℕ)
    → src ≢ other
    → lookup other (allow rate src now).2 ≡ lookup other rate
unfolding allow
allow_other rate src other now h = ground (
  arith,
  eq_iff src other,
  lookup-insert src other (take_line (bucket_or_new (lookup src rate) now) now).bucket rate,
)

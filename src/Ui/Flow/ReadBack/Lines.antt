-- ===== src/Ui/Flow/ReadBack/Lines.antt =====
-- internal/blast/blast.go and internal/ui/ui.go: the regexps of the panel on the lines of blast.
use mathlib.Core.List.{append_assoc, append-nil}
use quicshot.Prelude.{
  ℕ, ◌+◌, ◌≤◌, ◌≡◌, ◌≢◌, refl, subst, ap, ◌∙◌, true, false, List, [], ◌∷◌, ◌++◌, Option, none, some,
  length, drop, ◌==◌, Bool-cases, inl, inr, arith,
}
use quicshot.Prelude.Int.{ℤ, pos, negsuc}
use quicshot.Prelude.Bytes.{codes, is_digit, bytes_eq}
use quicshot.Prelude.Bytes.{bytes_key}
use quicshot.Blast.CfCode.{decimal, itoa, leading_digits, after_prefix, digits_here, max_int, atoi}
use quicshot.Blast.CfCode.RoundTrip.{
  AllDigits, decimal-AllDigits, decimal_nonempty, digits_value-decimal, leading_digits-append,
  digits_here_found,
}
use quicshot.Blast.Config.{trim_space, trim_left, trim_right, keep_front}
use quicshot.Blast.Summary.{progress_text, conn_drops_line, proto_line, count_line, pad_right}
use quicshot.Ui.Flow.Parse.{
  blast_total, total_here, fail_here, then_digits, paired, number_behind, conn_drops_of,
  protocol_of, skip_blanks,
}

atoi-decimal : (n : ℕ) → n ≤ max_int → atoi (decimal n) ≡ n
unfolding atoi
atoi-decimal n h = omega (arith, digits_value-decimal n)

-- What may stand behind a number that is read whole.
abbrev NoDigit : List ℕ → Type 0
NoDigit [] = Unit {0}
NoDigit (c ∷ s) = is_digit c ≡ false

leading_digits_whole : (ds s : List ℕ) → AllDigits ds → NoDigit s → leading_digits (ds ++ s) ≡ ds
unfolding leading_digits
leading_digits_whole [] [] a h = refl
leading_digits_whole (d ∷ ds) [] a h = ground (arith, leading_digits_whole ds [] a.1 h)
leading_digits_whole ds (c ∷ s) a h = leading_digits-append ds c s a h

drop-append : (xs ys : List ℕ) → drop (length xs) (xs ++ ys) ≡ ys
drop-append [] ys = refl
drop-append (x ∷ xs) ys = drop-append xs ys

-- The text up to "total=" has no place where that begins: no "t" of it is followed by an "o".
blast_total-digits : (ds s : List ℕ) → AllDigits ds → blast_total (ds ++ s) ≡ blast_total s
unfolding blast_total after_prefix
blast_total-digits [] s a = refl
blast_total-digits (d ∷ ds) s a = ground (arith, blast_total-digits ds s a.1)

blast_total-itoa : (v : ℤ) (s : List ℕ) → blast_total (itoa v ++ s) ≡ blast_total s
unfolding itoa
blast_total-itoa (pos n) s = blast_total-digits (decimal n) s (decimal-AllDigits n)
blast_total-itoa (negsuc n) s =
    unfold blast_total after_prefix in
    blast_total-digits (decimal (n + 1)) s (decimal-AllDigits (n + 1))

number_here :
    (n : ℕ) (s : List ℕ) → NoDigit s → digits_here (some (decimal n ++ s)) ≡ some (decimal n)
number_here n s h =
    digits_here_found (decimal n) (decimal n ++ s)
      (leading_digits_whole (decimal n) s (decimal-AllDigits n) h) (decimal_nonempty n)

fail_here_found :
    (ds : List ℕ) (fail : ℕ) (s : List ℕ)
    → ds ≢ []
    → NoDigit s
    → fail_here ds (codes " fail=" ++ (decimal fail ++ s)) ≡ some (atoi ds, atoi (decimal fail))
unfolding after_prefix
fail_here_found [] fail s e h = absurd (e refl)
fail_here_found (d ∷ ds) fail s e h = ap (then_digits (d ∷ ds)) (number_here fail s h)

total_here_found :
    (req fail : ℕ) (s : List ℕ)
    → NoDigit s
    → req ≤ max_int
    → fail ≤ max_int
    → total_here (some (decimal req ++ (codes " fail=" ++ (decimal fail ++ s)))) ≡ some (req, fail)
total_here_found req fail s h r f =
    let tail = codes " fail=" ++ (decimal fail ++ s) in
    rw
      (
        leading_digits_whole (decimal req) tail (decimal-AllDigits req) refl,
        drop-append (decimal req) tail,
        fail_here_found (decimal req) fail s (decimal_nonempty req) h,
        atoi-decimal req r,
        atoi-decimal fail f,
      )
      refl

blast_total_skip : (v : ℤ) (t s : List ℕ) → blast_total ((itoa v ++ t) ++ s) ≡ blast_total (t ++ s)
blast_total_skip v t s = ap blast_total (append_assoc (itoa v) t s) ∙ blast_total-itoa v (t ++ s)

pub blast_total-progress_text :
    (dr df : ℤ) (req fail omit : ℕ) (s : List ℕ)
    → req ≤ max_int
    → fail ≤ max_int
    → blast_total (progress_text dr df req fail omit ++ s) ≡ some (req, fail)
unfolding blast_total progress_text after_prefix
blast_total-progress_text dr df req fail omit s r f =
    let behind = codes " fail=" ++ (decimal fail ++ (codes " omit=" ++ decimal omit)) in
    let found = total_here_found req fail ((codes " omit=" ++ decimal omit) ++ s) refl r f in
    blast_total_skip dr
      (codes " req  +"
        ++ (itoa df ++ (codes " fail  " ++ (codes "total=" ++ (decimal req ++ behind)))))
      s
    ∙ blast_total_skip df (codes " fail  " ++ (codes "total=" ++ (decimal req ++ behind))) s
    ∙ rw
        (
          append_assoc (decimal req) behind s,
          append_assoc (decimal fail) (codes " omit=" ++ decimal omit) s,
          found,
        )
        refl

trim_right-digits : (ds : List ℕ) → AllDigits ds → trim_right ds ≡ ds
unfolding trim_right
trim_right-digits [] a = refl
trim_right-digits (d ∷ []) a = ground arith
trim_right-digits (d ∷ e ∷ ds) a = ap (keep_front d) (trim_right-digits (e ∷ ds) a.1)

-- Nothing goes from the end of a text that ends in something that stays.
trim_right-append : (p s : List ℕ) → s ≢ [] → trim_right s ≡ s → trim_right (p ++ s) ≡ p ++ s
unfolding trim_right
trim_right-append [] s n e = e
trim_right-append (c ∷ p) [] n e = absurd (n refl)
trim_right-append (c ∷ []) (d ∷ s) n e = ap (keep_front c) e
trim_right-append (c ∷ d ∷ p) (b ∷ s) n e =
    ap (keep_front c) (trim_right-append (d ∷ p) (b ∷ s) n e)

skip_blanks-digits : (ds s : List ℕ) → ds ≢ [] → AllDigits ds → skip_blanks (ds ++ s) ≡ ds ++ s
unfolding skip_blanks
skip_blanks-digits [] s n a = absurd (n refl)
skip_blanks-digits (d ∷ ds) s n a = ground arith

abbrev as_number : Option (List ℕ) → Option ℕ
as_number none = none
as_number (some ds) = some (atoi ds)

number_behind_blanks :
    (n : ℕ) (s : List ℕ)
    → NoDigit s
    → n ≤ max_int
    → as_number (digits_here (some (skip_blanks (decimal n ++ s)))) ≡ some n
number_behind_blanks n s h m =
    rw
      (
        skip_blanks-digits (decimal n) s (decimal_nonempty n) (decimal-AllDigits n),
        number_here n s h,
        atoi-decimal n m,
      )
      refl

pub conn_drops_of-line : (n : ℕ) → n ≤ max_int → conn_drops_of (conn_drops_line n) ≡ some n
unfolding conn_drops_of conn_drops_line trim_space trim_left after_prefix skip_blanks
conn_drops_of-line n h =
    let whole =
      trim_right-append (codes "conn drops      ") (decimal n) (decimal_nonempty n)
        (trim_right-digits (decimal n) (decimal-AllDigits n)) in
    rw whole (
      subst (λ t. as_number (digits_here (some (skip_blanks t))) ≡ some n) (append-nil (decimal n))
        (number_behind_blanks n [] tt h))

-- "HTTP/a.b".
abbrev pub version : ℕ → ℕ → List ℕ
version a b = codes "HTTP/" ++ (a ∷ b'.' ∷ b ∷ [])

pub protocol_of-line :
    (a b n : ℕ)
    → is_digit a ≡ true
    → is_digit b ≡ true
    → n ≤ max_int
    → protocol_of (proto_line (version a b) n) ≡ some (version a b, n)
unfolding protocol_of proto_line count_line pad_right after_prefix skip_blanks
protocol_of-line a b n h k m = elim (Bool-cases (bytes_eq (version a b) (codes "HTTP/3.0"))) [
  | inl e ↦ rw (e, h, k) (ap (paired (version a b)) (number_behind_blanks n [] tt m))
  | inr e ↦
      rw (e, h, k)
        (ap (paired (version a b)) (number_behind_blanks n (codes "  <-- NOT HTTP/3") refl m))
]

front_none :
    (c d : ℕ) (p x : List ℕ) → (c == d) ≡ false → after_prefix (c ∷ p) (keep_front d x) ≡ none
unfolding after_prefix
front_none c d p [] h = ground arith
front_none c d p (e ∷ x) h = ground arith

pub conn_drops_of-proto_line : (a b n : ℕ) → conn_drops_of (proto_line (version a b) n) ≡ none
unfolding conn_drops_of proto_line count_line pad_right trim_space trim_left trim_right
conn_drops_of-proto_line a b n = ap number_behind (front_none b'c' b'H' (codes "onn drops") _ refl)

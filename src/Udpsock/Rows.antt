-- ===== src/Udpsock/Rows.antt =====
-- internal/udpsock/udpsock.go: the table that the parsers read is the first two lines of the text that
-- start with "Udp:". The scanner and `strings.Split` find the same ones.
use quicshot.Prelude.{
  ℕ, ◌<◌, ◌≡◌, ◌≢◌, refl, ap, ◌∙◌, lt→ltb, Bool-cases, inl, inr, List, [], ◌∷◌, Option, none, some,
  ltb, length, if◌then◌else◌, arith,
}
use quicshot.Prelude.Bytes.{codes, is_prefix}
use quicshot.Prelude.Members.{All}
use quicshot.Udpsock.{
  fields, starts_word, drop_cr, scanned, max_token, is_udp, counters_of, parse_lines,
}

-- The cells of the lines that start with "Udp:".
unfoldable pub rows : List (List ℕ) → List (List (List ℕ))
rows [] = []
rows (line ∷ ls) = let rest = rows ls in if is_udp line then fields line ∷ rest else rest

-- A parser that has seen the header, or not, and reads the next row.
abbrev pub table :
    {A : Type 0}
    → (List (List ℕ) → List (List ℕ) → A)
    → Option (List (List ℕ))
    → List (List (List ℕ))
    → Option A
table read header [] = none
table read (some h) (r ∷ rs) = some (read h r)
table read none (h ∷ []) = none
table read none (h ∷ r ∷ rs) = some (read h r)

starts_word-drop_cr : (s : List ℕ) → starts_word (drop_cr s) ≡ starts_word s
unfolding drop_cr
starts_word-drop_cr [] = refl
starts_word-drop_cr (c ∷ []) = ground arith
starts_word-drop_cr (c ∷ d ∷ s) = refl

fields-drop_cr : (s : List ℕ) → fields (drop_cr s) ≡ fields s
unfolding fields drop_cr
fields-drop_cr [] = refl
fields-drop_cr (c ∷ []) = ground arith
fields-drop_cr (c ∷ d ∷ s) = rw (fields-drop_cr (d ∷ s), starts_word-drop_cr (d ∷ s))

is_prefix-drop_cr : (p s : List ℕ) → All (λ c. c ≢ 13) p → is_prefix p (drop_cr s) ≡ is_prefix p s
unfolding is_prefix drop_cr
is_prefix-drop_cr [] s a = refl
is_prefix-drop_cr (a ∷ p) [] h = refl
is_prefix-drop_cr (a ∷ p) (c ∷ []) h = ground arith
is_prefix-drop_cr (a ∷ p) (c ∷ d ∷ s) h = rw (is_prefix-drop_cr p (d ∷ s) h.1)

-- "Udp:" has no carriage return.
is_udp-drop_cr : (s : List ℕ) → is_udp (drop_cr s) ≡ is_udp s
is_udp-drop_cr s =
    is_prefix-drop_cr (codes "Udp:") s
      (λ e. omega arith, (λ e. omega arith, (λ e. omega arith, (λ e. omega arith, tt))))

rows-cons :
    (l : List ℕ) (ls ks : List (List ℕ)) → rows ls ≡ rows ks → rows (drop_cr l ∷ ls) ≡ rows (l ∷ ks)
unfolding rows
rows-cons l ls ks e = rw (is_udp-drop_cr l, fields-drop_cr l, e)

if_fits {ℓ} :
    {A : Type ℓ} (n : ℕ) (x y : A) → n < max_token → (if ltb n max_token then x else y) ≡ x
if_fits n x y h = rw (lt→ltb n max_token h)

pub rows-scanned :
    (ls : List (List ℕ)) → All (λ l. length l < max_token) ls → rows (scanned ls) ≡ rows ls
unfolding scanned
rows-scanned [] a = refl
rows-scanned ([] ∷ []) a = unfold rows is_prefix in refl
rows-scanned ((c ∷ s) ∷ []) a =
    ap rows (if_fits (length (c ∷ s)) (drop_cr (c ∷ s) ∷ []) [] a.0) ∙ rows-cons (c ∷ s) [] [] refl
rows-scanned (l ∷ k ∷ ls) a =
    ap rows (if_fits (length l) (drop_cr l ∷ scanned (k ∷ ls)) [] a.0)
    ∙ rows-cons l (scanned (k ∷ ls)) (k ∷ ls) (rows-scanned (k ∷ ls) a.1)

parse_lines_header :
    (h : List (List ℕ)) (ls : List (List ℕ))
    → parse_lines (some h) ls ≡ table counters_of (some h) (rows ls)
unfolding parse_lines rows
parse_lines_header h [] = refl
parse_lines_header h (l ∷ ls) = ground (arith, parse_lines_header h ls)

pub table-none :
    {A : Type 0} (read : List (List ℕ) → List (List ℕ) → A) (h : List (List ℕ))
    (rs : List (List (List ℕ)))
    → table read none (h ∷ rs) ≡ table read (some h) rs
table-none read h [] = refl
table-none read h (r ∷ rs) = refl

pub parse_lines_lem : (ls : List (List ℕ)) → parse_lines none ls ≡ table counters_of none (rows ls)
unfolding parse_lines rows
parse_lines_lem [] = refl
parse_lines_lem (l ∷ ls) = elim (Bool-cases (is_udp l)) [
  | inl e ↦ rw (e, parse_lines_header (fields l) ls, table-none counters_of (fields l) (rows ls))
  | inr n ↦ rw (n, parse_lines_lem ls)
]

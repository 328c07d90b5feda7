-- ===== src/Blast/Spec/Headers.antt =====
-- internal/ui/ui.go (`validateRunRequest`, `appendRunHeaders`) and `applyHeaders` of blast and probe: the
-- headers that a browser asks the panel for, on their way into a request.
use mathlib.Core.Path.{ap₂}
use quicshot.Prelude.{
  ℕ, ◌+◌, ◌≡◌, refl, ◌∙◌, true, List, [], ◌∷◌, Option, none, some, ◌==◌, length, drop,
  length-append, Bool-cases, inl, inr, arith,
}
use quicshot.Prelude.Bytes.{codes, contains, is_prefix}
use quicshot.Blast.Spec.{cut, cut_more, field_of, add_headers}
use quicshot.Ui.Commands.{ok}
use quicshot.Ui.Commands.Run.{header_ok, check_headers, header_flags}

-- What the flag package hands to `headerList.Set`: the text behind "-header=".
unfoldable header_values : List (List ℕ) → List (List ℕ)
header_values [] = []
header_values (f ∷ fs) = drop 8 f ∷ header_values fs

length-cut_more :
    (c : ℕ) (o : Option (List ℕ × List ℕ)) → length (field_of (cut_more c o)) ≡ length (field_of o)
length-cut_more c none = refl
length-cut_more c (some (k, v)) = refl

cut-contains : (h : List ℕ) → contains h (codes ":") ≡ true → length (field_of (cut b':' h)) ≡ 1
unfolding contains is_prefix cut
cut-contains [] e = cc
cut-contains (c ∷ s) e = elim (Bool-cases (c == b':')) [
  | inl q ↦ rw q refl
  | inr n ↦ rw n (length-cut_more c (cut b':' s) ∙ cut-contains s (ground (arith, e, n)))
]

-- Every header that the panel lets through, but for the empty ones, becomes one field of each request
-- that blast or probe sends: none is passed over for want of a colon.
add_headers-header_flags :
    (hs : List (List ℕ))
    → check_headers hs ≡ ok []
    → length (add_headers (header_values (header_flags hs))) ≡ length (header_flags hs)
unfolding add_headers header_values header_flags check_headers
add_headers-header_flags [] e = refl
add_headers-header_flags ([] ∷ hs) e = add_headers-header_flags hs e
add_headers-header_flags ((c ∷ s) ∷ hs) e = elim (Bool-cases (header_ok (c ∷ s))) [
  | inr n ↦ absurd (ground (arith, n, e))
  | inl k ↦
      length-append (field_of (cut b':' (c ∷ s))) (add_headers (header_values (header_flags hs)))
      ∙ ap₂ (λ m n. m + n) (cut-contains (c ∷ s) (ground (arith, k)))
          (add_headers-header_flags hs (ground (arith, k, e)))
      ∙ omega arith
]

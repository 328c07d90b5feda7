-- ===== src/Edge/Balance/Rotation.antt =====
-- internal/edge/edge.go, `pickConnectorIndex`: the range of the index, the turns and the hash.
use native.Mathlib.Nat.{mod-lt, mod-eq_of_lt, add-mod_right}
use native.Mathlib.Numerals.{add-one}
use quicshot.Prelude.{
  ℕ, zero, suc, ◌+◌, ◌%◌, ◌≤◌, ◌<◌, ◌≡◌, ◌≢◌, refl, ap, ◌∙◌, String, List, [], ◌∷◌, ◌++◌, ◌==◌, ltb,
  eq_iff, if◌then◌else◌, length, arith,
}
use quicshot.Edge.Balance.{u32_mod, u64_mod, fnv32a, pick_connector_index}

-- With 0 < n < 2^32 connectors the index is one of theirs, in every mode, for every path and every
-- counter.
pub pick_connector_index-lt :
    (n : ℕ) (key : List ℕ) (mode : String) (rr : ℕ)
    → 0 < n
    → n < u32_mod
    → (pick_connector_index n key mode rr).0 < n
unfolding pick_connector_index
pick_connector_index-lt n key mode rr h k =
    ground (arith, mod-lt rr h, mod-lt (fnv32a key) h, mod-eq_of_lt k)

-- The indices that requests for these paths get, one after another, among `n` connectors.
unfoldable pub turns : ℕ → String → List (List ℕ) → ℕ → List ℕ
turns n mode [] rr = []
turns n mode (path ∷ paths) rr =
    let (i, rr') = pick_connector_index n path mode rr in i ∷ turns n mode paths rr'

unfoldable pub count : ℕ → List ℕ → ℕ
count a [] = 0
count a (x ∷ xs) = (if x == a then 1 else 0) + count a xs

-- `k` residues from `r` on.
window : ℕ → ℕ → ℕ → List ℕ
window n r zero = []
window n r (suc k) = r % n ∷ window n (r + 1) k

count-append : (a : ℕ) (xs ys : List ℕ) → count a (xs ++ ys) ≡ count a xs + count a ys
unfolding count
count-append a [] ys = omega arith
count-append a (x ∷ xs) ys = omega (arith, count-append a xs ys)

window-snoc : (n r k : ℕ) → window n r (suc k) ≡ window n r k ++ ((r + k) % n ∷ [])
unfolding window
window-snoc n r zero = ap (λ t. t % n ∷ []) (omega arith)
window-snoc n r (suc k) =
    ap (λ t. r % n ∷ t)
      (window-snoc n (r + 1) k ∙ ap (λ t. window n (r + 1) k ++ (t % n ∷ [])) (omega arith))

-- From a multiple of `n` on, the first `k` residues are the first `k` numbers.
count-window_start : (n i k : ℕ) → k ≤ n → count i (window n 0 k) ≡ (if ltb i k then 1 else 0)
unfolding count window
count-window_start n i zero h = ground arith
count-window_start n i (suc k) h = ground (
  arith,
  ap (count i) (window-snoc n 0 k),
  count-append i (window n 0 k) ((0 + k) % n ∷ []),
  count-window_start n i k,
  mod-eq_of_lt {n = k} {m = n},
)

-- Moving on by one drops a residue and adds it again at the end.
count-window_slide : (n i r : ℕ) → count i (window n (r + 1) n) ≡ count i (window n r n)
unfolding count window
count-window_slide n i r = ground (
  arith,
  ap (count i) (window-snoc n r n),
  count-append i (window n r n) ((r + n) % n ∷ []),
  add-mod_right r n,
)

count-window : (n i r : ℕ) → i < n → count i (window n r n) ≡ 1
count-window n i zero h = ground (arith, count-window_start n i n)
count-window n i (suc r) h = ground (
  arith,
  count-window n i r h,
  count-window_slide n i r,
  ap (λ t. count i (window n t n)) (add-one r),
)

turn :
    (n : ℕ) (path : List ℕ) (mode : String) (rr : ℕ)
    → 0 < n
    → mode ≢ "hash"
    → pick_connector_index n path mode rr ≡ (rr % n, (rr + 1) % u64_mod)
unfolding pick_connector_index
turn n path mode rr h ne = ground (arith, eq_iff mode "hash")

turns-window :
    (n : ℕ) (mode : String) (paths : List (List ℕ)) (rr : ℕ)
    → 0 < n
    → mode ≢ "hash"
    → rr + length paths ≤ u64_mod
    → turns n mode paths rr ≡ window n rr (length paths)
unfolding turns window
turns-window n mode [] rr h ne b = refl
turns-window n mode (path ∷ []) rr h ne b = rw (turn n path mode rr h ne) refl
turns-window n mode (path ∷ next ∷ paths) rr h ne b =
    let later = turns-window n mode (next ∷ paths) (rr + 1) h ne (omega arith) in
    let counted : (rr + 1) % u64_mod ≡ rr + 1 = mod-eq_of_lt (omega arith) in
    rw (turn n path mode rr h ne, counted) (ap (λ t. rr % n ∷ t) later)

-- Round robin is fair, whatever the paths of the requests: in every mode but "hash", while the set of
-- `n` live connectors stays the same and the uint64 counter does not wrap, any `n` consecutive
-- requests are given to each connector exactly once.
pub turns_fair :
    (n i : ℕ) (mode : String) (paths : List (List ℕ)) (rr : ℕ)
    → i < n
    → mode ≢ "hash"
    → length paths ≡ n
    → rr + n ≤ u64_mod
    → count i (turns n mode paths rr) ≡ 1
turns_fair n i mode paths rr h ne e b =
    let all : turns n mode paths rr ≡ window n rr n =
      turns-window n mode paths rr (omega arith) ne (omega arith) ∙ ap (window n rr) e in
    rw all (count-window n i rr h)

-- With n > 0 connectors: in hash mode the same non-empty path always gets the same connector, whatever
-- the counter, and the pick does not move the counter; with an empty path, or in any other mode, the
-- pick takes one turn.
pub pick_connector_index_sticky :
    (n b : ℕ) (key : List ℕ) (mode : String) (rr rr' : ℕ)
    → 0 < n
    → mode ≢ "hash"
    → (pick_connector_index n (b ∷ key) "hash" rr
        ≡ ((pick_connector_index n (b ∷ key) "hash" rr').0, rr))
      × (pick_connector_index n [] "hash" rr ≡ (rr % n, (rr + 1) % u64_mod))
      × (pick_connector_index n key mode rr ≡ (rr % n, (rr + 1) % u64_mod))
unfolding pick_connector_index
pick_connector_index_sticky n b key mode rr rr' h ne =
    (ground arith, ground arith, ground (arith, eq_iff mode "hash"))

-- ===== src/Edge/Balance.antt =====
-- internal/edge/edge.go, `pickConnectorIndex`: which of the live connectors takes a request. The
-- hash is FNV-1a of the standard library's hash/fnv, over the bytes of the request path. The `int`
-- argument is a count, so it is not negative.
pub mod Rotation
use quicshot.Prelude.{
  is_empty, not, ℕ, suc, ◌+◌, ◌*◌, ◌%◌, ◌^◌, ◌<◌, ◌≡◌, refl, Bool, ◌&&◌, true, false, String, List,
  [], ◌∷◌, bit_xor, str_eq, ◌==◌, if◌then◌else◌, arith,
}

abbrev pub u32_mod : ℕ
u32_mod = 4294967296

abbrev pub u64_mod : ℕ
u64_mod = 18446744073709551616

fnv32a_from : ℕ → List ℕ → ℕ
fnv32a_from h [] = h
fnv32a_from h (b ∷ bs) = fnv32a_from (bit_xor h b * 16777619 % u32_mod) bs

unfoldable pub fnv32a : List ℕ → ℕ
unfolding fnv32a_from
fnv32a bs = fnv32a_from 2166136261 bs

-- The index chosen, and the round-robin counter afterwards.
unfoldable pub pick_connector_index : ℕ → List ℕ → String → ℕ → ℕ × ℕ
pick_connector_index n key mode rr =
    if n == 0
    then (0, rr)
    else if str_eq mode "hash" && not (is_empty key)
    then (fnv32a key % (n % u32_mod), rr)
    else (rr % n, (rr + 1) % u64_mod)

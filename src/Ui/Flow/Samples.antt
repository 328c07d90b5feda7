-- ===== src/Ui/Flow/Samples.antt =====
-- internal/ui/ui.go: `appendSample` and `avgMs`.
use native.Mathlib.Nat.{div-add-mod, mod-lt}
use quicshot.Prelude.{
  ap, sym, ◌∙◌, dec_lt, ℕ, zero, suc, ◌+◌, ◌-◌, ◌*◌, ◌/◌, ◌≤◌, ◌<◌, ◌≡◌, refl, List, [], ◌∷◌, ◌++◌,
  length, length-append, length-drop, take-append-drop, take, drop, min, arith,
}
use quicshot.Prelude.Members.{All}
use quicshot.Ui.Flow.{append_sample, sum, avg_ms}

drop_none : (n : ℕ) (xs : List ℕ) → n ≡ 0 → drop n xs ≡ xs
drop_none zero xs e = refl
drop_none (suc n) xs e = absurd (omega arith)

kept :
    (samples : List ℕ) (v keep : ℕ)
    → drop (length (samples ++ (v ∷ [])) - keep) (samples ++ (v ∷ []))
      ≡ append_sample samples v keep
unfolding append_sample
kept samples v keep =
    ground (arith, drop_none (length (samples ++ (v ∷ [])) - keep) (samples ++ (v ∷ [])))

-- After a sample there are at most `keep`, one more than before until then, and they are the last
-- ones: all that were dropped stood in front of all that are left, the new one last.
pub append_sample_lem :
    (samples : List ℕ) (v keep : ℕ)
    → (length (append_sample samples v keep) ≡ min (length samples + 1) keep)
      × ((dropped : List ℕ) × (samples ++ (v ∷ []) ≡ dropped ++ append_sample samples v keep))
unfolding append_sample
append_sample_lem samples v keep =
    let longer = samples ++ (v ∷ []) in
    (
      ground (arith, length-append samples (v ∷ []), length-drop (length longer - keep) longer),
      (
        take (length longer - keep) longer,
        sym (take-append-drop (length longer - keep) longer)
            ∙ ap (λ l. take (length longer - keep) longer ++ l) (kept samples v keep),
      ),
    )

sum_bounds :
    (lo hi : ℕ) (ns : List ℕ)
    → All (λ n. (lo ≤ n) × (n ≤ hi)) ns
    → (lo * length ns ≤ sum ns) × (sum ns ≤ hi * length ns)
unfolding sum
sum_bounds lo hi [] a = (omega arith, omega arith)
sum_bounds lo hi (n ∷ ns) a =
    (omega (arith, sum_bounds lo hi ns a.1), omega (arith, sum_bounds lo hi ns a.1))

div_ge : (lo k s : ℕ) → 0 < k → lo * k ≤ s → lo ≤ s / k
div_ge lo k s h b = elim (dec_lt (s / k) lo) [
  | yes small ↦ absurd (grind (arith, div-add-mod s k, mod-lt s h))
  | no large ↦ omega arith
]

div_le : (hi k s : ℕ) → 0 < k → s ≤ hi * k → s / k ≤ hi
div_le hi k s h b = elim (dec_lt hi (s / k)) [
  | yes large ↦ absurd (grind (arith, div-add-mod s k))
  | no small ↦ omega arith
]

-- The average of samples that exist lies between any bounds that hold of all of them.
pub avg_ms_bounds :
    (lo hi n : ℕ) (ns : List ℕ)
    → All (λ k. (lo ≤ k) × (k ≤ hi)) (n ∷ ns)
    → (lo ≤ avg_ms (n ∷ ns)) × (avg_ms (n ∷ ns) ≤ hi)
unfolding avg_ms
avg_ms_bounds lo hi n ns a =
    let b = sum_bounds lo hi (n ∷ ns) a in
    let k : ℕ = suc (length ns) in
    (
      ground (arith, div_ge lo k (sum (n ∷ ns)) (omega arith) b.0),
      ground (arith, div_le hi k (sum (n ∷ ns)) (omega arith) b.1),
    )

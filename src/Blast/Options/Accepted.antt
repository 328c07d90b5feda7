-- ===== src/Blast/Options/Accepted.antt =====
-- internal/blast/blast.go, `validate`: on the configuration that a request to the panel means.
use quicshot.Blast.Config.{validate}
use quicshot.Blast.Config.Limits.{validate-none}
use quicshot.Prelude.{
  ℕ, ◌≡◌, refl, sym, ◌∙◌, Bool, true, false, List, none, if◌then◌else◌, Bool-cases, inl, inr, ◌↔◌,
  ◌⊎◌, ◌≤◌, arith,
}
use quicshot.Prelude.Bytes.{codes, bytes_eq}
use quicshot.Prelude.Int.{ℤ, pos, ltb_ℤ, ◌≤ℤ◌}
use quicshot.Blast.Options.{config_of}
use quicshot.Ui.Commands.{clamp}
use quicshot.Ui.Commands.Run.{RunReq}
use quicshot.Blast.Options.Wanted.{wanted}

clamp_positive : (v : ℤ) (hi : ℕ) → 1 ≤ hi → pos 1 ≤ℤ clamp v (pos 1) (pos hi)
unfolding clamp
clamp_positive v hi h = ground arith

abbrev rate : ℤ → ℕ → ℤ × ℕ
rate n d = if ltb_ℤ (pos 0) n then (n, d) else (pos 0, 1)

rate_positive : (n : ℤ) (d : ℕ) → (pos 1 ≤ℤ (rate n d).0) ↔ (pos 1 ≤ℤ n)
rate_positive n d = elim (Bool-cases (ltb_ℤ (pos 0) n)) [
  | inl p ↦ rw p (λ h. h, λ h. h)
  | inr z ↦ rw z (λ h. elim h [ ], λ h. absurd (ground (arith, z, h)))
]

closed_ne_open : codes "open" ≡ codes "closed" → ⊥
closed_ne_open e = cc

mode_accepted :
    (n : Type 0) (b : Bool) (m : List ℕ)
    → m ≡ (if b then codes "open" else codes "closed")
    → ((m ≡ codes "closed") ⊎ ((m ≡ codes "open") × n)) ↔ ((b ≡ false) ⊎ n)
mode_accepted n true m e = (
  λ h. elim h [ inl c ↦ absurd (closed_ne_open (sym e ∙ c)) | inr p ↦ inr p.1 ],
  λ h. elim h [ inl f ↦ cc | inr p ↦ inr (e, p) ],
)
mode_accepted n false m e = (λ h. inl refl, λ h. inl e)

pub validate-wanted :
    (req : RunReq) (target : List ℕ)
    → (validate (config_of (wanted req target)) ≡ none)
      ↔ ((bytes_eq req.mode (codes "open") ≡ false) ⊎ (pos 1 ≤ℤ req.rps_num))
unfolding config_of wanted
validate-wanted req target =
    let v = validate-none (config_of (wanted req target)) in
    let mode =
      mode_accepted (pos 1 ≤ℤ (rate req.rps_num req.rps_den).0) (bytes_eq req.mode (codes "open")) _
        refl in
    let positive = rate_positive req.rps_num req.rps_den in
    (
      λ h. elim (mode.0 (v.0 h).0) [ inl f ↦ inl f | inr p ↦ inr (positive.0 p) ],
      λ h. v.1 (
        mode.1 (elim h [ inl f ↦ inl f | inr p ↦ inr (positive.1 p) ]),
        clamp_positive req.conns 64 (omega arith),
        clamp_positive req.workers 256 (omega arith),
      ),
    )

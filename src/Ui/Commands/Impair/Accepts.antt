-- ===== src/Ui/Commands/Impair/Accepts.antt =====
-- internal/ui/ui.go, `buildImpairCommand`: what is accepted, and what reaches the script.
use quicshot.Prelude.{
  is_empty, ℕ, ◌≡◌, ◌≢◌, ◌↔◌, ◌⊎◌, inl, inr, refl, sym, ap, Bool, true, false, not, ◌||◌, List, [],
  ◌∷◌, if◌then◌else◌, arith, Bool-cases,
}
use quicshot.Prelude.Bytes.{codes, bytes_eq, bytes_eq_iff}
use quicshot.Prelude.Members.{Member, All}
use quicshot.Ui.Commands.{
  with_arg, CommandError, unknown_impairment, Checked, ok, refused, one_of, is_netem,
}
use quicshot.Ui.Commands.Values.{IsNetem, is_netem_lem, one_of_iff}
use quicshot.Ui.Commands.Impair.{
  ImpairReq, services, netem_modes, netem_args, behind, build_impair_command,
}

-- The values that are given, in their order.
abbrev pub given : List (List ℕ) → List (List ℕ)
given [] = []
given (v ∷ vs) = if is_empty v then given vs else v ∷ given vs

-- Either all the values that are given are impairment values, and are the arguments, or the result is
-- a refusal.
netem_args_lem :
    (vs : List (List ℕ))
    → ((netem_args vs ≡ ok (given vs)) × All IsNetem (given vs))
      ⊎ (((args : List (List ℕ)) → netem_args vs ≢ ok args) × ¬ All IsNetem (given vs))
unfolding netem_args
netem_args_lem [] = inl (refl, tt)
netem_args_lem (v ∷ vs) = elim (Bool-cases (is_empty v)) [
  | inl e ↦ rw e (netem_args_lem vs)
  | inr f ↦ elim (Bool-cases (is_netem v)) [
    | inl n ↦ elim (netem_args_lem vs) [
      | inl good ↦ rw (f, n, good.0) (inl (refl, ((is_netem_lem v).0 n, good.1)))
      | inr bad ↦ rw (f, n) (inr (refused_more v (netem_args vs) bad.0, λ a. bad.1 a.1))
    ]
    | inr n ↦ rw (f, n) (inr (λ args e. cc, λ a. not_netem v n a.0))
  ]
]
  where
    refused_more :
        (v : List ℕ) (r : Checked (List (List ℕ)))
        → ((args : List (List ℕ)) → r ≢ ok args)
        → (args : List (List ℕ)) → with_arg v r ≢ ok args
    refused_more v (ok es) h args = absurd (h es refl)
    refused_more v (refused why) h args = λ e. cc

    not_netem : (v : List ℕ) → is_netem v ≡ false → ¬ IsNetem v
    not_netem v n k = ground (arith, (is_netem_lem v).1 k)

abbrev pub values_of : ImpairReq → List (List ℕ)
values_of req = req.a ∷ req.b ∷ req.burst ∷ []

-- What a request that is accepted is: a service and a mode of the lists, and, but for the mode
-- "clear", values that are all impairment values.
abbrev pub Accepted : ImpairReq → List (List ℕ) → Type 0
Accepted req args =
    Member req.service services
    × Member req.mode netem_modes
    × (((req.mode ≡ codes "clear") × (args ≡ req.service ∷ req.mode ∷ []))
        ⊎ ((req.mode ≢ codes "clear")
            × (All IsNetem (given (values_of req))
                × (args ≡ req.service ∷ req.mode ∷ given (values_of req)))))

false-ne-true : ¬ (false ≡ true)
false-ne-true h = cc

ok_inj : (x y : List (List ℕ)) → ok x ≡ ok y → x ≡ y
ok_inj x y h = cc

behind_ne :
    (service mode : List ℕ) (r : Checked (List (List ℕ)))
    → ((args : List (List ℕ)) → r ≢ ok args)
    → (args : List (List ℕ)) → behind service mode r ≢ ok args
behind_ne service mode (ok es) h args = absurd (h es refl)
behind_ne service mode (refused why) h args = λ e. cc

-- The branch behind the test of service and mode, for a mode that is not "clear".
with_values :
    (req : ImpairReq) (args : List (List ℕ))
    → (behind req.service req.mode (netem_args (values_of req)) ≡ ok args) ↔ (
        All IsNetem (given (values_of req))
        × (args ≡ req.service ∷ req.mode ∷ given (values_of req)))
with_values req args = elim (netem_args_lem (values_of req)) [
  | inl good ↦ rw good.0 (λ e. (good.1, sym (ok_inj _ args e)), λ p. ap (λ l. ok l) (sym p.1))
  | inr bad ↦ (
    λ e. absurd (behind_ne req.service req.mode (netem_args (values_of req)) bad.0 args e),
    λ p. absurd (bad.1 p.0),
  )
]

-- Two tests that refuse, and one that decides between two results.
guarded :
    {S M C X Y : Type 0} (s m c : Bool) (why : CommandError) (x y : Checked (List (List ℕ)))
    (args : List (List ℕ))
    → (s ≡ true) ↔ S
    → (m ≡ true) ↔ M
    → (c ≡ true) ↔ C
    → (x ≡ ok args) ↔ X
    → (y ≡ ok args) ↔ Y
    → ((if not s || not m then refused why else if c then x else y) ≡ ok args)
      ↔ (S × M × ((C × X) ⊎ ((¬ C) × Y)))
guarded false m c why x y args hs hm hc hx hy = (λ e. cc, λ p. absurd (false-ne-true (hs.1 p.0)))
guarded true false c why x y args hs hm hc hx hy = (λ e. cc, λ p. absurd (false-ne-true (hm.1 p.1)))
guarded true true true why x y args hs hm hc hx hy = (
  λ e. (hs.0 refl, hm.0 refl, inl (hc.0 refl, hx.0 e)),
  λ p. elim p.2 [ inl q ↦ hx.1 q.1 | inr q ↦ absurd (q.0 (hc.0 refl)) ],
)
guarded true true false why x y args hs hm hc hx hy = (
  λ e. (hs.0 refl, hm.0 refl, inr (λ k. false-ne-true (hc.1 k), hy.0 e)),
  λ p. elim p.2 [ inl q ↦ absurd (false-ne-true (hc.1 q.0)) | inr q ↦ hy.1 q.1 ],
)

-- A request is accepted, with these arguments for the script, exactly if its service and its mode are
-- known and either the mode is "clear", which takes no values, or each value that is given is an
-- impairment value; the values follow in their order.
pub build_impair_command_lem :
    (req : ImpairReq) (args : List (List ℕ))
    → (build_impair_command req ≡ ok args) ↔ Accepted req args
unfolding build_impair_command
build_impair_command_lem req args =
    guarded (one_of services req.service) (one_of netem_modes req.mode)
      (bytes_eq req.mode (codes "clear")) unknown_impairment (ok (req.service ∷ req.mode ∷ []))
      (behind req.service req.mode (netem_args (values_of req))) args
      (one_of_iff services req.service) (one_of_iff netem_modes req.mode)
      (bytes_eq_iff req.mode (codes "clear"))
      (λ e. sym (ok_inj _ args e), λ p. ap (λ l. ok l) (sym p)) (with_values req args)

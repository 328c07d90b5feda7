-- ===== src/Ui/Commands/Stack/Safe.antt =====
-- internal/ui/ui.go, `stackCommand`: what can reach the environment and the arguments of docker.
use quicshot.Prelude.{
  is_empty, ℕ, ◌≤◌, ◌≡◌, ◌⊎◌, inl, inr, refl, ap, subst, Bool, true, false, ◌||◌, List, [], ◌∷◌,
  if◌then◌else◌, arith, Bool-cases,
}
use quicshot.Prelude.Bytes.{codes, bytes_eq, bytes_eq_iff}
use quicshot.Prelude.Int.{ℤ, pos, pos_part, ltb_ℤ}
use quicshot.Prelude.Members.{All, All-append}
use quicshot.Blast.CfCode.{decimal}
use quicshot.Ui.Commands.{
  with_arg, Checked, ok, refused, bad_connectors, unknown_action, is_duration,
}
use quicshot.Ui.Commands.Values.{IsDuration, is_duration_lem}
use quicshot.Ui.Commands.Stack.{
  StackReq, EnvVar, env_key, env_value, setting, duration_env, lb_env, scale_args, stack_args,
  all_parts, stack_command,
}

-- One of the five settings with a duration, or the load balancing mode "rr" or "hash".
abbrev pub IsSetting : List ℕ → Type 0
IsSetting e =
    ((k : EnvVar) × (v : List ℕ) × (e ≡ setting (env_key k) v) × IsDuration v)
    ⊎ (e ≡ setting (codes "EDGE_TUNNEL_LB") (codes "rr"))
    ⊎ (e ≡ setting (codes "EDGE_TUNNEL_LB") (codes "hash"))

-- One of four fixed calls, or the one that scales the connectors to at most ten.
abbrev pub IsComposeCall : List (List ℕ) → Type 0
IsComposeCall args =
    (args
      ≡ codes "compose"
        ∷ codes "up"
        ∷ codes "-d"
        ∷ codes "--build"
        ∷ codes "origin"
        ∷ codes "edge"
        ∷ codes "connector"
        ∷ [])
    ⊎ (args ≡ codes "compose" ∷ codes "down" ∷ [])
    ⊎ (args
        ≡ codes "compose" ∷ codes "up" ∷ codes "-d" ∷ codes "--force-recreate" ∷ codes "edge" ∷ [])
    ⊎ (args ≡ codes "compose" ∷ codes "stop" ∷ codes "connector" ∷ [])
    ⊎ ((n : ℕ) × (n ≤ 10) × (args ≡ scale_args (decimal n)))

-- What holds of a result that is not a refusal.
abbrev pub IfOk {ℓ} : {A : Type ℓ} → (A → Type 0) → Checked A → Type 0
IfOk P (ok a) = P a
IfOk P (refused why) = Unit {0}

with_arg-IfOk :
    (e : List ℕ) (r : Checked (List (List ℕ)))
    → IsSetting e
    → IfOk (All IsSetting) r
    → IfOk (All IsSetting) (with_arg e r)
with_arg-IfOk e (ok es) h a = (h, a)
with_arg-IfOk e (refused why) h a = tt

duration_env-IfOk :
    (req : StackReq) (order : List EnvVar) → IfOk (All IsSetting) (duration_env req order)
unfolding duration_env
duration_env-IfOk req [] = tt
duration_env-IfOk req (k ∷ ks) = elim (Bool-cases (is_empty (env_value req k))) [
  | inl e ↦ rw e (duration_env-IfOk req ks)
  | inr f ↦ elim (Bool-cases (is_duration (env_value req k))) [
    | inl d ↦
        rw (f, d)
          (with_arg-IfOk (setting (env_key k) (env_value req k)) (duration_env req ks)
            (inl (k, env_value req k, refl, (is_duration_lem (env_value req k)).0 d))
            (duration_env-IfOk req ks))
    | inr n ↦ rw (f, n) tt
  ]
]

lb_env-IfOk : (req : StackReq) → IfOk (All IsSetting) (lb_env req)
unfolding lb_env
lb_env-IfOk req = elim (Bool-cases (is_empty req.tunnel_lb)) [
  | inl e ↦ rw e tt
  | inr f ↦ elim (Bool-cases (bytes_eq req.tunnel_lb (codes "rr"))) [
    | inl r ↦
        rw (f, r)
          (
            inr (
                inl (
                  ap (setting (codes "EDGE_TUNNEL_LB"))
                    ((bytes_eq_iff req.tunnel_lb (codes "rr")).0 r))),
            tt,
          )
    | inr n ↦ elim (Bool-cases (bytes_eq req.tunnel_lb (codes "hash"))) [
      | inl h ↦
          rw (f, n, h)
            (
              inr (
                  inr (
                    ap (setting (codes "EDGE_TUNNEL_LB"))
                      ((bytes_eq_iff req.tunnel_lb (codes "hash")).0 h))),
              tt,
            )
      | inr m ↦ rw (f, n, m) tt
    ]
  ]
]

if-IfOk :
    (b : Bool) (x y : Checked (List (List ℕ)))
    → (b ≡ true → IfOk IsComposeCall x)
    → (b ≡ false → IfOk IsComposeCall y)
    → IfOk IsComposeCall (if b then x else y)
if-IfOk true x y h k = h refl
if-IfOk false x y h k = k refl

at_most_ten : (n : ℤ) → (ltb_ℤ n (pos 0) || ltb_ℤ (pos 10) n) ≡ false → pos_part n ≤ 10
at_most_ten n h = ground arith

one_printed : decimal 1 ≡ codes "1"
unfolding decimal
one_printed = refl

scale_args-IsComposeCall : (n : ℕ) → n ≤ 10 → IsComposeCall (scale_args (decimal n))
scale_args-IsComposeCall n h = inr (inr (inr (inr (n, h, refl))))

scale_one : IsComposeCall (scale_args (codes "1"))
scale_one =
    subst (λ d. IsComposeCall (scale_args d)) one_printed (scale_args-IsComposeCall 1 (omega arith))

scaled-IfOk :
    (n : ℤ)
    → IfOk IsComposeCall (
        if ltb_ℤ n (pos 0) || ltb_ℤ (pos 10) n
        then refused bad_connectors
        else ok (scale_args (decimal (pos_part n))))
scaled-IfOk n =
    if-IfOk (ltb_ℤ n (pos 0) || ltb_ℤ (pos 10) n) (refused bad_connectors)
      (ok (scale_args (decimal (pos_part n)))) (λ _. tt)
      (λ h. scale_args-IsComposeCall (pos_part n) (at_most_ten n h))

stack_args-IfOk : (req : StackReq) → IfOk IsComposeCall (stack_args req)
unfolding stack_args
stack_args-IfOk req = elim (Bool-cases (bytes_eq req.action (codes "up"))) [
  | inl h ↦ rw h (inl refl)
  | inr a ↦ elim (Bool-cases (bytes_eq req.action (codes "down"))) [
    | inl h ↦ rw (a, h) (inr (inl refl))
    | inr b ↦ elim (Bool-cases (bytes_eq req.action (codes "restart-edge"))) [
      | inl h ↦ rw (a, b, h) (inr (inr (inl refl)))
      | inr c ↦ elim (Bool-cases (bytes_eq req.action (codes "scale-connectors"))) [
        | inl h ↦ rw (a, b, c, h) (scaled-IfOk req.connectors)
        | inr d ↦ elim (Bool-cases (bytes_eq req.action (codes "stop-connector"))) [
          | inl h ↦ rw (a, b, c, d, h) (inr (inr (inr (inl refl))))
          | inr e ↦
              rw (a, b, c, d, e)
                (if-IfOk (bytes_eq req.action (codes "start-connector"))
                  (ok (scale_args (codes "1"))) (refused unknown_action) (λ _. scale_one) (λ _. tt))
        ]
      ]
    ]
  ]
]

all_parts-IfOk :
    (env lb args : Checked (List (List ℕ)))
    → IfOk (All IsSetting) env
    → IfOk (All IsSetting) lb
    → IfOk IsComposeCall args
    → IfOk (λ c. All IsSetting c.0 × IsComposeCall c.1) (all_parts env lb args)
all_parts-IfOk (refused why) lb args a b c = tt
all_parts-IfOk (ok env) (refused why) args a b c = tt
all_parts-IfOk (ok env) (ok more) (refused why) a b c = tt
all_parts-IfOk (ok env) (ok more) (ok args) a b c = (All-append IsSetting env more a b, c)

-- Whatever the request holds and in whatever order its settings are looked at: if it is accepted, then
-- the environment has only the five settings, each with a duration, and the load balancing mode "rr"
-- or "hash", and the arguments are one of four fixed calls or the scaling of the connectors to a
-- number from 0 to 10.
pub stack_command_safe :
    (order : List EnvVar) (req : StackReq) (env args : List (List ℕ))
    → stack_command order req ≡ ok (env, args)
    → All IsSetting env × IsComposeCall args
unfolding stack_command
stack_command_safe order req env args e =
    subst (IfOk (λ c. All IsSetting c.0 × IsComposeCall c.1)) e (
      all_parts-IfOk (duration_env req order) (lb_env req) (stack_args req)
        (duration_env-IfOk req order) (lb_env-IfOk req) (stack_args-IfOk req))

-- ===== src/Origin/Mux/Volume.antt =====
-- internal/origin/handlers.go: how much `/bytes` and `/drip` send, and that they end.
use quicshot.Prelude.{
  ℕ, zero, suc, ◌+◌, ◌-◌, ◌*◌, ◌≤◌, ◌<◌, ◌≡◌, refl, subst, ◌⊎◌, inl, inr, min, false, List, [], ◌∷◌,
  some, length, ltb, replicate, length-replicate, Option-cases, Bool-cases, arith,
}
use quicshot.Prelude.Bytes.{codes}
use quicshot.Prelude.Members.{Member}
use quicshot.Blast.CfCode.{itoa, decimal}
use quicshot.Prelude.Int.{ℤ, pos}
use quicshot.Origin.{Request, Act, set_header, write_body, wait, int_param, duration_param}
use quicshot.Origin.Handlers.{
  LoopEnd, complete, gave_up, buf_size, bytes_loop, handle_bytes, then_more, drip_loop, handle_drip,
}

-- The bytes of the response's body.
abbrev pub body_of : Act → ℕ
body_of (write_body b) = length b
body_of _ = 0

unfoldable pub body_bytes : List Act → ℕ
body_bytes [] = 0
body_bytes (a ∷ acts) = body_of a + body_bytes acts

-- The contract of `io.Writer`: less than all is written only with an error.
abbrev pub IsWriter : Request → Type 0
IsWriter r = (i n m : ℕ) → r.write i n ≡ some m → m ≡ n

abbrev pub IsSent : ℕ → List Act × LoopEnd → Type 0
IsSent n (acts, e) =
    ((e ≡ complete) × (body_bytes acts ≡ n)) ⊎ ((e ≡ gave_up) × (body_bytes acts < n))

IsSent-then_more :
    (n m : ℕ) (x : List Act × LoopEnd)
    → m ≤ n
    → IsSent (n - m) x
    → IsSent n (then_more (write_body (replicate m 0)) x)
unfolding body_bytes
IsSent-then_more n m (acts, e) h (inl (c, b)) = inl (c, omega (arith, length-replicate {A = ℕ} m 0))
IsSent-then_more n m (acts, e) h (inr (c, b)) = inr (c, omega (arith, length-replicate {A = ℕ} m 0))

bytes_loop_lem :
    (f : ℕ) (r : Request) (n written i : ℕ)
    → IsWriter r
    → n - written ≤ f
    → IsSent (n - written) (bytes_loop f r n written i)
unfolding bytes_loop body_bytes
bytes_loop_lem zero r n written i w h = inl (ground arith, omega arith)
bytes_loop_lem (suc f) r n written i w h = elim (Bool-cases (ltb written n)) [
  | inr e ↦ rw e (inl (refl, ground arith))
  | inl e ↦ elim (Option-cases (r.write i (min buf_size (n - written)))) [
    | inl o ↦ rw (e, o) (inr (refl, ground arith))
    | inr (m, o) ↦
        let k : m ≡ min buf_size (n - written) = w i (min buf_size (n - written)) m o in
        rw (e, o)
          (IsSent-then_more (n - written) m (bytes_loop f r n (written + m) (i + 1)) (omega arith) (
            subst (λ d. IsSent d (bytes_loop f r n (written + m) (i + 1))) (omega arith)
              (bytes_loop_lem f r n (written + m) (i + 1) w (ground arith))))
  ]
]

IsSent-header :
    (n : ℕ) (k v : List ℕ) (x : List Act × LoopEnd)
    → IsSent n x
    → IsSent n (then_more (set_header k v) x)
unfolding body_bytes
IsSent-header n k v (acts, e) (inl (c, b)) = inl (c, omega arith)
IsSent-header n k v (acts, e) (inr (c, b)) = inr (c, omega arith)

-- `/bytes` of `n` bytes ends, and has then written them all, as the length that it has announced says,
-- unless a write has failed, after which it has written fewer and stops.
pub handle_bytes_lem :
    (r : Request) (n : ℕ)
    → IsWriter r
    → int_param r "n" (pos 1048576) ≡ pos n
    → IsSent n (handle_bytes r)
      × Member (set_header (codes "content-length") (decimal n)) (handle_bytes r).0
unfolding handle_bytes itoa
handle_bytes_lem r n w e =
    let sent : IsSent n (bytes_loop n r n 0 0) =
      subst (λ k. IsSent k (bytes_loop n r n 0 0)) (omega arith)
        (bytes_loop_lem n r n 0 0 w (omega arith)) in
    let length_header = codes "content-length" in
    rw e (
      IsSent-header n (codes "content-type") (codes "application/octet-stream")
          (then_more (set_header length_header (decimal n)) (bytes_loop n r n 0 0))
          (IsSent-header n length_header (decimal n) (bytes_loop n r n 0 0) sent),
      inr (inl refl),
    )

unfoldable pub waits : List Act → ℕ
waits [] = 0
waits (wait d ∷ acts) = 1 + waits acts
waits (a ∷ acts) = waits acts

drip_loop_lem :
    (r : Request) (gap : ℤ) (size left i : ℕ)
    → ((j : ℕ) → r.write j size ≡ some size)
    → ((j : ℕ) → r.client_gone j ≡ false)
    → (body_bytes (drip_loop r gap size left i) ≡ left * size)
      × (waits (drip_loop r gap size left i) ≡ left)
unfolding drip_loop body_bytes waits
drip_loop_lem r gap size zero i w g = (omega arith, refl)
drip_loop_lem r gap size (suc left) i w g =
    ground
      (arith, w i, g i, length-replicate {A = ℕ} size 0, drip_loop_lem r gap size left (i + 1) w g)

drip_loop_bound :
    (r : Request) (gap : ℤ) (size left i : ℕ)
    → body_bytes (drip_loop r gap size left i) ≤ left * size
unfolding drip_loop body_bytes
drip_loop_bound r gap size zero i = omega arith
drip_loop_bound r gap size (suc left) i =
    ground (arith, length-replicate {A = ℕ} size 0, drip_loop_bound r gap size left (i + 1))

-- To a client that stays, `/drip` sends `chunks` times `size` bytes, with a pause after each chunk,
-- where `make` allows the size.
pub handle_drip_lem :
    (r : Request) (chunks size : ℕ)
    → int_param r "chunks" (pos 10) ≡ pos chunks
    → int_param r "size" (pos 1024) ≡ pos size
    → ltb r.make_limit size ≡ false
    → ((j : ℕ) → r.write j size ≡ some size)
    → ((j : ℕ) → r.client_gone j ≡ false)
    → (body_bytes (handle_drip r) ≡ chunks * size) × (waits (handle_drip r) ≡ chunks)
unfolding handle_drip body_bytes waits
handle_drip_lem r chunks size c s l w g =
    let d = drip_loop_lem r (duration_param r "ms" (pos 200000000)) size chunks 0 w g in
    rw (c, s, l) (omega (arith, d.0), d.1)

-- ===== src/Origin/Mux/Panics/Handlers.antt =====
-- internal/origin/handlers.go: which handlers panic, and when.
use quicshot.Prelude.{
  ℕ, zero, suc, ◌+◌, ◌≡◌, refl, ap, ◌∙◌, replicate, min, ltb, ◌-◌, Bool, true, false, ◌||◌, not,
  ◌&&◌, List, [], ◌∷◌, ◌++◌, if◌then◌else◌, arith, Bool-cases, Option-cases, inl, inr,
}
use quicshot.Prelude.Bytes.{codes}
use quicshot.Prelude.Int.{ℤ, pos, negsuc, pos_part, leb_ℤ}
use quicshot.Prelude.Maps.{string_key}
use quicshot.Blast.CfCode.{itoa}
use quicshot.Origin.{Request, Act, panic, write_header, write_body, wait, int_param, duration_param}
use quicshot.Origin.Handlers.{
  is_negative, make_panics, min_ℤ, drip_loop, bytes_loop, buf_size, stress_headers, slow_read_body,
  handle_slow, handle_drip, handle_flaky, handle_echo, handle_headers, handle_stall,
  handle_headers_then_hang,
}
use quicshot.Origin.Mux.{handle_reset, handle_accept_hang, handle_close_after_headers}

-- `WriteHeader` panics on a code that has not three digits.
abbrev pub bad_code : ℤ → Bool
bad_code c = not (leb_ℤ (pos 100) c && leb_ℤ c (pos 999))

abbrev pub panics_at : Act → Bool
panics_at panic = true
panics_at (write_header c) = bad_code c
panics_at _ = false

unfoldable pub panics : List Act → Bool
panics [] = false
panics (a ∷ acts) = panics_at a || panics acts

drip_loop-panics :
    (r : Request) (gap : ℤ) (size left i : ℕ) → panics (drip_loop r gap size left i) ≡ false
unfolding panics drip_loop
drip_loop-panics r gap size zero i = refl
drip_loop-panics r gap size (suc left) i = ground (arith, drip_loop-panics r gap size left (i + 1))

pub bytes_loop-panics :
    (f : ℕ) (r : Request) (n written i : ℕ) → panics (bytes_loop f r n written i).0 ≡ false
unfolding panics bytes_loop
bytes_loop-panics zero r n written i = refl
bytes_loop-panics (suc f) r n written i = elim (Bool-cases (ltb written n)) [
  | inr e ↦ rw e refl
  | inl e ↦ elim (Option-cases (r.write i (min buf_size (n - written)))) [
    | inl o ↦ rw (e, o) refl
    | inr (m, o) ↦ rw (e, o) (bytes_loop-panics f r n (written + m) (i + 1))
  ]
]

panics-append : (xs ys : List Act) → panics (xs ++ ys) ≡ (panics xs || panics ys)
unfolding panics
panics-append [] ys = refl
panics-append (x ∷ xs) ys = ground (arith, panics-append xs ys)

stress_headers-panics : (left i : ℕ) (pad : List ℕ) → panics (stress_headers left i pad) ≡ false
unfolding panics stress_headers
stress_headers-panics zero i pad = refl
stress_headers-panics (suc left) i pad = stress_headers-panics left (i + 1) pad

slow_read_body-panics :
    (r : Request) (gap : ℤ) (left i : ℕ) → panics (slow_read_body r gap left i) ≡ false
unfolding panics slow_read_body
slow_read_body-panics r gap zero i = ground arith
slow_read_body-panics r gap (suc left) i = ground (arith, slow_read_body-panics r gap left (i + 1))

pub handle_drip-panics :
    (r : Request)
    → panics (handle_drip r) ≡ make_panics r.make_limit (int_param r "size" (pos 1024))
unfolding panics handle_drip
handle_drip-panics r =
    let loop_ok =
      drip_loop-panics r (duration_param r "ms" (pos 200000000))
        (pos_part (int_param r "size" (pos 1024))) (pos_part (int_param r "chunks" (pos 10))) 0 in
    ground (arith, loop_ok)

is_negative_min : (v : ℤ) → is_negative (min_ℤ v (pos 2048)) ≡ is_negative v
is_negative_min (pos n) = ground arith
is_negative_min (negsuc n) = ground arith

-- What ends with a write panics only before it.
write_behind :
    (xs : List Act) (b : List ℕ) → panics xs ≡ false → panics (xs ++ (write_body b ∷ [])) ≡ false
unfolding panics
write_behind [] b h = refl
write_behind (x ∷ xs) b h = ground (arith, write_behind xs b)

if_negative :
    (b : Bool) (xs : List Act) (text : List ℕ)
    → panics xs ≡ false
    → panics (if b then panic ∷ [] else xs ++ (write_body text ∷ [])) ≡ b
if_negative true xs text h = unfold panics in refl
if_negative false xs text h = write_behind xs text h

pub handle_headers-panics :
    (r : Request) → panics (handle_headers r) ≡ is_negative (int_param r "size" (pos 64))
unfolding panics handle_headers
handle_headers-panics r =
    let size = min_ℤ (int_param r "size" (pos 64)) (pos 2048) in
    let n = min_ℤ (int_param r "n" (pos 32)) (pos 256) in
    let quiet = stress_headers-panics (pos_part n) 0 (replicate (pos_part size) b'x') in
    let text = codes "headers=" ++ (itoa n ++ (codes " size=" ++ (itoa size ++ (10 ∷ [])))) in
    ap
      (λ b. panics (
        if b
        then panic ∷ []
        else stress_headers (pos_part n) 0 (replicate (pos_part size) b'x')
          ++ (write_body text ∷ [])))
      (is_negative_min (int_param r "size" (pos 64)))
    ∙ if_negative (is_negative (int_param r "size" (pos 64)))
        (stress_headers (pos_part n) 0 (replicate (pos_part size) b'x')) text quiet

pub handle_stall-panics : (r : Request) → panics (handle_stall r) ≡ false
unfolding panics handle_stall
handle_stall-panics r =
    let gap = duration_param r "ms" (pos 250000000) in
    write_behind (if r.has_body then slow_read_body r gap r.reads 0 else wait gap ∷ [])
      (codes "stalled\n") (ground (arith, slow_read_body-panics r gap r.reads 0))

pub handle_waits-panics :
    (show : ℤ → List ℕ) (r : Request)
    → (panics (handle_slow show r) ≡ false) × (panics (handle_headers_then_hang r) ≡ false)
unfolding panics handle_slow handle_headers_then_hang
handle_waits-panics show r = (ground arith, ground arith)

pub handle_simple-panics :
    (err : List ℕ) (r : Request)
    → (panics (handle_flaky r) ≡ false) × (panics (handle_echo err r) ≡ false)
unfolding panics handle_flaky handle_echo
handle_simple-panics err r = (ground arith, ground arith)

pub handle_hijacks-panics :
    (r : Request)
    → (panics (handle_reset r) ≡ false)
      × ((panics (handle_accept_hang r) ≡ false) × (panics (handle_close_after_headers r) ≡ false))
unfolding panics handle_reset handle_accept_hang handle_close_after_headers
handle_hijacks-panics r = (ground arith, (ground arith, ground arith))

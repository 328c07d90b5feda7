-- ===== src/Origin/Mux/Panics.antt =====
-- internal/origin: which requests make a handler panic.
pub mod Handlers
use quicshot.Prelude.{
  ℕ, zero, suc, ◌+◌, ◌≡◌, refl, sym, eq_iff, ap, ◌∙◌, replicate, subst, min, ltb, ◌-◌, Bool, true,
  false, ◌||◌, not, ◌&&◌, String, List, [], ◌∷◌, ◌++◌, none, some, str_eq, if◌then◌else◌, arith,
  Bool-cases, Option-cases, inl, inr,
}
use quicshot.Prelude.Bytes.{codes}
use quicshot.Prelude.Int.{ℤ, pos, negsuc, pos_part, leb_ℤ}
use quicshot.Prelude.Maps.{lookup, string_key}
use quicshot.Prelude.Members.{All}
use quicshot.Blast.CfCode.{itoa}
use quicshot.Origin.{Request, Act, panic, write_header, write_body, wait, int_param, duration_param}
use quicshot.Origin.Handlers.{
  is_negative, make_panics, min_ℤ, drip_loop, bytes_loop, buf_size, stress_headers, slow_read_body,
  handle_slow, handle_drip, handle_bytes, handle_status, handle_flaky, handle_echo, handle_headers,
  handle_stall, handle_headers_then_hang,
}
use quicshot.Origin.Mux.{
  Texts, new_mux, serve, handle_reset, handle_accept_hang, handle_close_after_headers,
}
use Handlers.{
  bad_code, panics_at, panics, handle_drip-panics, handle_headers-panics, handle_stall-panics,
  handle_waits-panics, handle_simple-panics, handle_hijacks-panics, bytes_loop-panics,
}

-- Below 0 or above the limit.
abbrev pub out_of_range : ℤ → ℕ → Bool
out_of_range v limit = not (leb_ℤ (pos 0) v && leb_ℤ v (pos limit))

make_panics_lem : (v : ℤ) (limit : ℕ) → make_panics limit v ≡ out_of_range v limit
make_panics_lem (pos n) limit = ground arith
make_panics_lem (negsuc n) limit = ground arith

-- By the request and the platform's limit alone.
unfoldable pub is_fatal : String → Request → Bool
is_fatal path r =
    if str_eq "/status" path
    then bad_code (int_param r "code" (pos 200))
    else if str_eq "/drip" path
    then out_of_range (int_param r "size" (pos 1024)) r.make_limit
    else if str_eq "/headers" path
    then is_negative (int_param r "size" (pos 64))
    else false

handlers-panics :
    (t : Texts) (r : Request)
    → All {A = String × (Request → List Act)}
        (λ entry. panics (entry.1 r) ≡ is_fatal entry.0 r)
        (new_mux t)
unfolding new_mux is_fatal panics handle_bytes handle_status
handlers-panics t r =
    let waits = handle_waits-panics t.duration r in
    let simple = handle_simple-panics t.body_error r in
    let hijacks = handle_hijacks-panics r in
    (
      refl,
      (
        refl,
        (
          waits.0,
          (
            refl,
            (
              handle_drip-panics r ∙ make_panics_lem (int_param r "size" (pos 1024)) r.make_limit,
              (
                bytes_loop-panics (pos_part (int_param r "n" (pos 1048576))) r
                    (pos_part (int_param r "n" (pos 1048576))) 0 0,
                (
                  hijacks.0,
                  (
                    ground arith,
                    (
                      simple.0,
                      (
                        simple.1,
                        (
                          handle_headers-panics r,
                          (handle_stall-panics r, (waits.1, (hijacks.1.0, (hijacks.1.1, tt)))),
                        ),
                      ),
                    ),
                  ),
                ),
              ),
            ),
          ),
        ),
      ),
    )

lookup-All :
    {V : Type 0} (P : String × V → Type 0) (a : String) (m : List (String × V)) (v : V)
    → All P m
    → lookup a m ≡ some v
    → P (a, v)
unfolding lookup
lookup-All P a [] v h e = cc
lookup-All P a ((b, w) ∷ m) v h e = elim (Bool-cases (str_eq b a)) [
  | inl q ↦ ground (arith, subst (λ k. P (k, w)) ((eq_iff b a).0 q) h.0)
  | inr q ↦ lookup-All P a m v h.1 (ground (arith, q, e))
]

lookup-none :
    {V : Type 0} (a : String) (m : List (String × V))
    → lookup a m ≡ none
    → All {A = String × V} (λ entry. str_eq entry.0 a ≡ false) m
unfolding lookup
lookup-none a [] e = tt
lookup-none a ((b, w) ∷ m) e = (ground (arith, e), lookup-none a m (ground (arith, e)))

not_fatal :
    (t : Texts) (r : Request)
    → All {A = String × (Request → List Act)} (λ entry. str_eq entry.0 r.path ≡ false) (new_mux t)
    → is_fatal r.path r ≡ false
unfolding new_mux is_fatal
not_fatal t r a = rw (a.1.1.1.1.0, a.1.1.1.1.1.1.1.0, a.1.1.1.1.1.1.1.1.1.1.0) refl

-- A request panics if its path and its parameters say so, whatever the writer, the client and the
-- body do: "/status" of a code that has not three digits, "/drip" of a size that is negative or longer
-- than what `make` takes, and "/headers" of a negative size. No other request does.
pub serve-panics : (t : Texts) (r : Request) → panics (serve t r) ≡ is_fatal r.path r
unfolding serve panics
serve-panics t r = elim (Option-cases (lookup r.path (new_mux t))) [
  | inl e ↦ rw e (sym (not_fatal t r (lookup-none r.path (new_mux t) e)))
  | inr (h, e) ↦ rw e (
      lookup-All (λ entry. panics (entry.1 r) ≡ is_fatal entry.0 r) r.path (new_mux t) h
        (handlers-panics t r) e)
]

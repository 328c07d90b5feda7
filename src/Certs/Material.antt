-- ===== src/Certs/Material.antt =====
-- internal/certs/certs.go: what `Generate` leaves behind.
use quicshot.Prelude.{
  Bool, true, false, ℕ, ◌≡◌, refl, ap, ◌∙◌, String, List, ◌++◌, none, some, if◌then◌else◌,
}
use quicshot.Prelude.Maps.{lookup, insert, string_key, lookup-insert}
use quicshot.Certs.{
  Dir, ca_file, cert_file, key_file, left_by, written, write_error, Env, write_file, write_material,
  mint_and_write, generate, load_ca_pool, if_cert, is_there,
}

lookup_put :
    (a b : String) (v : List ℕ) (dir : Dir) (r : Bool)
    → string_key.same a b ≡ r
    → lookup b (insert a v dir) ≡ (if r then some v else lookup b dir)
lookup_put a b v dir r e = rw⁻¹ e (lookup-insert a b v dir)

reused :
    (env : Env) (dir : Dir)
    → env.mkdir_ok ≡ true
    → is_there (lookup cert_file dir) ≡ true
    → generate env false dir ≡ (dir, true)
unfolding generate
reused env dir m t = rw (m, t) refl

pub put_self :
    (a : String) (v : List ℕ) (dir : Dir)
    → string_key.same a a ≡ true
    → lookup a (insert a v dir) ≡ some v
put_self a v dir e = lookup_put a a v dir true e

pub put_other :
    (a b : String) (v : List ℕ) (dir : Dir)
    → string_key.same a b ≡ false
    → lookup b (insert a v dir) ≡ lookup b dir
put_other a b v dir e = lookup_put a b v dir false e

loaded :
    (has_cert : List ℕ → Bool) (dir : Dir) (pem : List ℕ)
    → lookup ca_file dir ≡ some pem
    → has_cert pem ≡ true
    → load_ca_pool has_cert dir ≡ some pem
unfolding load_ca_pool
loaded has_cert dir pem e p = ap (if_cert has_cert) e ∙ ap (λ b. if b then some pem else none) p

-- The directory with the first two files, and with all three.
abbrev with_cert : Env → List ℕ → List ℕ → Dir → Dir
with_cert env ca leaf dir =
    insert cert_file (env.pem "CERTIFICATE" leaf ++ env.pem "CERTIFICATE" ca)
      (insert ca_file (env.pem "CERTIFICATE" ca) dir)

abbrev with_key : Env → List ℕ → Dir → Dir
with_key env key dir = insert key_file (env.pem "EC PRIVATE KEY" key) dir

with_cert-cert :
    (env : Env) (ca leaf : List ℕ) (dir : Dir)
    → lookup cert_file (with_cert env ca leaf dir)
      ≡ some (env.pem "CERTIFICATE" leaf ++ env.pem "CERTIFICATE" ca)
with_cert-cert env ca leaf dir = put_self cert_file _ _ refl

generate_made :
    (env : Env) (force : Bool) (dir : Dir) (ca leaf key : List ℕ)
    → env.mkdir_ok ≡ true
    → lookup cert_file dir ≡ none
    → env.ca_der ≡ some ca
    → env.leaf_der ≡ some (leaf, key)
    → env.write ca_file ≡ written
    → env.write cert_file ≡ written
    → generate env force dir
      ≡ write_file env key_file (env.pem "EC PRIVATE KEY" key) (with_cert env ca leaf dir)
unfolding generate mint_and_write write_material write_file
generate_made env true dir ca leaf key m n c l w1 w2 = rw (m, c, l, w1, w2) refl
generate_made env false dir ca leaf key m n c l w1 w2 = rw (m, n, c, l, w1, w2) refl

-- When nothing fails, `Generate` leaves the certificate with the CA behind it and the key that belongs
-- to it, clients can load the CA, and a later `Generate` without `-force` leaves all as it is.
generate_lem :
    (env later : Env) (force : Bool) (dir : Dir) (ca leaf key : List ℕ) (has_cert : List ℕ → Bool)
    → env.mkdir_ok ≡ true
    → lookup cert_file dir ≡ none
    → env.ca_der ≡ some ca
    → env.leaf_der ≡ some (leaf, key)
    → ((name : String) → env.write name ≡ written)
    → has_cert (env.pem "CERTIFICATE" ca) ≡ true
    → later.mkdir_ok ≡ true
    → let (made, ok) = generate env force dir in
      (ok ≡ true)
      × ((lookup cert_file made ≡ some (env.pem "CERTIFICATE" leaf ++ env.pem "CERTIFICATE" ca))
          × ((lookup key_file made ≡ some (env.pem "EC PRIVATE KEY" key))
              × ((load_ca_pool has_cert made ≡ some (env.pem "CERTIFICATE" ca))
                  × (generate later false made ≡ (made, true)))))
unfolding write_file
generate_lem env later force dir ca leaf key has_cert m n c l w p k =
    let e : generate env force dir ≡ (with_key env key (with_cert env ca leaf dir), true) =
      generate_made env force dir ca leaf key m n c l (w ca_file) (w cert_file) ∙ key_written in
    let cert =
      put_other key_file cert_file (env.pem "EC PRIVATE KEY" key) (with_cert env ca leaf dir) refl
      ∙ with_cert-cert env ca leaf dir in
    let ca_there =
      put_other key_file ca_file (env.pem "EC PRIVATE KEY" key) (with_cert env ca leaf dir) refl
      ∙ put_other cert_file ca_file (env.pem "CERTIFICATE" leaf ++ env.pem "CERTIFICATE" ca)
          (insert ca_file (env.pem "CERTIFICATE" ca) dir) refl
      ∙ put_self ca_file (env.pem "CERTIFICATE" ca) dir refl in
    rw e (
      refl,
      (
        cert,
        (
          put_self key_file _ _ refl,
          (
            loaded has_cert (with_key env key (with_cert env ca leaf dir))
                (env.pem "CERTIFICATE" ca) ca_there p,
            reused later (with_key env key (with_cert env ca leaf dir)) k (rw cert refl),
          ),
        ),
      ),
    )
  where
    key_written :
        write_file env key_file (env.pem "EC PRIVATE KEY" key) (with_cert env ca leaf dir)
        ≡ (with_key env key (with_cert env ca leaf dir), true)
    key_written =
        ap (λ x. left_by x key_file (env.pem "EC PRIVATE KEY" key) (with_cert env ca leaf dir))
          (w key_file)

-- Where the certificate is written and the key is not, `Generate` reports the error, but the next one
-- without `-force` reports success, and there is still no key.
generate_half_written :
    (env later : Env) (dir : Dir) (ca leaf key : List ℕ)
    → env.mkdir_ok ≡ true
    → lookup cert_file dir ≡ none
    → lookup key_file dir ≡ none
    → env.ca_der ≡ some ca
    → env.leaf_der ≡ some (leaf, key)
    → env.write ca_file ≡ written
    → env.write cert_file ≡ written
    → env.write key_file ≡ write_error none
    → later.mkdir_ok ≡ true
    → let (half, ok) = generate env false dir in
      (ok ≡ false) × ((generate later false half ≡ (half, true)) × (lookup key_file half ≡ none))
unfolding write_file
generate_half_written env later dir ca leaf key m n k c l w1 w2 w3 q =
    let half = with_cert env ca leaf dir in
    let e : generate env false dir ≡ (half, false) =
      generate_made env false dir ca leaf key m n c l w1 w2
      ∙ ap (λ x. left_by x key_file (env.pem "EC PRIVATE KEY" key) half) w3 in
    rw e (
      refl,
      (
        reused later half q (rw (with_cert-cert env ca leaf dir) refl),
        put_other cert_file key_file _ _ refl ∙ put_other ca_file key_file _ _ refl ∙ k,
      ),
    )

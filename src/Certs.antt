-- ===== src/Certs.antt =====
-- internal/certs/certs.go: the files of the key material, and when they are written. A directory is a
-- map from file names to contents. Keys and certificates are made by the standard library and are
-- arguments here.
pub mod Material
pub mod Mint
mod Tests
use quicshot.Prelude.{
  Bool, true, false, ℕ, String, List, [], ◌∷◌, ◌++◌, Option, none, some, is_empty, if◌then◌else◌,
}
use quicshot.Prelude.Bytes.{codes}
use quicshot.Prelude.Maps.{lookup, insert, string_key}
use quicshot.Blast.Config.{trim_space}

abbrev pub Dir : Type 0
Dir = List (String × List ℕ)

abbrev pub ca_file : String
ca_file = "ca.pem"

abbrev pub cert_file : String
cert_file = "server.pem"

abbrev pub key_file : String
key_file = "server.key"

-- What `os.WriteFile` does: all is written, or an error, with what the file holds then, `none` where it
-- is as before.
pub data Write : Type 0 where
  written : Write
  write_error : Option (List ℕ) → Write

-- What the operating system and the libraries do during one `Generate`: the DER bytes of the CA, of the
-- certificate and of its key are `none` where they cannot be made.
pub record Env : Type 0 where
  pub mkdir_ok : Bool
  pub ca_der : Option (List ℕ)
  pub leaf_der : Option (List ℕ × List ℕ)
  pub write : String → Write
  -- `pem.EncodeToMemory` of a block of this type.
  pub pem : String → List ℕ → List ℕ

-- The directory afterwards, and whether there was no error.
abbrev pub left_by : Write → String → List ℕ → Dir → Dir × Bool
left_by written name bytes dir = (insert name bytes dir, true)
left_by (write_error none) name bytes dir = (dir, false)
left_by (write_error (some partial)) name bytes dir = (insert name partial dir, false)

unfoldable pub write_file : Env → String → List ℕ → Dir → Dir × Bool
write_file env name bytes dir = left_by (env.write name) name bytes dir

-- The next step, if there was no error.
abbrev pub and_then : Dir × Bool → (Dir → Dir × Bool) → Dir × Bool
and_then (dir, true) next = next dir
and_then (dir, false) next = (dir, false)

-- `server.pem` is the certificate, and the CA behind it.
unfoldable pub write_material : Env → List ℕ → List ℕ → List ℕ → Dir → Dir × Bool
write_material env ca leaf key dir =
    and_then (write_file env ca_file (env.pem "CERTIFICATE" ca) dir) (λ d.
      and_then (write_file env cert_file (env.pem "CERTIFICATE" leaf ++ env.pem "CERTIFICATE" ca) d)
        (λ g. write_file env key_file (env.pem "EC PRIVATE KEY" key) g))

abbrev pub is_there : Option (List ℕ) → Bool
is_there none = false
is_there (some bytes) = true

unfoldable pub mint_and_write : Env → Dir → Dir × Bool
mint_and_write env dir = elim env.ca_der [
  | none ↦ (dir, false)
  | some ca ↦ elim env.leaf_der [
    | none ↦ (dir, false)
    | some (leaf, key) ↦ write_material env ca leaf key dir
  ]
]

-- A certificate that is there is used again, but not where `force` is set.
unfoldable pub generate : Env → Bool → Dir → Dir × Bool
generate env force dir =
    let made = mint_and_write env dir in
    if env.mkdir_ok
    then (if force then made else if is_there (lookup cert_file dir) then (dir, true) else made)
    else (dir, false)

-- The hosts of the certificate: IP addresses and names. The argument is `net.ParseIP`.
abbrev pub put_host :
    Option (List ℕ) → List ℕ → List (List ℕ) × List (List ℕ) → List (List ℕ) × List (List ℕ)
put_host (some ip) h (ips, names) = (ips ++ (ip ∷ []), names)
put_host none h (ips, names) = (ips, names ++ (h ∷ []))

unfoldable pub add_hosts :
    (List ℕ → Option (List ℕ))
    → List (List ℕ)
    → List (List ℕ) × List (List ℕ)
    → List (List ℕ) × List (List ℕ)
add_hosts parse_ip [] tmpl = tmpl
add_hosts parse_ip (host ∷ hosts) tmpl =
    let h = trim_space host in
    add_hosts parse_ip hosts (if is_empty h then tmpl else put_host (parse_ip h) h tmpl)

-- `LoadCAPool`; the argument is whether `AppendCertsFromPEM` finds a certificate.
abbrev pub if_cert : (List ℕ → Bool) → Option (List ℕ) → Option (List ℕ)
if_cert has_cert none = none
if_cert has_cert (some pem) = if has_cert pem then some pem else none

unfoldable pub load_ca_pool : (List ℕ → Bool) → Dir → Option (List ℕ)
load_ca_pool has_cert dir = if_cert has_cert (lookup ca_file dir)

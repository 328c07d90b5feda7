-- ===== src/Certs/Mint/Tests.antt =====
-- internal/certs/certs.go, `Main`, at concrete inputs.
use quicshot.Prelude.{ℕ, ◌+◌, ◌≡◌, refl, inl, List, [], ◌∷◌, ◌++◌, some, none, true}
use quicshot.Prelude.Bytes.{codes, bytes_eq}
use quicshot.Prelude.Int.{pos}
use quicshot.Blast.Config.{split}
use quicshot.Flags.{parsed, parse}
use quicshot.Flags.Values.{parse_bool}
use quicshot.Certs.{Dir, written, generate, mint_and_write, write_material, write_file}
use quicshot.Certs.Mint.{
  Options, defaults, parse_options, System, main, generated, Template, cert_sign, digital_signature,
  env_of, mint_ca, mint_leaf,
}
use quicshot.Certs.Mint.Chain.{IsChain, main-IsChain}

abbrev self_signed : Template
self_signed = record {
  serial_number = 1;
  common_name = "QUICshot local CA";
  not_before = pos 3600000000000;
  not_after = 7200000000002;
  key_usage = cert_sign ∷ digital_signature ∷ [];
  ext_key_usage = [];
  is_ca = true;
  ip_addresses = [];
  dns_names = [];
}

-- A certificate is written as its serial number and its two keys.
abbrev lab : System
lab = record {
  ca_key = some 7;
  leaf_key = some 8;
  ca_serial = 1;
  leaf_serial = 2;
  now = λ i. 7200000000000 + i;
  year_after = λ t. t + 1;
  create_certificate = λ t p holder signer. some (t.serial_number ∷ holder ∷ signer ∷ []);
  parse_certificate = λ der. some self_signed;
  marshal_key = λ k. some (k ∷ []);
  parse_ip = λ h. none;
  mkdir_ok = true;
  write = λ name. written;
  pem = λ type der. codes type ++ der;
}

abbrev forced : List (List ℕ)
forced = codes "-hosts=edge" ∷ codes "-force" ∷ []

abbrev chosen : Options
chosen = record defaults { hosts = codes "edge"; force = true }

reads : parse_options forced ≡ parsed chosen
unfolding parse_options parse bytes_eq parse_bool
reads = refl

abbrev made : Dir
made = (generate (env_of lab (split b',' (codes "edge"))) true []).0

runs : main lab forced [] ≡ generated (made, true)
unfolding main parse_options parse bytes_eq parse_bool generate mint_and_write write_material
    write_file mint_ca mint_leaf
runs = refl

main-IsChain_example : IsChain lab (split b',' (codes "edge")) made
main-IsChain_example = main-IsChain lab forced chosen [] made reads (inl refl) runs

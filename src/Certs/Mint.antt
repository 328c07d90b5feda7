-- ===== src/Certs/Mint.antt =====
-- internal/certs/certs.go, `Main`, `mintCA` and `mintLeaf`: from the flags of `quicshot gencerts` to the
-- certificates. The crypto packages are arguments; their random numbers do not fail. A time is a
-- number of nanoseconds.
pub mod Chain
mod Tests
use quicshot.Prelude.{
  ℕ, ◌*◌, Bool, true, false, String, List, [], ◌∷◌, ◌++◌, Option, none, some, if◌then◌else◌,
}
use quicshot.Prelude.Bytes.{codes}
use quicshot.Prelude.Int.{ℤ, pos, sub_ℕ}
use quicshot.Flags.{Flag, Parsed, parsed, exits, parse, string_flag, bool_flag}
use quicshot.Blast.Config.{split}
use quicshot.Certs.{Dir, Write, Env, add_hosts, generate}

pub record Options : Type 0 where
  pub dir : List ℕ
  pub hosts : List ℕ
  pub force : Bool

abbrev pub defaults : Options
defaults = record {
  dir = codes "/certs";
  hosts = codes "edge,localhost,127.0.0.1,::1";
  force = false;
}

abbrev pub gencerts_flag_set : List (Flag Options)
gencerts_flag_set =
    string_flag (codes "dir") (λ v o. record o { dir = v })
    ∷ string_flag (codes "hosts") (λ v o. record o { hosts = v })
    ∷ bool_flag (codes "force") (λ v o. record o { force = v })
    ∷ []

unfoldable pub parse_options : List (List ℕ) → Parsed Options
parse_options args = parse gencerts_flag_set none args defaults

pub data KeyUsage : Type 0 where
  cert_sign digital_signature key_encipherment : KeyUsage

pub data ExtKeyUsage : Type 0 where
  server_auth client_auth : ExtKeyUsage

pub record Template : Type 0 where
  pub serial_number : ℕ
  pub common_name : String
  pub not_before : ℤ
  pub not_after : ℕ
  pub key_usage : List KeyUsage
  pub ext_key_usage : List ExtKeyUsage
  pub is_ca : Bool
  pub ip_addresses : List (List ℕ)
  pub dns_names : List (List ℕ)

-- A key is a number that stands for it. Two keys are generated, two serial numbers are drawn, and the
-- clock is read four times.
pub record System : Type 0 where
  pub ca_key : Option ℕ
  pub leaf_key : Option ℕ
  pub ca_serial : ℕ
  pub leaf_serial : ℕ
  pub now : ℕ → ℕ
  -- `AddDate(1, 0, 0)`.
  pub year_after : ℕ → ℕ
  -- `x509.CreateCertificate`: the template, its parent, whose public key it is for, and who signs.
  pub create_certificate : Template → Template → ℕ → ℕ → Option (List ℕ)
  pub parse_certificate : List ℕ → Option Template
  pub marshal_key : ℕ → Option (List ℕ)
  pub parse_ip : List ℕ → Option (List ℕ)
  pub mkdir_ok : Bool
  pub write : String → Write
  pub pem : String → List ℕ → List ℕ

abbrev pub hour : ℕ
hour = 3600000000000

abbrev pub ca_template : System → Template
ca_template s = record {
  serial_number = s.ca_serial;
  common_name = "QUICshot local CA";
  not_before = sub_ℕ (s.now 0) hour;
  not_after = s.year_after (s.now 1);
  key_usage = cert_sign ∷ digital_signature ∷ [];
  ext_key_usage = [];
  is_ca = true;
  ip_addresses = [];
  dns_names = [];
}

abbrev pub leaf_template : System → List (List ℕ) → Template
leaf_template s hosts =
    let (ips, names) = add_hosts s.parse_ip hosts ([], []) in
    record {
      serial_number = s.leaf_serial;
      common_name = "QUICshot edge";
      not_before = sub_ℕ (s.now 2) hour;
      not_after = s.year_after (s.now 3);
      key_usage = digital_signature ∷ key_encipherment ∷ [];
      ext_key_usage = server_auth ∷ client_auth ∷ [];
      is_ca = false;
      ip_addresses = ips;
      dns_names = names;
    }

pub record CaMaterial : Type 0 where
  pub key : ℕ
  pub cert : Template
  pub der : List ℕ

abbrev pub parsed_ca : System → ℕ → List ℕ → Option CaMaterial
parsed_ca s key der = elim (s.parse_certificate der) [
  | none ↦ none
  | some cert ↦ some (record { key = key; cert = cert; der = der })
]

unfoldable pub mint_ca : System → Option CaMaterial
mint_ca s = elim s.ca_key [
  | none ↦ none
  | some key ↦ elim (s.create_certificate (ca_template s) (ca_template s) key key) [
    | none ↦ none
    | some der ↦ parsed_ca s key der
  ]
]

abbrev pub with_key_der : List ℕ → Option (List ℕ) → Option (List ℕ × List ℕ)
with_key_der leaf none = none
with_key_der leaf (some key_der) = some (leaf, key_der)

unfoldable pub mint_leaf : System → CaMaterial → List (List ℕ) → Option (List ℕ × List ℕ)
mint_leaf s ca hosts = elim s.leaf_key [
  | none ↦ none
  | some key ↦ elim (s.create_certificate (leaf_template s hosts) ca.cert key ca.key) [
    | none ↦ none
    | some leaf ↦ with_key_der leaf (s.marshal_key key)
  ]
]

abbrev pub der_of : Option CaMaterial → Option (List ℕ)
der_of none = none
der_of (some ca) = some ca.der

abbrev pub leaf_of : System → List (List ℕ) → Option CaMaterial → Option (List ℕ × List ℕ)
leaf_of s hosts none = none
leaf_of s hosts (some ca) = mint_leaf s ca hosts

-- What `generate` takes from here.
abbrev pub env_of : System → List (List ℕ) → Env
env_of s hosts = record {
  mkdir_ok = s.mkdir_ok;
  ca_der = der_of (mint_ca s);
  leaf_der = leaf_of s hosts (mint_ca s);
  write = s.write;
  pem = s.pem;
}

pub data Ended : Type 0 where
  exited : ℕ → Ended
  -- The directory afterwards, and whether there was no error.
  generated : Dir × Bool → Ended

abbrev pub with_options : System → Dir → Parsed Options → Ended
with_options s dir (exits code) = exited code
with_options s dir (parsed o) = generated (generate (env_of s (split b',' o.hosts)) o.force dir)

-- On the directory that -dir names.
unfoldable pub main : System → List (List ℕ) → Dir → Ended
main s args dir = with_options s dir (parse_options args)

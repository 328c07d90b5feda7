-- ===== src/Certs/Mint/Chain.antt =====
-- internal/certs/certs.go: what a successful `Main` has made.
use mathlib.Core.List.{append-nil, append_assoc}
use quicshot.Prelude.{
  ◌≡◌, ◌⊎◌, inl, inr, refl, sym, subst, ap, ◌∙◌, Bool, true, List, ◌++◌, Option, none, some, arith,
  Option-cases, Bool-cases, is_empty, if◌then◌else◌, false, [], ◌∷◌, ℕ,
}
use quicshot.Prelude.Maps.{lookup, insert, string_key}
use quicshot.Prelude.Members.{Member}
use quicshot.Blast.Config.{split, trim_space}
use quicshot.Flags.{parsed}
use quicshot.Certs.{
  Dir, ca_file, cert_file, key_file, Write, written, write_error, left_by, and_then, Env,
  write_file, write_material, mint_and_write, generate, add_hosts,
}
use quicshot.Certs.Material.{put_self, put_other}
use quicshot.Certs.Mint.{
  Options, parse_options, cert_sign, server_auth, Template, System, ca_template, leaf_template,
  CaMaterial, mint_ca, mint_leaf, leaf_of, env_of, generated, with_options, main,
}

-- The three files.
pub record Holds (a b k : List ℕ) (dir : Dir) : Type 0 where
  pub ca_there : lookup ca_file dir ≡ some a
  pub cert_there : lookup cert_file dir ≡ some b
  pub key_there : lookup key_file dir ≡ some k

files-Hold :
    (w1 w2 w3 : Write) (a b k : List ℕ) (dir : Dir)
    → (and_then
        (left_by w1 ca_file a dir)
        (λ d. and_then (left_by w2 cert_file b d) (λ g. left_by w3 key_file k g))).1
      ≡ true
    → Holds a b k
        (and_then
          (left_by w1 ca_file a dir)
          (λ d. and_then (left_by w2 cert_file b d) (λ g. left_by w3 key_file k g))).0
files-Hold written written written a b k dir e =
    let with_ca = insert ca_file a dir in
    let with_cert = insert cert_file b with_ca in
    record {
      ca_there =
          put_other key_file ca_file k with_cert refl
          ∙ put_other cert_file ca_file b with_ca refl
          ∙ put_self ca_file a dir refl;
      cert_there =
          put_other key_file cert_file k with_cert refl ∙ put_self cert_file b with_ca refl;
      key_there = put_self key_file k with_cert refl;
    }
files-Hold written written (write_error none) a b k dir e = cc
files-Hold written written (write_error (some p)) a b k dir e = cc
files-Hold written (write_error none) w3 a b k dir e = cc
files-Hold written (write_error (some p)) w3 a b k dir e = cc
files-Hold (write_error none) w2 w3 a b k dir e = cc
files-Hold (write_error (some p)) w2 w3 a b k dir e = cc

mint_ca-some :
    (s : System) (ca : CaMaterial)
    → mint_ca s ≡ some ca
    → (s.ca_key ≡ some ca.key)
      × (s.create_certificate (ca_template s) (ca_template s) ca.key ca.key ≡ some ca.der)
      × (s.parse_certificate ca.der ≡ some ca.cert)
unfolding mint_ca
mint_ca-some s ca e = ground arith

mint_leaf-some :
    (s : System) (ca : CaMaterial) (hosts : List (List ℕ)) (leaf key_der : List ℕ)
    → mint_leaf s ca hosts ≡ some (leaf, key_der)
    → (k : ℕ) × (s.leaf_key ≡ some k)
      × (s.create_certificate (leaf_template s hosts) ca.cert k ca.key ≡ some leaf)
      × (s.marshal_key k ≡ some key_der)
unfolding mint_leaf
mint_leaf-some s ca hosts leaf key_der e = elim (Option-cases s.leaf_key) [
  | inl missing ↦ ground arith
  | inr (k, found) ↦ (k, found, ground arith, ground arith)
]

abbrev ip_or_none : Option (List ℕ) → List (List ℕ)
ip_or_none (some ip) = ip ∷ []
ip_or_none none = []

abbrev name_or_none : List ℕ → Option (List ℕ) → List (List ℕ)
name_or_none h (some ip) = []
name_or_none h none = h ∷ []

-- The IP addresses among the hosts, without the blanks around them.
abbrev pub ips_in : (List ℕ → Option (List ℕ)) → List (List ℕ) → List (List ℕ)
ips_in parse_ip [] = []
ips_in parse_ip (h ∷ hosts) =
    (if is_empty (trim_space h) then [] else ip_or_none (parse_ip (trim_space h)))
    ++ ips_in parse_ip hosts

-- The other hosts; a blank one is none.
abbrev pub names_in : (List ℕ → Option (List ℕ)) → List (List ℕ) → List (List ℕ)
names_in parse_ip [] = []
names_in parse_ip (h ∷ hosts) =
    (if is_empty (trim_space h) then [] else name_or_none (trim_space h) (parse_ip (trim_space h)))
    ++ names_in parse_ip hosts

add_hosts_lem :
    (parse_ip : List ℕ → Option (List ℕ)) (hosts ips names : List (List ℕ))
    → add_hosts parse_ip hosts (ips, names)
      ≡ (ips ++ ips_in parse_ip hosts, names ++ names_in parse_ip hosts)
unfolding add_hosts
add_hosts_lem parse_ip [] ips names =
    ap (λ a. (a, names)) (sym (append-nil ips)) ∙ ap (λ b. (ips ++ [], b)) (sym (append-nil names))
add_hosts_lem parse_ip (h ∷ hosts) ips names = elim (Bool-cases (is_empty (trim_space h))) [
  | inl blank ↦ rw blank (add_hosts_lem parse_ip hosts ips names)
  | inr some_host ↦ elim (Option-cases (parse_ip (trim_space h))) [
    | inl name ↦
        rw (some_host, name)
          (add_hosts_lem parse_ip hosts ips (names ++ (trim_space h ∷ []))
            ∙ ap (λ b. (ips ++ ips_in parse_ip hosts, b))
                (append_assoc names (trim_space h ∷ []) (names_in parse_ip hosts)))
    | inr (ip, address) ↦
        rw (some_host, address)
          (add_hosts_lem parse_ip hosts (ips ++ (ip ∷ [])) names
            ∙ ap (λ a. (a, names ++ names_in parse_ip hosts))
                (append_assoc ips (ip ∷ []) (ips_in parse_ip hosts)))
  ]
]

-- A certificate for the hosts, under a CA that signs itself, and the three files that tell of them.
pub record IsChain (s : System) (hosts : List (List ℕ)) (dir : Dir) : Type 0 where
  pub ca : CaMaterial
  pub key : ℕ
  pub leaf : List ℕ
  pub key_der : List ℕ
  -- What the two certificates say.
  pub ca_says : Template
  pub leaf_says : Template
  pub ca_made :
      (s.ca_key ≡ some ca.key)
      × (s.create_certificate ca_says ca_says ca.key ca.key ≡ some ca.der)
      × (s.parse_certificate ca.der ≡ some ca.cert)
  pub leaf_made : s.create_certificate leaf_says ca.cert key ca.key ≡ some leaf
  pub signs : (ca_says.is_ca ≡ true) × Member cert_sign ca_says.key_usage
  pub serves : (leaf_says.is_ca ≡ false) × Member server_auth leaf_says.ext_key_usage
  pub for_hosts :
      (leaf_says.ip_addresses ≡ ips_in s.parse_ip hosts)
      × (leaf_says.dns_names ≡ names_in s.parse_ip hosts)
  pub key_made : (s.leaf_key ≡ some key) × (s.marshal_key key ≡ some key_der)
  pub files :
      Holds
        (s.pem "CERTIFICATE" ca.der)
        (s.pem "CERTIFICATE" leaf ++ s.pem "CERTIFICATE" ca.der)
        (s.pem "EC PRIVATE KEY" key_der)
        dir

made-Chain :
    (s : System) (hosts : List (List ℕ)) (dir : Dir) (m : Option CaMaterial)
    (l : Option (List ℕ × List ℕ))
    → mint_ca s ≡ m
    → leaf_of s hosts m ≡ l
    → (mint_and_write (env_of s hosts) dir).1 ≡ true
    → IsChain s hosts (mint_and_write (env_of s hosts) dir).0
unfolding mint_and_write write_material write_file
made-Chain s hosts dir none l e g t = cc
made-Chain s hosts dir (some ca) none e g t = cc
made-Chain s hosts dir (some ca) (some (leaf, key_der)) e g t =
    let (ca_key, self_signed, reads) = mint_ca-some s ca e in
    let (key, found, signed, marshalled) = mint_leaf-some s ca hosts leaf key_der g in
    let writes : mint_and_write (env_of s hosts) dir
        ≡ write_material (env_of s hosts) ca.der leaf key_der dir =
      rw (e, g) refl in
    record {
      ca = ca;
      key = key;
      leaf = leaf;
      key_der = key_der;
      ca_says = ca_template s;
      leaf_says = leaf_template s hosts;
      ca_made = (ca_key, self_signed, reads);
      signs = (refl, inl refl);
      serves = (refl, inl refl);
      for_hosts =
          let both = add_hosts_lem s.parse_ip hosts [] [] in
          (ap (λ p. p.0) both, ap (λ p. p.1) both);
      leaf_made = signed;
      key_made = (found, marshalled);
      files =
          subst
            (λ r.
              r.1 ≡ true
              → Holds (s.pem "CERTIFICATE" ca.der)
                  (s.pem "CERTIFICATE" leaf ++ s.pem "CERTIFICATE" ca.der)
                  (s.pem "EC PRIVATE KEY" key_der) r.0)
            (sym writes)
            (files-Hold (s.write ca_file) (s.write cert_file) (s.write key_file)
              (s.pem "CERTIFICATE" ca.der) (s.pem "CERTIFICATE" leaf ++ s.pem "CERTIFICATE" ca.der)
              (s.pem "EC PRIVATE KEY" key_der) dir)
            t;
    }

fresh :
    (env : Env) (force : Bool) (dir : Dir)
    → env.mkdir_ok ≡ true
    → (force ≡ true) ⊎ (lookup cert_file dir ≡ none)
    → generate env force dir ≡ mint_and_write env dir
unfolding generate
fresh env true dir m h = rw m refl
fresh env false dir m (inl f) = cc
fresh env false dir m (inr n) = rw (m, n) refl

generate-Chain :
    (s : System) (hosts : List (List ℕ)) (force : Bool) (dir : Dir)
    → (force ≡ true) ⊎ (lookup cert_file dir ≡ none)
    → (generate (env_of s hosts) force dir).1 ≡ true
    → IsChain s hosts (generate (env_of s hosts) force dir).0
unfolding generate
generate-Chain s hosts force dir h t = elim (Bool-cases s.mkdir_ok) [
  | inl m ↦
      subst (λ r. r.1 ≡ true → IsChain s hosts r.0) (sym (fresh (env_of s hosts) force dir m h))
        (made-Chain s hosts dir (mint_ca s) (leaf_of s hosts (mint_ca s)) refl refl) t
  | inr m ↦ ground arith
]

-- Where `gencerts` makes new material, since -force is given or no certificate is there, and reports no
-- error: the CA has signed itself and may sign; the certificate is one for servers, names exactly the IP
-- addresses and the other names among the hosts of -hosts, carries the key that was generated for it
-- and is signed with the CA's key; and the files hold the CA, the certificate with the
-- CA behind it, and the certificate's key.
pub main-IsChain :
    (s : System) (args : List (List ℕ)) (o : Options) (dir made : Dir)
    → parse_options args ≡ parsed o
    → (o.force ≡ true) ⊎ (lookup cert_file dir ≡ none)
    → main s args dir ≡ generated (made, true)
    → IsChain s (split b',' o.hosts) made
unfolding main
main-IsChain s args o dir made p h e =
    let q : with_options s dir (parsed o) ≡ generated (made, true) =
      ap (with_options s dir) (sym p) ∙ e in
    let r : generate (env_of s (split b',' o.hosts)) o.force dir ≡ (made, true) = cc in
    subst (λ x. x.1 ≡ true → IsChain s (split b',' o.hosts) x.0) r
      (generate-Chain s (split b',' o.hosts) o.force dir h) refl

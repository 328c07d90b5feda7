-- ===== src/Certs/Tests.antt =====
-- internal/certs at concrete directories.
use quicshot.Prelude.{true, ℕ, String, List, [], ◌∷◌, ◌++◌, none, some, str_eq, if◌then◌else◌}
use quicshot.Prelude.Bytes.{codes}
use quicshot.Prelude.Maps.{string_key}
use quicshot.Certs.{key_file, written, write_error, Env}

abbrev pem : String → List ℕ → List ℕ
pem type der = codes "-----BEGIN " ++ (codes type ++ der)

abbrev fine : Env
fine = record {
  mkdir_ok = true;
  ca_der = some (1 ∷ []);
  leaf_der = some (2 ∷ [], 3 ∷ []);
  write = λ name. written;
  pem = pem;
}

-- The disk is full when it comes to the key.
abbrev full : Env
full = record fine { write = λ name. if str_eq name key_file then write_error none else written }

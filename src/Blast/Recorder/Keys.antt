-- ===== src/Blast/Recorder/Keys.antt =====
-- internal/blast/blast.go: the keys of the `kinds` map. The source's texts are "http_%d", the kinds of
-- quicerr, "conn_closed:" in front of one of these, and the empty text; no two of them are the same
-- text, so they are the constructors of a type.
use quicshot.Prelude.{ℕ, ◌≡◌, ◌↔◌, refl, Bool, true, false, Option, none, some, ℕ_discrete}
use quicshot.Prelude.Maps.{Key}
use quicshot.Quicerr.{Kind}

pub data KindKey : Type 0 where
  no_kind : KindKey
  of_kind : Kind → KindKey
  http_status : ℕ → KindKey
  conn_closed_kind : Kind → KindKey

pub KindKey-discrete : Discrete KindKey
KindKey-discrete = hlevel ℕ_discrete

abbrev pub holds {ℓ} : {A : Type ℓ} → Dec A → Bool
holds (yes p) = true
holds (no p) = false

abbrev pub same_key : KindKey → KindKey → Bool
same_key a b = holds (KindKey-discrete a b)

holds_iff {ℓ} : {A : Type ℓ} (d : Dec A) → (holds d ≡ true) ↔ A
holds_iff (yes p) = (λ _. p, λ _. refl)
holds_iff (no n) = (λ h. cc, λ p. absurd (n p))

pub same_key_iff : (a b : KindKey) → (same_key a b ≡ true) ↔ (a ≡ b)
same_key_iff a b = holds_iff (KindKey-discrete a b)

instance abbrev pub kind_key : Key KindKey
kind_key = record { same = same_key; same_iff = same_key_iff }

abbrev pub or_blank : Option KindKey → KindKey
or_blank none = no_kind
or_blank (some k) = k

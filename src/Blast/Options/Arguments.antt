-- ===== src/Blast/Options/Arguments.antt =====
-- internal/blast/blast.go, `parseConfig`: what the arguments do that the panel passes, one by one.
use quicshot.Prelude.{
  ℕ, ◌≡◌, refl, ◌∙◌, ap, Bool, true, false, List, [], ◌∷◌, ◌++◌, some, ◌<◌, ◌≤◌, arith,
}
use quicshot.Prelude.Bytes.{codes, bytes_eq}
use quicshot.Prelude.Int.{ℤ, pos, pos_part}
use quicshot.Prelude.Maps.{lookup}
use quicshot.Flags.Values.{parse_bool, parse_int}
use quicshot.Flags.Durations.{parse_duration, parse_numbers, advance}
use quicshot.Flags.Reads.{Reads, Reads-nil, Reads-append, Reads-one}
use quicshot.Flags.Numbers.{parse_int-decimal}
use quicshot.Blast.CfCode.{decimal}
use quicshot.Blast.Options.{Options, Floats, seconds, blast_flag_set}
use quicshot.Ui.Commands.{clamp}
use quicshot.Ui.Commands.Run.{flag_if, bool_text}

clamp_bounds :
    (v : ℤ) (hi : ℕ)
    → 1 ≤ hi
    → (1 ≤ pos_part (clamp v (pos 1) (pos hi)))
      × (pos_part (clamp v (pos 1) (pos hi)) ≤ hi)
      × (pos (pos_part (clamp v (pos 1) (pos hi))) ≡ clamp v (pos 1) (pos hi))
unfolding clamp
clamp_bounds v hi h = ground arith

-- A clamped number is read back.
parse_int-clamp :
    (v : ℤ) (hi : ℕ)
    → 1 ≤ hi
    → hi < 9223372036854775808
    → parse_int (decimal (pos_part (clamp v (pos 1) (pos hi)))) ≡ some (clamp v (pos 1) (pos hi))
parse_int-clamp v hi h k =
    let (low, high, whole) = clamp_bounds v hi h in
    parse_int-decimal (pos_part (clamp v (pos 1) (pos hi))) (omega arith) (omega arith)
    ∙ ap some whole

module _ (fl : Floats) where
  abbrev pub Takes : List (List ℕ) → Options → Options → Type 0
  Takes args o p = Reads (blast_flag_set fl) args o p

  pub one_after :
      (f : List ℕ) (fs : List (List ℕ)) (o p q : Options)
      → Takes (f ∷ []) o p
      → Takes fs p q
      → Takes (f ∷ fs) o q
  one_after f fs o p q r s = Reads-append (blast_flag_set fl) (f ∷ []) fs o p q r s

  -- A flag that is there only if `b` is true.
  pub Takes-flag_if :
      (b : Bool) (f : List ℕ) (w : Bool → Options)
      → Takes (f ∷ []) (w false) (w true)
      → Takes (flag_if b f) (w false) (w b)
  Takes-flag_if true f w r = r
  Takes-flag_if false f w r = Reads-nil (blast_flag_set fl) (w false)

  pub url-Takes :
      (v : List ℕ) (o : Options) → Takes ((codes "-url=" ++ v) ∷ []) o (record o { target = v })
  unfolding bytes_eq
  url-Takes v o = Reads-one (blast_flag_set fl) (codes "-url=" ++ v) o _ refl

  pub header-Takes :
      (v : List ℕ) (o : Options)
      → Takes ((codes "-header=" ++ v) ∷ []) o (record o { headers = o.headers ++ (v ∷ []) })
  unfolding bytes_eq
  header-Takes v o = Reads-one (blast_flag_set fl) (codes "-header=" ++ v) o _ refl

  pub insecure-Takes :
      (o : Options) → Takes (codes "-insecure" ∷ []) o (record o { insecure = true })
  unfolding bytes_eq parse_bool
  insecure-Takes o = Reads-one (blast_flag_set fl) (codes "-insecure") o _ refl

  pub certs-Takes :
      (o : Options) → Takes (codes "-certs=/certs" ∷ []) o (record o { cert_dir = codes "/certs" })
  unfolding bytes_eq
  certs-Takes o = Reads-one (blast_flag_set fl) (codes "-certs=/certs") o _ refl

  pub server_name-Takes :
      (o : Options)
      → Takes (codes "-server-name=edge" ∷ []) o (record o { server_name = codes "edge" })
  unfolding bytes_eq
  server_name-Takes o = Reads-one (blast_flag_set fl) (codes "-server-name=edge") o _ refl

  -- The durations, as they are read.
  pub duration-Takes :
      (v : List ℕ) (d : ℤ) (o : Options)
      → parse_duration fl.fraction v ≡ some d
      → Takes ((codes "-duration=" ++ v) ∷ []) o (record o { duration = d })
  unfolding bytes_eq
  duration-Takes v d o e = Reads-one (blast_flag_set fl) (codes "-duration=" ++ v) o _ (rw e refl)

  pub timeout-Takes :
      (v : List ℕ) (d : ℤ) (o : Options)
      → parse_duration fl.fraction v ≡ some d
      → Takes ((codes "-timeout=" ++ v) ∷ []) o (record o { timeout = d })
  unfolding bytes_eq
  timeout-Takes v d o e = Reads-one (blast_flag_set fl) (codes "-timeout=" ++ v) o _ (rw e refl)

  pub keepalive-Takes :
      (v : List ℕ) (d : ℤ) (o : Options)
      → parse_duration fl.fraction v ≡ some d
      → Takes ((codes "-keepalive=" ++ v) ∷ []) o (record o { keep_alive = d })
  unfolding bytes_eq
  keepalive-Takes v d o e = Reads-one (blast_flag_set fl) (codes "-keepalive=" ++ v) o _ (rw e refl)

  pub max_idle-Takes :
      (v : List ℕ) (d : ℤ) (o : Options)
      → parse_duration fl.fraction v ≡ some d
      → Takes ((codes "-max-idle-timeout=" ++ v) ∷ []) o (record o { max_idle = d })
  unfolding bytes_eq
  max_idle-Takes v d o e =
      Reads-one (blast_flag_set fl) (codes "-max-idle-timeout=" ++ v) o _ (rw e refl)

  pub warmup-Takes :
      (v : List ℕ) (d : ℤ) (o : Options)
      → parse_duration fl.fraction v ≡ some d
      → Takes ((codes "-warmup=" ++ v) ∷ []) o (record o { warmup = d })
  unfolding bytes_eq
  warmup-Takes v d o e = Reads-one (blast_flag_set fl) (codes "-warmup=" ++ v) o _ (rw e refl)

  -- The size of the load.
  pub conns-Takes :
      (v : ℤ) (o : Options)
      → Takes
          ((codes "-conns=" ++ decimal (pos_part (clamp v (pos 1) (pos 64)))) ∷ [])
          o
          (record o { conns = clamp v (pos 1) (pos 64) })
  unfolding bytes_eq
  conns-Takes v o =
      Reads-one (blast_flag_set fl) _ o _
        (rw (parse_int-clamp v 64 (omega arith) (omega arith)) refl)

  pub workers-Takes :
      (v : ℤ) (o : Options)
      → Takes
          ((codes "-workers=" ++ decimal (pos_part (clamp v (pos 1) (pos 256)))) ∷ [])
          o
          (record o { workers = clamp v (pos 1) (pos 256) })
  unfolding bytes_eq
  workers-Takes v o =
      Reads-one (blast_flag_set fl) _ o _
        (rw (parse_int-clamp v 256 (omega arith) (omega arith)) refl)

  pub max_inflight-Takes :
      (v : ℤ) (o : Options)
      → Takes
          ((codes "-max-inflight=" ++ decimal (pos_part (clamp v (pos 1) (pos 4096)))) ∷ [])
          o
          (record o { max_inflight = clamp v (pos 1) (pos 4096) })
  unfolding bytes_eq
  max_inflight-Takes v o =
      Reads-one (blast_flag_set fl) _ o _
        (rw (parse_int-clamp v 4096 (omega arith) (omega arith)) refl)

  pub stats_every-Takes :
      (o : Options) → Takes (codes "-stats-every=5s" ∷ []) o (record o { stats_every = seconds 5 })
  unfolding bytes_eq parse_duration parse_numbers advance lookup
  stats_every-Takes o = Reads-one (blast_flag_set fl) (codes "-stats-every=5s") o _ refl

  pub read_body-Takes :
      (b : Bool) (o : Options)
      → Takes ((codes "-read-body=" ++ bool_text b) ∷ []) o (record o { read_body = b })
  unfolding bytes_eq parse_bool
  read_body-Takes true o = Reads-one (blast_flag_set fl) (codes "-read-body=true") o _ refl
  read_body-Takes false o = Reads-one (blast_flag_set fl) (codes "-read-body=false") o _ refl

  -- The optional flags.
  pub rps-Takes :
      (v : List ℕ) (x : ℤ × ℕ) (o : Options)
      → fl.parse_float v ≡ some x
      → Takes ((codes "-rps=" ++ v) ∷ []) o (record o { rps = x })
  unfolding bytes_eq
  rps-Takes v x o e = Reads-one (blast_flag_set fl) (codes "-rps=" ++ v) o _ (rw e refl)

  pub mode_open-Takes :
      (o : Options) → Takes (codes "-mode=open" ∷ []) o (record o { mode = codes "open" })
  unfolding bytes_eq
  mode_open-Takes o = Reads-one (blast_flag_set fl) (codes "-mode=open") o _ refl

  pub method-Takes :
      (v : List ℕ) (o : Options) → Takes ((codes "-method=" ++ v) ∷ []) o (record o { method = v })
  unfolding bytes_eq
  method-Takes v o = Reads-one (blast_flag_set fl) (codes "-method=" ++ v) o _ refl

  pub body-Takes :
      (v : List ℕ) (o : Options) → Takes ((codes "-body=" ++ v) ∷ []) o (record o { body_str = v })
  unfolding bytes_eq
  body-Takes v o = Reads-one (blast_flag_set fl) (codes "-body=" ++ v) o _ refl

  pub urls-Takes :
      (v : List ℕ) (o : Options) → Takes ((codes "-urls=" ++ v) ∷ []) o (record o { urls = v })
  unfolding bytes_eq
  urls-Takes v o = Reads-one (blast_flag_set fl) (codes "-urls=" ++ v) o _ refl

  pub probe_0rtt-Takes :
      (o : Options) → Takes (codes "-probe-0rtt" ∷ []) o (record o { probe_0rtt = true })
  unfolding bytes_eq parse_bool
  probe_0rtt-Takes o = Reads-one (blast_flag_set fl) (codes "-probe-0rtt") o _ refl

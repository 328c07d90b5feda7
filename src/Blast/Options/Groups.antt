-- ===== src/Blast/Options/Groups.antt =====
-- internal/ui/ui.go (`buildRunArgs`) and internal/blast/blast.go (`parseConfig`): what all the arguments
-- do together, unless the request is refused.
use quicshot.Prelude.{
  is_empty, ℕ, ◌≡◌, refl, subst, true, false, ◌||◌, List, [], ◌∷◌, ◌++◌, some, if◌then◌else◌,
  Bool-cases, inl, inr, ◌<◌,
}
use quicshot.Prelude.Bytes.{codes, bytes_eq}
use quicshot.Prelude.Int.{ℤ, pos, ltb_ℤ}
use quicshot.Flags.Durations.{parse_duration, two_63}
use quicshot.Flags.Reads.{Reads-nil, Reads-append}
use quicshot.Flags.Whole.{duration_value, parse_duration-is_duration}
use quicshot.Blast.Options.{Options, Floats, defaults, seconds, blast_flag_set}
use quicshot.Blast.Options.Arguments.{
  Takes, duration-Takes, timeout-Takes, keepalive-Takes, max_idle-Takes, warmup-Takes,
}
use quicshot.Ui.Commands.{Checked, ok, refused, is_duration, zero_duration, clamp}
use quicshot.Ui.Commands.Run.{
  RunReq, before, duration_flags, warmup_flag, optional_blast_flags, load_flags, with_rest,
  blast_flags, common_flags,
}
use quicshot.Blast.Options.Wanted.{given, nonempty, names_method, wanted}
use quicshot.Blast.Options.Pieces.{common-Takes, load-Takes, optional-Takes}

module _ (fl : Floats) where
  -- The arguments do this, unless they are refused.
  abbrev pub IfTakes : Checked (List (List ℕ)) → Options → Options → Type 0
  IfTakes (ok fs) o p = Takes fl fs o p
  IfTakes (refused why) o p = Unit {0}

  before-IfTakes :
      (fs : List (List ℕ)) (r : Checked (List (List ℕ))) (o p q : Options)
      → Takes fl fs o p
      → IfTakes r p q
      → IfTakes (before fs r) o q
  before-IfTakes fs (ok gs) o p q t u = Reads-append (blast_flag_set fl) fs gs o p q t u
  before-IfTakes fs (refused why) o p q t u = tt

  with_rest-IfTakes :
      (r : Checked (List (List ℕ))) (gs : List (List ℕ)) (o p q : Options)
      → IfTakes r o p
      → Takes fl gs p q
      → IfTakes (with_rest r gs) o q
  with_rest-IfTakes (ok fs) gs o p q t u = Reads-append (blast_flag_set fl) fs gs o p q t u
  with_rest-IfTakes (refused why) gs o p q t u = tt

  -- `w` puts a value, `base` the one that was there before.
  duration_flags-IfTakes :
      (key v : List ℕ) (kvs : List (List ℕ × List ℕ)) (rest : Checked (List (List ℕ)))
      (w : ℤ → Options) (base : ℤ) (q : Options)
      → duration_value v < two_63
      → ((d : ℤ)
          → parse_duration fl.fraction v ≡ some d
          → Takes fl ((key ++ v) ∷ []) (w base) (w d))
      → IfTakes (duration_flags kvs rest) (w (given base v)) q
      → IfTakes (duration_flags ((key, v) ∷ kvs) rest) (w base) q
  unfolding duration_flags
  duration_flags-IfTakes key [] kvs rest w base q h t u = u
  duration_flags-IfTakes key (c ∷ s) kvs rest w base q h t u =
      elim (Bool-cases (is_duration (c ∷ s))) [
        | inl d ↦ rw d (
            before-IfTakes ((key ++ (c ∷ s)) ∷ []) (duration_flags kvs rest) (w base) _ q
              (t (pos (duration_value (c ∷ s)))
                (parse_duration-is_duration fl.fraction (c ∷ s) d h))
              u)
        | inr n ↦ rw n tt
      ]

  warmup_flag-IfTakes :
      (v : List ℕ) (o : Options)
      → o.warmup ≡ pos 0
      → duration_value v < two_63
      → IfTakes (warmup_flag v) o (record o {
        warmup = if is_empty v || zero_duration v then pos 0 else pos (duration_value v);
      })
  unfolding warmup_flag
  warmup_flag-IfTakes v o z h = elim (Bool-cases (is_empty v || zero_duration v)) [
    | inl e ↦
        rw e
          (subst (λ d. Takes fl [] o (record o { warmup = d })) z (Reads-nil (blast_flag_set fl) o))
    | inr f ↦ elim (Bool-cases (is_duration v)) [
      | inl d ↦ rw (f, d) (warmup-Takes fl v _ o (parse_duration-is_duration fl.fraction v d h))
      | inr n ↦ rw (f, n) tt
    ]
  ]

  module _ (format_float : ℤ → ℕ → List ℕ) (req : RunReq) where
    blast_flags-IfTakes :
        duration_value req.duration < two_63
        → duration_value req.timeout < two_63
        → duration_value req.keep_alive < two_63
        → duration_value req.max_idle < two_63
        → duration_value req.warmup < two_63
        → fl.parse_float (format_float req.rps_num req.rps_den) ≡ some (req.rps_num, req.rps_den)
        → (o : Options) → o.body_str ≡ []
        → o.urls ≡ []
        → o.warmup ≡ pos 0
        → IfTakes (blast_flags format_float req) o (record o {
          duration = given o.duration req.duration;
          timeout = given o.timeout req.timeout;
          keep_alive = given o.keep_alive req.keep_alive;
          max_idle = given o.max_idle req.max_idle;
          warmup =
              if is_empty req.warmup || zero_duration req.warmup
              then pos 0
              else pos (duration_value req.warmup);
          conns = clamp req.conns (pos 1) (pos 64);
          workers = clamp req.workers (pos 1) (pos 256);
          stats_every = seconds 5;
          read_body = req.read_body;
          rps = if ltb_ℤ (pos 0) req.rps_num then (req.rps_num, req.rps_den) else o.rps;
          mode = if bytes_eq req.mode (codes "open") then codes "open" else o.mode;
          max_inflight =
              if ltb_ℤ (pos 0) req.max_inflight
              then clamp req.max_inflight (pos 1) (pos 4096)
              else o.max_inflight;
          method = if names_method req.method then req.method else o.method;
          body_str = req.body;
          urls = req.urls;
          probe_0rtt = if req.probe_0rtt then true else o.probe_0rtt;
        })
    unfolding blast_flags duration_flags
    blast_flags-IfTakes d t k m u x o no_body no_urls no_warmup =
        let o1 : Options = record o { duration = given o.duration req.duration } in
        let o2 : Options = record o1 { timeout = given o.timeout req.timeout } in
        let o3 : Options = record o2 { keep_alive = given o.keep_alive req.keep_alive } in
        let o4 : Options = record o3 { max_idle = given o.max_idle req.max_idle } in
        let o5 : Options = record o4 {
          warmup =
              if is_empty req.warmup || zero_duration req.warmup
              then pos 0
              else pos (duration_value req.warmup);
        } in
        let o6 : Options = record o5 {
          conns = clamp req.conns (pos 1) (pos 64);
          workers = clamp req.workers (pos 1) (pos 256);
          stats_every = seconds 5;
          read_body = req.read_body;
        } in
        let more = load_flags req ++ optional_blast_flags format_float req in
        let rest = with_rest (warmup_flag req.warmup) more in
        let l4 : List (List ℕ × List ℕ) = (codes "-max-idle-timeout=", req.max_idle) ∷ [] in
        let l3 : List (List ℕ × List ℕ) = (codes "-keepalive=", req.keep_alive) ∷ l4 in
        let l2 : List (List ℕ × List ℕ) = (codes "-timeout=", req.timeout) ∷ l3 in
        duration_flags-IfTakes (codes "-duration=") req.duration l2 rest
          (λ v. record o { duration = v }) o.duration _ d
          (λ v e. duration-Takes fl req.duration v o e)
          (duration_flags-IfTakes (codes "-timeout=") req.timeout l3 rest
            (λ v. record o1 { timeout = v }) o.timeout _ t
            (λ v e. timeout-Takes fl req.timeout v o1 e)
            (duration_flags-IfTakes (codes "-keepalive=") req.keep_alive l4 rest
              (λ v. record o2 { keep_alive = v }) o.keep_alive _ k
              (λ v e. keepalive-Takes fl req.keep_alive v o2 e)
              (duration_flags-IfTakes (codes "-max-idle-timeout=") req.max_idle [] rest
                (λ v. record o3 { max_idle = v }) o.max_idle _ m
                (λ v e. max_idle-Takes fl req.max_idle v o3 e)
                (with_rest-IfTakes (warmup_flag req.warmup) more o4 o5 _
                  (warmup_flag-IfTakes req.warmup o4 no_warmup u)
                  (Reads-append (blast_flag_set fl) (load_flags req)
                    (optional_blast_flags format_float req) o5 o6 _
                    (load-Takes fl format_float req o5)
                    (optional-Takes fl format_float req x o6 no_body no_urls))))))

    -- The flags without a value, as they are read.
    abbrev pub as_read : Options → Options
    as_read o = record o {
      insecure = if o.insecure then true else false;
      probe_0rtt = if o.probe_0rtt then true else false;
    }

    pub args-IfTakes :
        (target : List ℕ)
        → bytes_eq req.tool (codes "blast") ≡ true
        → duration_value req.duration < two_63
        → duration_value req.timeout < two_63
        → duration_value req.keep_alive < two_63
        → duration_value req.max_idle < two_63
        → duration_value req.warmup < two_63
        → fl.parse_float (format_float req.rps_num req.rps_den) ≡ some (req.rps_num, req.rps_den)
        → IfTakes
            (before
              (common_flags req target)
              (if bytes_eq req.tool (codes "blast") then blast_flags format_float req else ok []))
            defaults
            (as_read (wanted req target))
    unfolding wanted
    args-IfTakes target b d t k m u x =
        let common : Options = record defaults {
          target = target;
          headers = nonempty req.headers;
          insecure = if req.insecure then true else false;
          cert_dir = if req.local_certs then codes "/certs" else [];
          server_name = if req.local_certs then codes "edge" else [];
        } in
        rw b (
          before-IfTakes (common_flags req target) (blast_flags format_float req) defaults common
            (as_read (wanted req target)) (common-Takes fl format_float req target defaults)
            (blast_flags-IfTakes d t k m u x common refl refl refl))

-- ===== src/Probe/Options/Panel.antt =====
-- internal/ui/ui.go (`buildRunArgs`) and internal/probe/probe.go (`Main`): a probe that the panel starts.
use mathlib.Core.List.{append-nil, append_assoc}
use quicshot.Prelude.{
  ℕ, ◌≡◌, refl, sym, ◌∙◌, ap, subst, Bool, true, false, List, [], ◌∷◌, ◌++◌, none, if◌then◌else◌,
}
use quicshot.Prelude.Bytes.{codes, bytes_eq}
use quicshot.Prelude.Int.{ℤ}
use quicshot.Flags.{parsed, exits, parse}
use quicshot.Flags.Values.{parse_bool}
use quicshot.Flags.Reads.{Reads, Reads-nil, Reads-append, Reads-one}
use quicshot.Blast.Options.Wanted.{nonempty}
use quicshot.Ui.Commands.{ok}
use quicshot.Ui.Commands.Run.{RunReq, flag_if, header_flags, common_flags, build_run_args}
use quicshot.Probe.Options.{Options, defaults, probe_flag_set, parse_options}

-- The options that a request to the panel means.
unfoldable pub wanted : RunReq → List ℕ → Options
wanted req target = record defaults {
  target = target;
  insecure = req.insecure;
  headers = nonempty req.headers;
}

module _ (fraction : List ℕ → ℕ → ℕ) where
  abbrev Takes : List (List ℕ) → Options → Options → Type 0
  Takes args o p = Reads (probe_flag_set fraction) args o p

  url-Takes :
      (v : List ℕ) (o : Options) → Takes ((codes "-url=" ++ v) ∷ []) o (record o { target = v })
  unfolding bytes_eq
  url-Takes v o = Reads-one (probe_flag_set fraction) (codes "-url=" ++ v) o _ refl

  header-Takes :
      (v : List ℕ) (o : Options)
      → Takes ((codes "-header=" ++ v) ∷ []) o (record o { headers = o.headers ++ (v ∷ []) })
  unfolding bytes_eq
  header-Takes v o = Reads-one (probe_flag_set fraction) (codes "-header=" ++ v) o _ refl

  headers-Takes :
      (hs : List (List ℕ)) (o : Options)
      → Takes (header_flags hs) o (record o { headers = o.headers ++ nonempty hs })
  unfolding header_flags nonempty
  headers-Takes [] o = rw append-nil (Reads-nil (probe_flag_set fraction) o)
  headers-Takes ([] ∷ hs) o = headers-Takes hs o
  headers-Takes ((c ∷ s) ∷ hs) o =
      let p : Options = record o { headers = o.headers ++ ((c ∷ s) ∷ []) } in
      Reads-append (probe_flag_set fraction) ((codes "-header=" ++ (c ∷ s)) ∷ []) (header_flags hs)
        o p _ (header-Takes (c ∷ s) o)
        (subst (λ l. Takes (header_flags hs) p (record p { headers = l }))
          (append_assoc o.headers ((c ∷ s) ∷ []) (nonempty hs)) (headers-Takes hs p))

  insecure-Takes :
      (b : Bool) (o : Options)
      → o.insecure ≡ false
      → Takes (flag_if b (codes "-insecure")) o (record o { insecure = b })
  unfolding bytes_eq parse_bool
  insecure-Takes true o e = Reads-one (probe_flag_set fraction) (codes "-insecure") o _ refl
  insecure-Takes false o e =
      subst (λ b. Takes [] o (record o { insecure = b })) e (Reads-nil (probe_flag_set fraction) o)

  -- `probe` has no flag "-certs".
  refuses_certs :
      (rest : List (List ℕ)) (o : Options)
      → parse (probe_flag_set fraction) none (codes "-certs=/certs" ∷ rest) o ≡ exits 2
  unfolding parse bytes_eq
  refuses_certs rest o = refl

  local_certs_lem :
      (b : Bool) (o : Options)
      → parse
          (probe_flag_set fraction)
          none
          (if b then codes "-certs=/certs" ∷ codes "-server-name=edge" ∷ [] else [])
          o
        ≡ (if b then exits 2 else parsed o)
  unfolding parse
  local_certs_lem true o = refuses_certs (codes "-server-name=edge" ∷ []) o
  local_certs_lem false o = refl

  common_flags_lem :
      (req : RunReq) (target : List ℕ)
      → parse_options fraction (common_flags req target)
        ≡ (if req.local_certs then exits 2 else parsed (wanted req target))
  unfolding parse_options common_flags wanted
  common_flags_lem req target =
      let o1 : Options = record defaults { target = target } in
      let o2 : Options = record o1 { headers = nonempty req.headers } in
      let certs =
        if req.local_certs then codes "-certs=/certs" ∷ codes "-server-name=edge" ∷ [] else [] in
      let insecure = flag_if req.insecure (codes "-insecure") in
      let shown = header_flags req.headers ++ insecure in
      Reads-append (probe_flag_set fraction) ((codes "-url=" ++ target) ∷ []) shown defaults o1 _
        (url-Takes target defaults)
        (Reads-append (probe_flag_set fraction) (header_flags req.headers) insecure o1 o2 _
          (headers-Takes req.headers o1) (insecure-Takes req.insecure o2 refl))
        certs
      ∙ local_certs_lem req.local_certs (wanted req target)

no_blast_flags :
    (format_float : ℤ → ℕ → List ℕ) (req : RunReq) (target : List ℕ)
    → req.tool ≡ codes "probe"
    → build_run_args format_float req target ≡ ok (req.tool ∷ common_flags req target)
unfolding build_run_args bytes_eq
no_blast_flags format_float req target e =
    let b : bytes_eq req.tool (codes "blast") ≡ false =
      subst (λ t. bytes_eq t (codes "blast") ≡ false) (sym e) refl in
    rw b (ap (λ fs. ok (req.tool ∷ fs)) (append-nil (common_flags req target)))

-- A probe that the panel starts reads exactly the options that the request means, unless the request
-- asks for the demo's certificates: then the arguments hold a flag that `probe` does not have, and it
-- exits with code 2 before its first step.
pub parse_options-build_run_args :
    (fraction : List ℕ → ℕ → ℕ) (format_float : ℤ → ℕ → List ℕ) (req : RunReq) (target : List ℕ)
    → req.tool ≡ codes "probe"
    → (fs : List (List ℕ)) × (build_run_args format_float req target ≡ ok (req.tool ∷ fs))
      × (parse_options fraction fs
          ≡ (if req.local_certs then exits 2 else parsed (wanted req target)))
parse_options-build_run_args fraction format_float req target e = (
  common_flags req target,
  no_blast_flags format_float req target e,
  common_flags_lem fraction req target,
)

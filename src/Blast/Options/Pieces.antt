-- ===== src/Blast/Options/Pieces.antt =====
-- internal/ui/ui.go (`buildRunArgs`) and internal/blast/blast.go (`parseConfig`): what the groups of
-- arguments do that the panel passes.
use mathlib.Core.List.{append-nil, append_assoc}
use quicshot.Prelude.{
  is_empty, ℕ, ◌≡◌, sym, subst, Bool, true, false, not, List, [], ◌∷◌, ◌++◌, some, if◌then◌else◌,
}
use quicshot.Prelude.Bytes.{codes, bytes_eq}
use quicshot.Prelude.Int.{ℤ, pos, pos_part, ltb_ℤ}
use quicshot.Flags.Reads.{Reads-nil, Reads-append}
use quicshot.Blast.CfCode.{decimal}
use quicshot.Blast.Options.{Options, Floats, seconds, blast_flag_set}
use quicshot.Blast.Options.Arguments.{
  Takes, one_after, Takes-flag_if, url-Takes, header-Takes, insecure-Takes, certs-Takes,
  server_name-Takes, conns-Takes, workers-Takes, max_inflight-Takes, stats_every-Takes,
  read_body-Takes, rps-Takes, mode_open-Takes, method-Takes, body-Takes, urls-Takes,
  probe_0rtt-Takes,
}
use quicshot.Ui.Commands.{clamp}
use quicshot.Ui.Commands.Run.{
  RunReq, flag_if, flags_of, header_flags, bool_text, optional_blast_flags, load_flags,
  common_flags,
}
use quicshot.Blast.Options.Wanted.{nonempty, names_method}

module _ (fl : Floats) (format_float : ℤ → ℕ → List ℕ) (req : RunReq) where
  headers-Takes :
      (hs : List (List ℕ)) (o : Options)
      → Takes fl (header_flags hs) o (record o { headers = o.headers ++ nonempty hs })
  unfolding header_flags nonempty
  headers-Takes [] o = rw append-nil (Reads-nil (blast_flag_set fl) o)
  headers-Takes ([] ∷ hs) o = headers-Takes hs o
  headers-Takes ((c ∷ s) ∷ hs) o =
      let p : Options = record o { headers = o.headers ++ ((c ∷ s) ∷ []) } in
      one_after fl (codes "-header=" ++ (c ∷ s)) (header_flags hs) o p _ (header-Takes fl (c ∷ s) o)
        (subst (λ l. Takes fl (header_flags hs) p (record p { headers = l }))
          (append_assoc o.headers ((c ∷ s) ∷ []) (nonempty hs)) (headers-Takes hs p))

  local-Takes :
      (b : Bool) (o : Options)
      → Takes fl
          (if b then codes "-certs=/certs" ∷ codes "-server-name=edge" ∷ [] else [])
          o
          (record o {
            cert_dir = if b then codes "/certs" else o.cert_dir;
            server_name = if b then codes "edge" else o.server_name;
          })
  local-Takes false o = Reads-nil (blast_flag_set fl) o
  local-Takes true o =
      one_after fl (codes "-certs=/certs") (codes "-server-name=edge" ∷ []) o _ _ (certs-Takes fl o)
        (server_name-Takes fl (record o { cert_dir = codes "/certs" }))

  pub common-Takes :
      (target : List ℕ) (o : Options)
      → Takes fl (common_flags req target) o (record o {
        target = target;
        headers = o.headers ++ nonempty req.headers;
        insecure = if req.insecure then true else o.insecure;
        cert_dir = if req.local_certs then codes "/certs" else o.cert_dir;
        server_name = if req.local_certs then codes "edge" else o.server_name;
      })
  unfolding common_flags
  common-Takes target o =
      let p : Options = record o { target = target } in
      let q : Options = record p { headers = o.headers ++ nonempty req.headers } in
      let r : Options = record q { insecure = if req.insecure then true else o.insecure } in
      let certs =
        if req.local_certs then codes "-certs=/certs" ∷ codes "-server-name=edge" ∷ [] else [] in
      let insecure = flag_if req.insecure (codes "-insecure") in
      one_after fl (codes "-url=" ++ target) ((header_flags req.headers ++ insecure) ++ certs) o p _
        (url-Takes fl target o)
        (Reads-append (blast_flag_set fl) (header_flags req.headers ++ insecure) certs p r _
          (Reads-append (blast_flag_set fl) (header_flags req.headers) insecure p q r
            (headers-Takes req.headers p)
            (Takes-flag_if fl req.insecure (codes "-insecure")
              (λ b. record q { insecure = if b then true else o.insecure }) (insecure-Takes fl q)))
          (local-Takes req.local_certs r))

  pub load-Takes :
      (o : Options)
      → Takes fl (load_flags req) o (record o {
        conns = clamp req.conns (pos 1) (pos 64);
        workers = clamp req.workers (pos 1) (pos 256);
        stats_every = seconds 5;
        read_body = req.read_body;
      })
  unfolding load_flags
  load-Takes o =
      let workers = codes "-workers=" ++ decimal (pos_part (clamp req.workers (pos 1) (pos 256))) in
      let body = codes "-read-body=" ++ bool_text req.read_body in
      one_after fl _ (workers ∷ codes "-stats-every=5s" ∷ body ∷ []) o _ _
        (conns-Takes fl req.conns o)
        (one_after fl workers (codes "-stats-every=5s" ∷ body ∷ []) _ _ _
          (workers-Takes fl req.workers _)
          (one_after fl (codes "-stats-every=5s") (body ∷ []) _ _ _ (stats_every-Takes fl _)
            (read_body-Takes fl req.read_body _)))

  flags-Takes :
      (b : Bool) (f : List ℕ) (bfs : List (Bool × List ℕ)) (w : Bool → Options) (q : Options)
      → Takes fl (f ∷ []) (w false) (w true)
      → Takes fl (flags_of bfs) (w b) q
      → Takes fl (flags_of ((b, f) ∷ bfs)) (w false) q
  unfolding flags_of
  flags-Takes b f bfs w q r s =
      Reads-append (blast_flag_set fl) (flag_if b f) (flags_of bfs) (w false) (w b) q
        (Takes-flag_if fl b f w r) s

  -- A text that is passed on only if it is not empty.
  body_if-Takes :
      (v : List ℕ) (bfs : List (Bool × List ℕ)) (o q : Options)
      → o.body_str ≡ []
      → Takes fl (flags_of bfs) (record o { body_str = v }) q
      → Takes fl (flags_of ((not (is_empty v), codes "-body=" ++ v) ∷ bfs)) o q
  unfolding flags_of
  body_if-Takes [] bfs o q e t =
      subst (λ s. Takes fl (flags_of bfs) (record o { body_str = s }) q) (sym e) t
  body_if-Takes (c ∷ s) bfs o q e t =
      one_after fl (codes "-body=" ++ (c ∷ s)) (flags_of bfs) o _ q (body-Takes fl (c ∷ s) o) t

  urls_if-Takes :
      (v : List ℕ) (bfs : List (Bool × List ℕ)) (o q : Options)
      → o.urls ≡ []
      → Takes fl (flags_of bfs) (record o { urls = v }) q
      → Takes fl (flags_of ((not (is_empty v), codes "-urls=" ++ v) ∷ bfs)) o q
  unfolding flags_of
  urls_if-Takes [] bfs o q e t =
      subst (λ s. Takes fl (flags_of bfs) (record o { urls = s }) q) (sym e) t
  urls_if-Takes (c ∷ s) bfs o q e t =
      one_after fl (codes "-urls=" ++ (c ∷ s)) (flags_of bfs) o _ q (urls-Takes fl (c ∷ s) o) t

  pub optional-Takes :
      fl.parse_float (format_float req.rps_num req.rps_den) ≡ some (req.rps_num, req.rps_den)
      → (o : Options) → o.body_str ≡ []
      → o.urls ≡ []
      → Takes fl (optional_blast_flags format_float req) o (record o {
        rps = if ltb_ℤ (pos 0) req.rps_num then (req.rps_num, req.rps_den) else o.rps;
        mode = if bytes_eq req.mode (codes "open") then codes "open" else o.mode;
        max_inflight =
            if ltb_ℤ (pos 0) req.max_inflight
            then clamp req.max_inflight (pos 1) (pos 4096)
            else o.max_inflight;
        method = if names_method req.method then req.method else o.method;
        body_str = req.body;
        urls = req.urls;
        probe_0rtt = if req.probe_0rtt then true else o.probe_0rtt;
      })
  unfolding optional_blast_flags flags_of
  optional-Takes x o no_body no_urls =
      let inflight =
        codes "-max-inflight=" ++ decimal (pos_part (clamp req.max_inflight (pos 1) (pos 4096))) in
      let l7 : List (Bool × List ℕ) = (req.probe_0rtt, codes "-probe-0rtt") ∷ [] in
      let l6 : List (Bool × List ℕ) = (not (is_empty req.urls), codes "-urls=" ++ req.urls) ∷ l7 in
      let l5 : List (Bool × List ℕ) = (not (is_empty req.body), codes "-body=" ++ req.body) ∷ l6 in
      let l4 : List (Bool × List ℕ) =
        (names_method req.method, codes "-method=" ++ req.method) ∷ l5 in
      let l3 : List (Bool × List ℕ) = (ltb_ℤ (pos 0) req.max_inflight, inflight) ∷ l4 in
      let l2 : List (Bool × List ℕ) = (bytes_eq req.mode (codes "open"), codes "-mode=open") ∷ l3 in
      let w1 : Bool → Options =
        λ b. record o { rps = if b then (req.rps_num, req.rps_den) else o.rps } in
      let o1 = w1 (ltb_ℤ (pos 0) req.rps_num) in
      let w2 : Bool → Options = λ b. record o1 { mode = if b then codes "open" else o.mode } in
      let o2 = w2 (bytes_eq req.mode (codes "open")) in
      let w3 : Bool → Options = λ b. record o2 {
        max_inflight = if b then clamp req.max_inflight (pos 1) (pos 4096) else o.max_inflight;
      } in
      let o3 = w3 (ltb_ℤ (pos 0) req.max_inflight) in
      let w4 : Bool → Options = λ b. record o3 { method = if b then req.method else o.method } in
      let o4 = w4 (names_method req.method) in
      let o5 : Options = record o4 { body_str = req.body } in
      let o6 : Options = record o5 { urls = req.urls } in
      let w7 : Bool → Options = λ b. record o6 { probe_0rtt = if b then true else o.probe_0rtt } in
      let o7 = w7 req.probe_0rtt in
      flags-Takes (ltb_ℤ (pos 0) req.rps_num)
        (codes "-rps=" ++ format_float req.rps_num req.rps_den) l2 w1 o7 (rps-Takes fl _ _ o x)
        (flags-Takes (bytes_eq req.mode (codes "open")) (codes "-mode=open") l3 w2 o7
          (mode_open-Takes fl o1)
          (flags-Takes (ltb_ℤ (pos 0) req.max_inflight) inflight l4 w3 o7
            (max_inflight-Takes fl req.max_inflight o2)
            (flags-Takes (names_method req.method) (codes "-method=" ++ req.method) l5 w4 o7
              (method-Takes fl req.method o3)
              (body_if-Takes req.body l6 o4 o7 no_body (
                urls_if-Takes req.urls l7 o5 o7 no_urls (
                  flags-Takes req.probe_0rtt (codes "-probe-0rtt") [] w7 o7 (probe_0rtt-Takes fl o6)
                    (Reads-nil (blast_flag_set fl) o7)))))))

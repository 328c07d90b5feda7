-- ===== src/Probe/Blame.antt =====
-- internal/probe/probe.go: what each verdict says of the network.
use quicshot.Prelude.{
  ℕ, ◌≡◌, ◌↔◌, ◌⊎◌, refl, Bool, true, false, List, [], ◌∷◌, Option, none, some, arith, inl, inr,
}
use quicshot.Probe.{
  Network, Verdict, works, blocked_here, no_tcp, not_advertised, blocked_on_path, verdict, run,
  probe_tcp,
}

-- Each verdict, as a statement on the network.
abbrev pub Says : Bool → Network → Verdict → Type 0
Says use_control net works = net.target_h3 ≡ true
Says use_control net blocked_here =
    (net.target_h3 ≡ false) × ((net.control_h3 ≡ false) × (use_control ≡ true))
Says use_control net no_tcp =
    (net.target_h3 ≡ false) × ((net.tls_ok ≡ false) ⊎ (net.response ≡ none))
Says use_control net not_advertised =
    (net.target_h3 ≡ false) × ((net.tls_ok ≡ true) × (net.response ≡ some []))
Says use_control net (blocked_on_path alt) =
    (net.target_h3 ≡ false)
    × ((net.tls_ok ≡ true) × (net.response ≡ some alt))
    × ((use_control ≡ false) ⊎ (net.control_h3 ≡ true))

abbrev met : Bool → Bool → Option (List ℕ) → Bool → Bool → Network
met resolves tls_ok response target_h3 control_h3 = record {
  resolves = resolves;
  tls_ok = tls_ok;
  response = response;
  target_h3 = target_h3;
  control_h3 = control_h3;
}

says :
    (use_control resolves tls_ok : Bool) (response : Option (List ℕ)) (target_h3 control_h3 : Bool)
    → Says use_control
        (met resolves tls_ok response target_h3 control_h3)
        (run use_control (met resolves tls_ok response target_h3 control_h3)).result
unfolding run probe_tcp verdict
says u d t r true c = refl
says true d t r false false = (refl, (refl, refl))
says true d false r false true = (refl, inl refl)
says true d true none false true = (refl, inr refl)
says true d true (some []) false true = (refl, (refl, refl))
says true d true (some (a ∷ s)) false true = (refl, (refl, refl), inr refl)
says false d false r false c = (refl, inl refl)
says false d true none false c = (refl, inr refl)
says false d true (some []) false c = (refl, (refl, refl))
says false d true (some (a ∷ s)) false c = (refl, (refl, refl), inl refl)

-- When each verdict is given: the one that names the local network only if the control endpoint was
-- tried and failed, too; the one that names the host only if it did not answer over TCP; the one that
-- names the server only if its response over TCP has no "Alt-Svc"; and the one that names the path
-- only if that response has the printed "Alt-Svc", and the control endpoint answered or was not tried.
-- The exit code is 0 exactly if HTTP/3 works.
pub run-Says :
    (use_control : Bool) (net : Network)
    → Says use_control net (run use_control net).result
      × (((run use_control net).exit_code ≡ 0) ↔ (net.target_h3 ≡ true))
unfolding run probe_tcp verdict
run-Says use_control net = (
  says use_control net.resolves net.tls_ok net.response net.target_h3 net.control_h3,
  (ground arith, ground arith),
)

-- Without a control endpoint, a server that advertises HTTP/3 and does not answer over it gets the
-- verdict that says that the control endpoint succeeded.
pub run_untested :
    (net : Network) (c : ℕ) (alt : List ℕ)
    → net.target_h3 ≡ false
    → net.tls_ok ≡ true
    → net.response ≡ some (c ∷ alt)
    → (run false net).result ≡ blocked_on_path (c ∷ alt)
unfolding run probe_tcp verdict
run_untested net c alt h t r = rw (h, t, r) refl

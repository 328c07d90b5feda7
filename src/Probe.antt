-- ===== src/Probe.antt =====
-- internal/probe/probe.go: the steps of a probe and its verdict. What the network answers is an
-- argument; the text of a step is left out.
pub mod Options
pub mod Blame
pub mod Main
use quicshot.Prelude.{
  ℕ, Bool, true, false, not, ◌&&◌, List, [], ◌∷◌, ◌++◌, Option, none, some, is_empty, if◌then◌else◌,
}

-- The steps that `step` and the end of `probeTCP` print.
pub data Check : Type 0 where
  dns tcp_tls http_over_tcp alt_svc_step h3 control : Check

pub data Mark : Type 0 where
  pass fail warn : Mark

abbrev pub mark_of : Bool → Mark
mark_of true = pass
mark_of false = fail

abbrev pub Step : Type 0
Step = Check × Mark

unfoldable pub step : Check → Bool → Step
step name ok = (name, mark_of ok)

-- What the probe meets: the handshake over TCP, the `Alt-Svc` header of the response over TCP (`none`
-- without a response), and the two requests over HTTP/3.
pub record Network : Type 0 where
  pub resolves : Bool
  pub tls_ok : Bool
  pub response : Option (List ℕ)
  pub target_h3 : Bool
  pub control_h3 : Bool

-- `probeTCP`: its steps, the `Alt-Svc` header, and whether there was a response.
abbrev pub answered : Option (List ℕ) → List Step × (List ℕ × Bool)
answered none = (step tcp_tls true ∷ step http_over_tcp false ∷ [], ([], false))
answered (some alt) = (
  step tcp_tls true
      ∷ step http_over_tcp true
      ∷ (alt_svc_step, if is_empty alt then warn else pass)
      ∷ [],
  (alt, true),
)

unfoldable pub probe_tcp : Network → List Step × (List ℕ × Bool)
probe_tcp net = if net.tls_ok then answered net.response else (step tcp_tls false ∷ [], ([], false))

pub data Verdict : Type 0 where
  works : Verdict
  blocked_here : Verdict
  no_tcp : Verdict
  not_advertised : Verdict
  -- with the text of the header; it says that the control endpoint succeeded.
  blocked_on_path : List ℕ → Verdict

unfoldable pub verdict : Bool → Bool → List ℕ → Bool → Bool → Verdict
verdict tcp_ok h3_ok alt_svc control_tested control_ok =
    if h3_ok
    then works
    else if control_tested && not control_ok
    then blocked_here
    else if not tcp_ok
    then no_tcp
    else if is_empty alt_svc
    then not_advertised
    else blocked_on_path alt_svc

pub record Report : Type 0 where
  pub steps : List Step
  pub result : Verdict
  pub exit_code : ℕ

-- `Main` behind its flags; `use_control` is whether `-control` names an endpoint.
unfoldable pub run : Bool → Network → Report
run use_control net =
    let (tcp_steps, (alt_svc, tcp_ok)) = probe_tcp net in
    let tested = use_control && not net.target_h3 in
    record {
      steps =
          (step dns net.resolves ∷ [])
          ++ (tcp_steps
              ++ ((step h3 net.target_h3 ∷ [])
                  ++ (if tested then step control net.control_h3 ∷ [] else [])));
      result =
          verdict tcp_ok net.target_h3 alt_svc tested (if tested then net.control_h3 else true);
      exit_code = if net.target_h3 then 0 else 1;
    }

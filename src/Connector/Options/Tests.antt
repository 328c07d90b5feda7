-- ===== src/Connector/Options/Tests.antt =====
-- internal/connector/connector.go, `Main`, at a command line of two loops.
use quicshot.Prelude.{ℕ, List, [], ◌∷◌, none, true}
use quicshot.Prelude.Bytes.{codes}
use quicshot.Prelude.Int.{pos}
use quicshot.Connector.Options.{Options, defaults, TlsConfig, start_opts, Loop, loop_of, Env}

abbrev lab : Env
lab = record { fraction = λ f u. 0; text = λ s. "edge"; has_cert = λ pem. true; dirs = λ d. [] }

abbrev two_loops : List (List ℕ)
two_loops = codes "-insecure" ∷ codes "-ha-connections=2" ∷ []

abbrev chosen : Options
chosen = record defaults { insecure = true; ha = pos 2 }

abbrev chosen_tls : TlsConfig
chosen_tls = record { server_name = codes "edge"; insecure_skip_verify = true; root_cas = none }

abbrev both : List Loop
both =
    loop_of lab.text (start_opts chosen chosen_tls) 0
    ∷ loop_of lab.text (start_opts chosen chosen_tls) 1
    ∷ []

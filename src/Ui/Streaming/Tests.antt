-- ===== src/Ui/Streaming/Tests.antt =====
-- internal/ui/ui.go, `log`: two sources, of which one is over its budget.
use quicshot.Prelude.{◌+◌, ◌≡◌, List, [], ◌∷◌, ◌++◌, replicate}
use quicshot.Prelude.Bytes.{codes}
use quicshot.Ui.Streaming.{Panel, Line, log_all}
use quicshot.Ui.Streaming.Accounts.{came, shown, noted, pending, observe_all, log_all-Accounted}
use quicshot.Ui.Tests.{blank_flow, no_json}

abbrev blank_panel : Panel
blank_panel = record { flow = blank_flow; rate = [] }

abbrev burst : List Line
burst =
    replicate 125
      (record { src = "blast"; text = codes "[blast] 5s total=20 fail=3"; now = 1000000000 })
    ++ (record { src = "edge"; text = codes "{\"msg\":\"no connector\"}"; now = 1000000001 }
        ∷ record { src = "blast"; text = codes "done"; now = 2000000000 }
        ∷ [])

log_all-Accounted_example :
    let (q, ms) = log_all no_json blank_panel burst in
    (q.flow ≡ observe_all no_json blank_flow burst)
    × (shown "blast" ms + noted "blast" ms + pending "blast" q.rate
        ≡ came "blast" burst + pending "blast" [])
log_all-Accounted_example = log_all-Accounted no_json "blast" burst blank_panel

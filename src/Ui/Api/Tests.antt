-- ===== src/Ui/Api/Tests.antt =====
-- internal/ui/ui.go: a request that starts a run, at an idle panel.
use quicshot.Prelude.{[], some, none}
use quicshot.Prelude.Bytes.{codes}
use quicshot.Ui.Commands.Impair.{ImpairReq}
use quicshot.Ui.RunSlot.Exclusive.{idle}
use quicshot.Ui.Api.{Outside, Server, impair, serve}
use quicshot.Ui.Api.Effects.{Does, serve-Does}
use quicshot.Ui.Tests.{blank_flow}

abbrev here : Outside
here = record {
  order = [];
  host = record {
    parse = λ s. none;
    format_float = λ n d. [];
    script = codes "scripts/h3-clients.sh";
    executable = none;
  };
  impair_script = codes "scripts/impair.sh";
}

abbrev idle_server : Server
idle_server = record { runs = idle; flow = blank_flow; impair = [] }

abbrev slow_origin : ImpairReq
slow_origin = record {
  service = codes "origin";
  mode = codes "delay";
  a = codes "80ms";
  b = codes "20ms";
  burst = [];
}

serve-Does_example :
    Does here
      (impair (some slow_origin))
      idle_server
      (serve here (impair (some slow_origin)) idle_server)
serve-Does_example = serve-Does here (impair (some slow_origin)) idle_server

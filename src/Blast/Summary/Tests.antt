-- ===== src/Blast/Summary/Tests.antt =====
-- The report of blast at concrete runs.
use mathlib.Core.List.Perm
use quicshot.Prelude.{◌*◌, ◌/◌, ◌≡◌, refl, [], ◌∷◌}
use quicshot.Prelude.Bytes.{codes}
use quicshot.Blast.CfCode.{decimal}
use quicshot.Blast.Hist.{LatencyHist}
use quicshot.Blast.Recorder.{Recorder, new_recorder}
use quicshot.Blast.Summary.{Texts, Ranges, summary, sorted, sort, place}
use quicshot.Blast.Summary.Order.{summary_order}

abbrev texts : Texts
texts = record {
  elapsed = codes "1s";
  per_second = λ n. decimal n;
  kb_per_second = λ n. decimal (n / 1024);
  duration = λ n. decimal n;
  scaled = λ p n. p * n / 1000;
}

abbrev run : Recorder
run = record new_recorder {
  status = (524, 2) ∷ (200, 7) ∷ [];
  protos = ("HTTP/3.0", 9) ∷ [];
  requests = 9;
}

abbrev one_way : Ranges
one_way = record {
  status = 524 ∷ 200 ∷ [];
  protos = codes "HTTP/3.0" ∷ [];
  cf_codes = [];
  kinds = [];
}

abbrev other_way : Ranges
other_way = record one_way { status = 200 ∷ 524 ∷ [] }

summary_order_example : summary texts one_way run ≡ summary texts other_way run
summary_order_example =
    summary_order texts run one_way other_way (Perm.swap 200 524 [])
      (Perm.refl (codes "HTTP/3.0" ∷ [])) (Perm.refl []) (Perm.refl [])

abbrev kept : LatencyHist
kept = record { samples = 30 ∷ 10 ∷ 40 ∷ 20 ∷ []; room = 4; seen = 6 }

sample_order : sorted kept ≡ 10 ∷ 20 ∷ 30 ∷ 40 ∷ []
unfolding sorted sort place
sample_order = refl

-- ===== src/Blast/Main/Tests.antt =====
-- internal/blast/blast.go, `Main`: a run whose warm-up offers one request, omits another and loses its connection.
use quicshot.Prelude.{◌≡◌, [], ◌∷◌, none, true, false}
use quicshot.Prelude.Bytes.{codes}
use quicshot.Blast.Recorder.Balance.{lost, offered, omitted}
use quicshot.Blast.Main.{World, main}
use quicshot.Blast.Main.Warmup.{main-warmup}

abbrev quiet : World
quiet = record {
  floats = record { fraction = λ f u. 0; parse_float = λ v. none };
  is_url = λ u. true;
  read_file = λ f. none;
  opens_log = false;
  has_cert = λ pem. false;
  dirs = λ d. [];
  makes_qlog_dir = false;
  sets_qlog_dir = false;
  warmup = [];
  measured = [];
  texts = record {
    elapsed = codes "30s";
    per_second = λ n. codes "0.0";
    kb_per_second = λ n. codes "0.0";
    duration = λ d. codes "0s";
    scaled = λ p n. 0;
  };
  ranges = record { status = []; protos = []; cf_codes = []; kinds = [] };
}

main-warmup_example :
    main
      (record quiet { warmup = offered ∷ offered ∷ omitted ∷ lost 0 none ∷ [] })
      (codes "-warmup=5s" ∷ codes "-max-conn-drops=0" ∷ [])
    ≡ main quiet (codes "-warmup=5s" ∷ codes "-max-conn-drops=0" ∷ [])
main-warmup_example =
    main-warmup quiet (codes "-warmup=5s" ∷ codes "-max-conn-drops=0" ∷ [])
      (offered ∷ offered ∷ omitted ∷ lost 0 none ∷ [])

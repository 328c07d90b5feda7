-- ===== src/Quicerr/Tests.antt =====
-- internal/quicerr/quicerr.go at concrete errors.
use quicshot.Prelude.{◌≡◌, true, [], ◌∷◌, some}
use quicshot.Prelude.Bytes.{codes}
use quicshot.Quicerr.{Err, idle_link, app_link, plain_link, classify}
use quicshot.Quicerr.Ranking.{rank_of, best, classify-best}

-- An idle timeout outside an application error, both wrapped once more.
abbrev wrapped : Err
wrapped = record {
  text = codes "dial: timeout";
  chain = plain_link ∷ idle_link ∷ app_link 256 true (codes "bye") ∷ [];
}

classify-best_example : rank_of (classify (some wrapped)).0 ≡ best wrapped.chain
classify-best_example = classify-best wrapped

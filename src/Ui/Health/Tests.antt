-- ===== src/Ui/Health/Tests.antt =====
-- The polls of the panel and its message at concrete inputs.
use quicshot.Ui.Flow.Counts.{Update, line, published, update_all}
use quicshot.Ui.Health.Ticks.{IsShown, nothing_shown, shown_all, update_all-IsShown}
use quicshot.Ui.Tests.{blank_flow}
use quicshot.Prelude.{none, [], ◌∷◌, ℕ, ◌≡◌, refl, Bool, List, some, ltb}
use quicshot.Prelude.Bytes.{codes}
use quicshot.Blast.Config.{split, trim_space, trim_left, trim_right}
use quicshot.Ui.Health.{
  ServiceHealth, service_health, ids_in, stats_max, parse_percent, trim_percent,
}

-- A percentage of one digit stands for a float.
abbrev digit : List ℕ → ℕ
digit [] = 0
digit (c ∷ s) = c

abbrev above : ℕ → ℕ → Bool
above a b = ltb b a

abbrev ps : List ℕ
ps = codes "a1\nb2\n"

abbrev health : ServiceHealth ℕ 0 above digit
health = record { cpu = b'7'; mem = b'3'; replicas = 2; updated = 50 }

read_health :
    service_health ℕ 0 above digit (some ps) (some (codes "7%|3%\n2%|1%\n")) 50 ≡ some health
unfolding service_health ids_in stats_max parse_percent trim_percent split trim_space trim_left
    trim_right
read_health = refl

-- Two requests, a message, and one more.
abbrev updates : List Update
updates =
    line "edge" (codes "{\"msg\":\"proxied\"}")
    ∷ line "edge" (codes "{\"msg\":\"no connector\"}")
    ∷ published
    ∷ line "edge" (codes "{\"msg\":\"proxied\"}")
    ∷ []

update_all-IsShown_example :
    IsShown
      (shown_all (λ l. none) (λ p n. n) nothing_shown blank_flow updates)
      (update_all (λ l. none) blank_flow updates)
update_all-IsShown_example =
    update_all-IsShown (λ l. none) (λ p n. n) nothing_shown blank_flow updates fresh
  where
    fresh : IsShown nothing_shown blank_flow
    fresh = record { requests = refl; s524 = refl; s502 = refl; opened = refl; closed = refl }

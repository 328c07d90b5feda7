-- ===== src/Ui/Hub/Tests.antt =====
-- internal/ui/hub.go at concrete runs.
use quicshot.Prelude.{◌≡◌, List, [], ◌∷◌, some}
use quicshot.Prelude.Bytes.{codes}
use quicshot.Prelude.Members.{All}
use quicshot.Ui.Hub.{Hub, sub, unsub_step, publish}
use quicshot.Ui.Hub.Open.{Reach, here, next, subscribe, leaves, IsOpen, reachable-publish}
use quicshot.Ui.Hub.Delivery.{Traffic, message, written}

-- Of two browsers the first has left.
abbrev two : Hub
two = unsub_step 0 (unsub_step 0 (sub (sub []).1).1)

left : Reach two
left = next (next (next (next here subscribe) subscribe) (leaves 0)) (leaves 0)

reachable-publish_example :
    All IsOpen two × ((g : Hub) × (publish (some (codes "{}")) two ≡ some g))
reachable-publish_example = reachable-publish (codes "{}") left

abbrev traffic : List Traffic
traffic = message (codes "a") ∷ message (codes "b") ∷ written ∷ message (codes "c") ∷ []

-- ===== src/Ui/Hub/Delivery.antt =====
-- internal/ui/hub.go: what one browser gets of the messages.
use mathlib.Core.List.{Sublistᴰ}
use mathlib.Core.List.Sublistᴰ
use quicshot.Prelude.{ℕ, ◌+◌, List, [], ◌∷◌, ◌++◌, Option, none, some, ltb, length, if◌then◌else◌}
use quicshot.Ui.Hub.{Chan, capacity, offer, receive}

-- What happens on its channel: a message is published, or the handler writes one out.
pub data Traffic : Type 0 where
  message : List ℕ → Traffic
  written : Traffic

-- The channel, and what was written to the browser so far.
abbrev pub Feed : Type 0
Feed = Chan × List (List ℕ)

abbrev pub with_got : List (List ℕ) → Option (List ℕ) × Chan → Feed
with_got out (none, c) = (c, out)
with_got out (some b, c) = (c, out ++ (b ∷ []))

abbrev pub feed_step : Feed → Traffic → Feed
feed_step (c, out) (message b) = (offer b c, out)
feed_step (c, out) written = with_got out (receive c)

unfoldable pub feed : Feed → List Traffic → Feed
feed f [] = f
feed f (t ∷ ts) = feed (feed_step f t) ts

unfoldable pub messages : List Traffic → List (List ℕ)
messages [] = []
messages (message b ∷ ts) = b ∷ messages ts
messages (written ∷ ts) = messages ts

-- Written, and on their way.
abbrev pub held : Feed → List (List ℕ)
held (c, out) = out ++ c.buffer

-- How many messages find the channel full.
unfoldable pub dropped : Feed → List Traffic → ℕ
dropped f [] = 0
dropped f (message b ∷ ts) =
    let rest = dropped (feed_step f (message b)) ts in
    if ltb (length f.0.buffer) capacity then rest else 1 + rest
dropped f (written ∷ ts) = dropped (feed_step f written) ts

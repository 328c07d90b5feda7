-- ===== src/Ui/Hub.antt =====
-- internal/ui/hub.go: the browsers that follow the panel, each with a channel of 512 messages. Each
-- function is one critical section under `mu`, one channel operation, or one call.
pub mod Open
pub mod Delivery
mod Tests
use quicshot.Prelude.{
  ℕ, zero, suc, ◌+◌, Bool, true, false, not, ◌&&◌, List, [], ◌∷◌, ◌++◌, Option, none, some, ltb,
  length, get_elem?, set, map, if◌then◌else◌,
}

-- The steps of `unsub`.
pub data UnsubStep : Type 0 where
  take_out close : UnsubStep

-- The body of `unsub`: out of the map, under the lock, and then closed.
abbrev pub unsub : List UnsubStep
unsub = take_out ∷ close ∷ []

-- A message is what `json.Marshal` makes of a value: a list of bytes. A channel is its position in the
-- list of all that were made; `subscribed` is whether it is a key of `subs`, and `to_do` is what is
-- left of the `unsub` that the handler defers.
pub record Chan : Type 0 where
  pub buffer : List (List ℕ)
  pub subscribed : Bool
  pub is_closed : Bool
  pub to_do : List UnsubStep

abbrev pub capacity : ℕ
capacity = 512

abbrev pub Hub : Type 0
Hub = List Chan

abbrev pub new_hub : Hub
new_hub = []

abbrev pub new_chan : Chan
new_chan = record { buffer = []; subscribed = true; is_closed = false; to_do = unsub }

-- The new channel's position, and the hub.
unfoldable pub sub : Hub → ℕ × Hub
sub h = (length h, h ++ (new_chan ∷ []))

unfoldable pub at : ℕ → (Chan → Chan) → Hub → Hub
at i fn [] = []
at zero fn (c ∷ h) = fn c ∷ h
at (suc i) fn (c ∷ h) = c ∷ at i fn h

unfoldable pub run_step : UnsubStep → Chan → Chan
run_step take_out c = record c { subscribed = false }
run_step close c = record c { is_closed = true }

-- The handler of a channel goes one step on in its `unsub`, if one is left.
unfoldable pub unsub_chan : Chan → Chan
unsub_chan c = elim c.to_do [ [] ↦ c | s ∷ later ↦ record (run_step s c) { to_do = later } ]

unfoldable pub unsub_step : ℕ → Hub → Hub
unsub_step i h = at i unsub_chan h

-- `select { case c <- b: default: }`: a full channel drops the message.
unfoldable pub offer : List ℕ → Chan → Chan
offer b c = if ltb (length c.buffer) capacity then record c { buffer = c.buffer ++ (b ∷ []) } else c

-- The loop over `subs`. A send on a closed channel panics: then there is no hub.
unfoldable pub publish_all : List ℕ → Hub → Option Hub
publish_all b [] = some []
publish_all b (c ∷ h) =
    let rest = publish_all b h in
    if c.subscribed
    then (if c.is_closed then none else elim rest [ none ↦ none | some r ↦ some (offer b c ∷ r) ])
    else elim rest [ none ↦ none | some r ↦ some (c ∷ r) ]

-- `publish`; the argument is what `json.Marshal` gives, `none` where it fails.
unfoldable pub publish : Option (List ℕ) → Hub → Option Hub
publish none h = some h
publish (some b) h = publish_all b h

-- `b := <-c` in `handleEvents`, where there is a message.
unfoldable pub receive : Chan → Option (List ℕ) × Chan
receive c = elim c.buffer [ [] ↦ (none, c) | b ∷ bs ↦ (some b, record c { buffer = bs }) ]

-- ===== src/Ui/Hub/Open.antt =====
-- internal/ui/hub.go: the publishers and the browsers' handlers as interleaved steps.
use quicshot.Prelude.{
  ℕ, zero, suc, ap, ltb, ◌⊎◌, ◌≤◌, ◌≡◌, refl, subst, true, false, ◌&&◌, List, [], ◌∷◌, Option, none,
  some, length, length-append, Bool-cases, inl, inr, arith,
}
use quicshot.Prelude.Members.{All, All-append}
use quicshot.Ui.Hub.{
  Chan, capacity, Hub, new_hub, new_chan, sub, at, close, unsub, run_step, unsub_chan, unsub_step,
  offer, publish_all, publish, receive,
}

-- A handler subscribes, and from its return on it goes through `unsub`, step by step. Anyone may publish
-- at any time, and a handler may receive.
pub data Step (h : Hub) : Hub → Type 0 where
  subscribe : Step h (sub h).1
  leaves : (i : ℕ) → Step h (unsub_step i h)
  publishes : (b : Option (List ℕ)) (g : Hub) → publish b h ≡ some g → Step h g
  receives : (i : ℕ) → Step h (at i (λ c. (receive c).1) h)

pub data Reach : Hub → Type 0 where
  here : Reach new_hub
  next : {h g : Hub} → Reach h → Step h g → Reach g

-- A channel in the map is open, and none is over its capacity.
abbrev pub IsOpen : Chan → Type 0
IsOpen c = ((c.subscribed && c.is_closed) ≡ false) × (length c.buffer ≤ capacity)

-- How far the handler of a channel is: it has not returned, it has taken the channel out, or it has
-- closed it, too.
abbrev IsAt : Chan → Type 0
IsAt c =
    ((c.to_do ≡ unsub) × (c.subscribed ≡ true) × (c.is_closed ≡ false))
    ⊎ ((c.to_do ≡ close ∷ []) × (c.subscribed ≡ false) × (c.is_closed ≡ false))
    ⊎ ((c.to_do ≡ []) × (c.subscribed ≡ false) × (c.is_closed ≡ true))

abbrev IsGood : Chan → Type 0
IsGood c = IsAt c × (length c.buffer ≤ capacity)

unsub_chan-IsGood : (c : Chan) → IsGood c → IsGood (unsub_chan c)
unfolding unsub_chan run_step
unsub_chan-IsGood c (inl (p, s, o), b) = rw p (inr (inl (refl, refl, o)), b)
unsub_chan-IsGood c (inr (inl (p, s, o)), b) = rw p (inr (inr (refl, s, refl)), b)
unsub_chan-IsGood c (inr (inr (p, s, o)), b) = rw p (inr (inr (refl, s, o)), b)

open_in_map : (c : Chan) → IsAt c → c.subscribed ≡ true → c.is_closed ≡ false
open_in_map c (inl (p, s, o)) t = o
open_in_map c (inr (inl (p, s, o))) t = o
open_in_map c (inr (inr (p, s, o))) t = cc

in_map : (c : Chan) → IsAt c → (c.subscribed && c.is_closed) ≡ false
in_map c (inl (p, s, o)) = ground (arith, s, o)
in_map c (inr (inl (p, s, o))) = ground (arith, s, o)
in_map c (inr (inr (p, s, o))) = ground (arith, s, o)

at-All :
    (i : ℕ) (fn : Chan → Chan) (h : Hub)
    → ((c : Chan) → IsGood c → IsGood (fn c))
    → All IsGood h
    → All IsGood (at i fn h)
unfolding at
at-All i fn [] f a = tt
at-All zero fn (c ∷ h) f a = (f c a.0, a.1)
at-All (suc i) fn (c ∷ h) f a = (a.0, at-All i fn h f a.1)

offer-IsGood : (b : List ℕ) (c : Chan) → IsGood c → IsGood (offer b c)
unfolding offer
offer-IsGood b c (p, o) = elim (Bool-cases (ltb (length c.buffer) capacity)) [
  | inl room ↦ rw room (p, ground (arith, room, length-append c.buffer (b ∷ [])))
  | inr full ↦ rw full (p, o)
]

receive-IsGood : (c : Chan) → IsGood c → IsGood (receive c).1
unfolding receive
receive-IsGood c (p, o) = received c.buffer refl
  where
    received :
        (bs : List (List ℕ))
        → c.buffer ≡ bs
        → IsGood
            (elim bs as (λ x. Option (List ℕ) × Chan) [
              | [] ↦ (none, c)
              | b ∷ rest ↦ (some b, record c { buffer = rest })
            ]).1
    received [] e = (p, o)
    received (b ∷ rest) e = (p, ground (arith, ap length e, o))

publish_all-IsGood :
    (b : List ℕ) (h : Hub) → All IsGood h → (g : Hub) × ((publish_all b h ≡ some g) × All IsGood g)
unfolding publish_all
publish_all-IsGood b [] a = ([], (refl, tt))
publish_all-IsGood b (c ∷ h) a =
    let (g, (e, o)) = publish_all-IsGood b h a.1 in
    elim (Bool-cases c.subscribed) [
      | inr s ↦ (c ∷ g, (ground (arith, s, e), (a.0, o)))
      | inl s ↦
          let unclosed : c.is_closed ≡ false = open_in_map c a.0.0 s in
          (offer b c ∷ g, (ground (arith, s, unclosed, e), (offer-IsGood b c a.0, o)))
    ]

same_hub : (b : List ℕ) (h g : Hub) → publish_all b h ≡ some g → All IsGood h → All IsGood g
same_hub b h g e a =
    let (k, (q, o)) = publish_all-IsGood b h a in
    let same : k ≡ g = ground (arith, q, e) in subst (All IsGood) same o

Step-IsGood : {h g : Hub} → Step h g → All IsGood h → All IsGood g
unfolding sub unsub_step publish
Step-IsGood {h} subscribe a =
    All-append IsGood h (new_chan ∷ []) a ((inl (refl, refl, refl), omega arith), tt)
Step-IsGood {h} (leaves i) a = at-All i unsub_chan h unsub_chan-IsGood a
Step-IsGood {h} (publishes none g e) a =
    let same : h ≡ g = ground (arith, e) in subst (All IsGood) same a
Step-IsGood {h} (publishes (some b) g e) a = same_hub b h g e a
Step-IsGood {h} (receives i) a = at-All i (λ c. (receive c).1) h receive-IsGood a

Reach-IsGood : {h : Hub} → Reach h → All IsGood h
Reach-IsGood here = tt
Reach-IsGood (next r s) = Step-IsGood s (Reach-IsGood r)

all-IsOpen : (h : Hub) → All IsGood h → All IsOpen h
all-IsOpen [] a = tt
all-IsOpen (c ∷ h) a = ((in_map c a.0.0, a.0.1), all-IsOpen h a.1)

-- In every interleaving of browsers that come, read and go, each through `unsub`, and of messages: no
-- channel is over its capacity, none that is in the map is closed, and a message can be published at any
-- time without a send on a closed channel.
pub reachable-publish :
    {h : Hub} (b : List ℕ) → Reach h → All IsOpen h × ((g : Hub) × (publish (some b) h ≡ some g))
unfolding publish
reachable-publish {h} b r =
    let a = Reach-IsGood r in let (g, (e, o)) = publish_all-IsGood b h a in (all-IsOpen h a, (g, e))

-- ===== src/Connector/Session.antt =====
-- internal/connector/connector.go and internal/edge/edge.go together: a connector's control messages as
-- the edge hears them.
use quicshot.Prelude.{
  ℕ, ◌+◌, ◌*◌, ◌<◌, ◌≡◌, ◌↔◌, ◌⊎◌, refl, ◌∙◌, Bool, true, false, not, List, [], ◌∷◌, ◌++◌, map,
  some, if◌then◌else◌, arith,
}
use quicshot.Prelude.Int.{pos, pos_part, ◌≤ℤ◌}
use quicshot.Edge.Registry.{Edge, ConnectorRef, Control, live, stale_after, serve_control}
use quicshot.Edge.Registry.Lifecycle.{find_ref, heard, last_word, last_sign, serve_control-Served}
use quicshot.Edge.Registry.Choice.{live_lem}
use quicshot.Tunnelproto.{Msg, control_of}
use quicshot.Connector.{RunConfig, register_msg, ping_msg, unregister_msg, control_msgs}

-- Messages with the times at which the edge handles them.
abbrev pub heard_at : List ℕ → List Msg → List (ℕ × Control)
heard_at [] ms = []
heard_at (t ∷ ts) [] = []
heard_at (t ∷ ts) (m ∷ ms) = (t, control_of m) ∷ heard_at ts ms

abbrev pub last_of : ℕ → List ℕ → ℕ
last_of t [] = t
last_of t (u ∷ us) = last_of u us

-- What follows the registration: pings at these times and perhaps the shutdown at the time `stop`.
abbrev following : List ℕ → ℕ → Bool → List (ℕ × Control)
following pings stop shut_down =
    heard_at (pings ++ (stop ∷ []))
      (map (λ t. ping_msg) pings ++ (if shut_down then unregister_msg ∷ [] else []))

following_word :
    (pings : List ℕ) (stop : ℕ) (shut_down : Bool)
    → last_word true (heard (following pings stop shut_down)) ≡ not shut_down
unfolding last_word heard control_of
following_word [] stop true = refl
following_word [] stop false = refl
following_word (t ∷ ts) stop b = following_word ts stop b

following_sign :
    (s : ℕ) (pings : List ℕ) (stop : ℕ) (shut_down : Bool)
    → last_sign (some s) (heard (following pings stop shut_down)) ≡ some (last_of s pings)
unfolding last_sign heard control_of
following_sign s [] stop true = refl
following_sign s [] stop false = refl
following_sign s (t ∷ ts) stop b = following_sign t ts stop b

live_after :
    (e : Edge) (d : ConnectorRef) (now t : ℕ) (b : Bool)
    → d.registered ≡ not b
    → d.last_ping ≡ some t
    → (live d now (stale_after e) ≡ true) ↔ (
        (b ≡ false)
        × ((e.tunnel_keep_alive ≤ℤ pos 0) ⊎ (now < t + 3 * pos_part e.tunnel_keep_alive)))
live_after e d now t b r p =
    (λ h. ground (arith, live_lem e d now), λ h. ground (arith, live_lem e d now))

-- A connector in the table that registers at the time `first`, pings at the times `pings` and perhaps
-- says at the time `stop` that it shuts down is live, for the edge, exactly if it has not said so
-- and, with keep-alives on, less than three of the edge's intervals have passed since its last sign.
pub session_live :
    (e : Edge) (id : ℕ) (c : ConnectorRef) (cfg : RunConfig) (first : ℕ) (pings : List ℕ) (stop : ℕ)
    (shut_down : Bool) (now : ℕ)
    → find_ref id e.connectors ≡ some c
    → (d : ConnectorRef) × (find_ref id
          (serve_control e id (
            heard_at
              (first ∷ (pings ++ (stop ∷ [])))
              (control_msgs cfg pings shut_down))).connectors
        ≡ some d)
      × ((live d now (stale_after e) ≡ true) ↔ (
          (shut_down ≡ false)
          × ((e.tunnel_keep_alive ≤ℤ pos 0)
              ⊎ (now < last_of first pings + 3 * pos_part e.tunnel_keep_alive))))
unfolding last_word last_sign heard control_of control_msgs register_msg
session_live e id c cfg first pings stop shut_down now h =
    let reads = heard_at (first ∷ (pings ++ (stop ∷ []))) (control_msgs cfg pings shut_down) in
    let s = serve_control-Served e id reads c h in
    let word : s.now_is.registered ≡ not shut_down = s.word ∙ following_word pings stop shut_down in
    let sign : s.now_is.last_ping ≡ some (last_of first pings) =
      s.sign ∙ following_sign first pings stop shut_down in
    (s.now_is, s.found, live_after e s.now_is now (last_of first pings) shut_down word sign)

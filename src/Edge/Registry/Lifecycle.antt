-- ===== src/Edge/Registry/Lifecycle.antt =====
-- internal/edge/edge.go, `serveControl`: a control stream and the entries of the table.
use quicshot.Prelude.{
  ℕ, ◌≡◌, ◌≢◌, refl, ap, ◌∙◌, Bool, true, false, List, [], ◌∷◌, Option, none, some, ◌==◌,
  if◌then◌else◌, arith,
}
use quicshot.Edge.Registry.{
  Edge, ConnectorRef, Control, read_failed, register, ping, unregister, other, update_ref,
  update_connector, apply_control, serve_control_step, serve_control,
}

-- The entry with this id.
unfoldable pub find_ref : ℕ → List ConnectorRef → Option ConnectorRef
find_ref id [] = none
find_ref id (c ∷ cs) = if c.id == id then some c else find_ref id cs

-- What a message says of the registration, and whether it is a sign of life.
abbrev pub says : Control → Option Bool
says read_failed = some false
says (register h a) = some true
says ping = none
says unregister = some false
says other = none

abbrev pub sign_of_life : Control → Bool
sign_of_life (register h a) = true
sign_of_life ping = true
sign_of_life _ = false

abbrev pub ends : Control → Bool
ends read_failed = true
ends _ = false

-- The messages up to the first failed read, it included.
unfoldable pub heard : List (ℕ × Control) → List (ℕ × Control)
heard [] = []
heard ((t, m) ∷ reads) = if ends m then (t, m) ∷ [] else (t, m) ∷ heard reads

abbrev or_else {ℓ} : {A : Type ℓ} → Option A → A → A
or_else none d = d
or_else (some a) d = a

-- The last word on the registration.
unfoldable pub last_word : Bool → List (ℕ × Control) → Bool
last_word b [] = b
last_word b ((t, m) ∷ reads) = last_word (or_else (says m) b) reads

-- The time of the last sign of life.
unfoldable pub last_sign : Option ℕ → List (ℕ × Control) → Option ℕ
last_sign o [] = o
last_sign o ((t, m) ∷ reads) = last_sign (if sign_of_life m then some t else o) reads

pub apply_control-id :
    (m : Control) (now : ℕ) (c : ConnectorRef) → (apply_control m now c).id ≡ c.id
unfolding apply_control
apply_control-id read_failed now c = refl
apply_control-id _ now c = refl

find_ref-update_self :
    (id now : ℕ) (m : Control) (cs : List ConnectorRef) (c : ConnectorRef)
    → find_ref id cs ≡ some c
    → find_ref id (update_ref id (apply_control m now) cs) ≡ some (apply_control m now c)
unfolding find_ref update_ref
find_ref-update_self id now m [] c e = cc
find_ref-update_self id now m (x ∷ cs) c e =
    ground (arith, find_ref-update_self id now m cs c, apply_control-id m now x)

find_ref-update_ne :
    (id j now : ℕ) (m : Control) (cs : List ConnectorRef)
    → j ≢ id
    → find_ref j (update_ref id (apply_control m now) cs) ≡ find_ref j cs
unfolding find_ref update_ref
find_ref-update_ne id j now m [] h = refl
find_ref-update_ne id j now m (x ∷ cs) h =
    ground (arith, find_ref-update_ne id j now m cs h, apply_control-id m now x)

step_self :
    (e : Edge) (id now : ℕ) (m : Control) (c : ConnectorRef)
    → find_ref id e.connectors ≡ some c
    → find_ref id (serve_control_step e id now m).connectors ≡ some (apply_control m now c)
unfolding serve_control_step update_connector
step_self e id now other c h = unfold apply_control in h
step_self e id now m c h = find_ref-update_self id now m e.connectors c h

step_ne :
    (e : Edge) (id j now : ℕ) (m : Control)
    → j ≢ id
    → find_ref j (serve_control_step e id now m).connectors ≡ find_ref j e.connectors
unfolding serve_control_step update_connector
step_ne e id j now other h = refl
step_ne e id j now m h = find_ref-update_ne id j now m e.connectors h

-- `o` is the entry `c` after `reads`.
pub record Served (c : ConnectorRef) (reads : List (ℕ × Control)) (o : Option ConnectorRef)
    : Type 0 where
  pub now_is : ConnectorRef
  pub found : o ≡ some now_is
  pub word : now_is.registered ≡ last_word c.registered (heard reads)
  pub sign : now_is.last_ping ≡ last_sign c.last_ping (heard reads)
  pub same_conn : now_is.conn ≡ c.conn

-- A message in front that brings `c` to `d` and does not end the stream.
more :
    (c d : ConnectorRef) (t : ℕ) (m : Control) (reads : List (ℕ × Control))
    (o : Option ConnectorRef)
    → ends m ≡ false
    → d.registered ≡ or_else (says m) c.registered
    → d.last_ping ≡ (if sign_of_life m then some t else c.last_ping)
    → d.conn ≡ c.conn
    → Served d reads o
    → Served c ((t, m) ∷ reads) o
unfolding heard last_word last_sign
more c d t m reads o go r p n s = record {
  now_is = s.now_is;
  found = s.found;
  word = rw (go, last_word) (s.word ∙ ap (λ b. last_word b (heard reads)) r);
  sign = rw (go, last_sign) (s.sign ∙ ap (λ q. last_sign q (heard reads)) p);
  same_conn = s.same_conn ∙ n;
}

-- What a connector's entry is after its control stream has yielded `reads`: registered if the last
-- message that spoke of the registration was `register`, with the time of the last `register` or
-- `ping`, and on the same connection. Nothing behind a failed read counts.
pub serve_control-Served :
    (e : Edge) (id : ℕ) (reads : List (ℕ × Control)) (c : ConnectorRef)
    → find_ref id e.connectors ≡ some c
    → Served c reads (find_ref id (serve_control e id reads).connectors)
unfolding serve_control apply_control heard last_word last_sign
serve_control-Served e id [] c h = record {
  now_is = c;
  found = h;
  word = refl;
  sign = refl;
  same_conn = refl;
}
serve_control-Served e id ((t, read_failed) ∷ reads) c h = record {
  now_is = apply_control read_failed t c;
  found = step_self e id t read_failed c h;
  word = refl;
  sign = refl;
  same_conn = refl;
}
serve_control-Served e id ((t, register a b) ∷ reads) c h =
    more c (apply_control (register a b) t c) t (register a b) reads _ refl refl refl refl (
      serve_control-Served (serve_control_step e id t (register a b)) id reads
        (apply_control (register a b) t c) (step_self e id t (register a b) c h))
serve_control-Served e id ((t, ping) ∷ reads) c h =
    more c (apply_control ping t c) t ping reads _ refl refl refl refl (
      serve_control-Served (serve_control_step e id t ping) id reads (apply_control ping t c)
        (step_self e id t ping c h))
serve_control-Served e id ((t, unregister) ∷ reads) c h =
    more c (apply_control unregister t c) t unregister reads _ refl refl refl refl (
      serve_control-Served (serve_control_step e id t unregister) id reads
        (apply_control unregister t c) (step_self e id t unregister c h))
serve_control-Served e id ((t, other) ∷ reads) c h =
    more c (apply_control other t c) t other reads _ refl refl refl refl (
      serve_control-Served (serve_control_step e id t other) id reads (apply_control other t c)
        (step_self e id t other c h))

-- A control stream changes no entry but its own connector's.
pub serve_control-ne :
    (e : Edge) (id j : ℕ) (reads : List (ℕ × Control))
    → j ≢ id
    → find_ref j (serve_control e id reads).connectors ≡ find_ref j e.connectors
unfolding serve_control
serve_control-ne e id j [] h = refl
serve_control-ne e id j ((t, read_failed) ∷ reads) h = step_ne e id j t read_failed h
serve_control-ne e id j ((t, register a b) ∷ reads) h =
    serve_control-ne (serve_control_step e id t (register a b)) id j reads h
    ∙ step_ne e id j t (register a b) h
serve_control-ne e id j ((t, ping) ∷ reads) h =
    serve_control-ne (serve_control_step e id t ping) id j reads h ∙ step_ne e id j t ping h
serve_control-ne e id j ((t, unregister) ∷ reads) h =
    serve_control-ne (serve_control_step e id t unregister) id j reads h
    ∙ step_ne e id j t unregister h
serve_control-ne e id j ((t, other) ∷ reads) h =
    serve_control-ne (serve_control_step e id t other) id j reads h ∙ step_ne e id j t other h

-- ===== src/Quicerr.antt =====
-- internal/quicerr/quicerr.go. A Go error is its text and the chain that `errors.As` and `errors.Is`
-- walk, outermost first. The types of quic-go and http3 are named by what the code reads of them.
pub mod Ranking
mod Tests
use quicshot.Prelude.{
  or_try, ℕ, Bool, true, false, ◌||◌, List, [], ◌∷◌, Option, none, some, if◌then◌else◌,
}
use quicshot.Prelude.Bytes.{codes, contains}
use quicshot.Prelude.Int.{ℤ}

pub data Kind : Type 0 where
  kind_none idle_timeout handshake stateless_reset version_negot transport_error application_err
        stream_reset http3 deadline canceled network_timeout conn_refused buffer_pressure unknown :
      Kind

-- What a link of the chain is. Texts are lists of bytes, codes are numbers.
pub data Link : Type 0 where
  h3_link : List ℕ → Bool → List ℕ → Link
  app_link : ℕ → Bool → List ℕ → Link
  transport_link : List ℕ → Bool → List ℕ → Link
  stream_link : ℤ → ℕ → Bool → Link
  idle_link : Link
  handshake_link : Link
  deadline_link : Link
  canceled_link : Link
  net_link : Bool → Link  -- a `net.Error`, with what its `Timeout` returns
  plain_link : Link

pub record Err : Type 0 where
  pub text : List ℕ
  pub chain : List Link

-- The second result: the format that the source prints, with its arguments.
pub data Detail : Type 0 where
  no_detail : Detail
  h3_detail : List ℕ → Bool → List ℕ → Detail
  app_detail : ℕ → Bool → List ℕ → Detail
  transport_detail : List ℕ → Bool → List ℕ → Detail
  stream_detail : ℤ → ℕ → Bool → Detail
  no_activity : Detail
  no_handshake : Detail
  closed_locally : Detail
  message : List ℕ → Detail

-- `errors.As`: the first link at which the target's type is met.
unfoldable pub first_of_type {ℓ} : {A : Type ℓ} → (Link → Option A) → List Link → Option A
first_of_type f [] = none
first_of_type f (l ∷ ls) = elim (f l) [ some a ↦ some a | none ↦ first_of_type f ls ]

abbrev pub Verdict : Type 0
Verdict = Kind × Detail

abbrev pub as_h3 : Link → Option Verdict
as_h3 (h3_link code remote msg) = some (http3, h3_detail code remote msg)
as_h3 _ = none

abbrev pub as_app : Link → Option Verdict
as_app (app_link code remote msg) = some (application_err, app_detail code remote msg)
as_app _ = none

abbrev pub as_transport : Link → Option Verdict
as_transport (transport_link code remote msg) =
    some (transport_error, transport_detail code remote msg)
as_transport _ = none

abbrev pub as_stream : Link → Option Verdict
as_stream (stream_link id code remote) = some (stream_reset, stream_detail id code remote)
as_stream _ = none

abbrev pub as_idle : Link → Option Verdict
as_idle idle_link = some (idle_timeout, no_activity)
as_idle _ = none

abbrev pub as_handshake : Link → Option Verdict
as_handshake handshake_link = some (handshake, no_handshake)
as_handshake _ = none

abbrev pub as_net : Link → Option Bool
as_net (net_link timeout) = some timeout
as_net _ = none

unfoldable pub classify_quic : List Link → Option Verdict
classify_quic ls = or_try (first_of_type as_h3 ls) (
    or_try (first_of_type as_app ls) (
      or_try (first_of_type as_transport ls) (
        or_try (first_of_type as_stream ls)
          (or_try (first_of_type as_idle ls) (first_of_type as_handshake ls)))))

-- `errors.Is` with the two sentinels of package context.
abbrev pub deadline_here : Link → Bool
deadline_here deadline_link = true
deadline_here _ = false

abbrev pub canceled_here : Link → Bool
canceled_here canceled_link = true
canceled_here _ = false

unfoldable pub any_link : (Link → Bool) → List Link → Bool
any_link p [] = false
any_link p (l ∷ ls) = p l || any_link p ls

abbrev pub times_out : Option Bool → Bool
times_out none = false
times_out (some b) = b

unfoldable pub classify_text : List ℕ → Option Kind
classify_text msg =
    if contains msg (codes "stateless reset")
    then some stateless_reset
    else if contains msg (codes "no compatible QUIC version")
    then some version_negot
    else if contains msg (codes "connection refused")
    then some conn_refused
    else if contains msg (codes "no buffer space") || contains msg (codes "buffer size")
    then some buffer_pressure
    else none

abbrev pub text_or_net : Option Kind → Bool → Kind
text_or_net (some k) timeout = k
text_or_net none true = network_timeout
text_or_net none false = unknown

unfoldable pub classify_fallback : Err → Verdict
classify_fallback e =
    if any_link deadline_here e.chain
    then (deadline, message e.text)
    else if any_link canceled_here e.chain
    then (canceled, message e.text)
    else (
      text_or_net (classify_text e.text) (times_out (first_of_type as_net e.chain)),
      message e.text,
    )

abbrev pub verdict_or : Option Verdict → Verdict → Verdict
verdict_or (some v) w = v
verdict_or none w = w

-- `none` is the nil error.
unfoldable pub classify : Option Err → Verdict
classify none = (kind_none, no_detail)
classify (some e) = verdict_or (classify_quic e.chain) (classify_fallback e)

-- `CloseReason`, on `context.Cause(ctx)`.
unfoldable pub close_reason : Option Err → Verdict
close_reason none = (kind_none, closed_locally)
close_reason (some e) =
    if any_link canceled_here e.chain then (kind_none, closed_locally) else classify (some e)

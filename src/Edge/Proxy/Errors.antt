-- ===== src/Edge/Proxy/Errors.antt =====
-- internal/edge/edge.go, `ServeHTTP`: which failure the client sees as which Cloudflare error.
use quicshot.Prelude.{
  ℕ, ◌<◌, ◌≡◌, refl, ◌↔◌, ◌⊎◌, inl, inr, dec_lt, Bool, true, false, ◌||◌, List, [], ◌∷◌, Option,
  none, some, Option-cases, Bool-cases, length, arith, ◌==◌, ◌&&◌,
}
use quicshot.Prelude.Members.{Member}
use quicshot.Quicerr.{Link, deadline_link, Err, any_link, deadline_here, first_of_type, times_out}
use quicshot.Edge.Balance.{u32_mod}
use quicshot.Edge.Registry.{Edge, ConnectorRef, registered_locked, pick_connector}
use quicshot.Edge.Registry.Choice.{pick_connector-some, pick_connector_idle}
use quicshot.Edge.Proxy.{
  Exchange, read_err, Reply, silent, cf_error, proxied, no_connector, is_timeout, link_timeout,
  classify_origin_failure, forward, no_tunnel, serve_http,
}

-- The request was sent in full on an open stream, and its response could not be read while the client
-- was still there.
abbrev pub OriginFailed : Exchange → Err → Type 0
OriginFailed x err =
    (x.open_err ≡ none) × (x.write_err ≡ none) × (x.read ≡ read_err err) × (x.gone_at_read ≡ false)

-- The first of the causes that has a `Timeout` method says true.
abbrev pub SaysTimeout : (Link → Option Bool) → List Link → Type 0
SaysTimeout quic_timeout [] = ⊥
SaysTimeout quic_timeout (l ∷ ls) =
    (link_timeout quic_timeout l ≡ some true)
    ⊎ ((link_timeout quic_timeout l ≡ none) × SaysTimeout quic_timeout ls)

abbrev pub LooksLikeTimeout : (Link → Option Bool) → Exchange → Err → Type 0
LooksLikeTimeout quic_timeout x err =
    (x.deadline_passed ≡ true) ⊎ Member deadline_link err.chain ⊎ SaysTimeout quic_timeout err.chain

first-SaysTimeout :
    (quic_timeout : Link → Option Bool) (ls : List Link)
    → (times_out (first_of_type (link_timeout quic_timeout) ls) ≡ true)
      ↔ SaysTimeout quic_timeout ls
unfolding first_of_type
first-SaysTimeout quic_timeout [] = (λ h. cc, λ h. elim h [ ])
first-SaysTimeout quic_timeout (l ∷ ls) =
    let (to, back) = first-SaysTimeout quic_timeout ls in
    elim (Option-cases (link_timeout quic_timeout l)) [
      | inl e ↦ (
        λ h. inr (e, to (ground arith)),
        λ h. elim h [ inl y ↦ cc | inr (n, later) ↦ rw (e, times_out) (back later) ],
      )
      | inr (b, e) ↦
          (λ h. inl (ground arith), λ h. elim h [ inl y ↦ ground arith | inr (n, later) ↦ cc ])
    ]

deadline_here_iff : (l : Link) → (deadline_here l ≡ true) ↔ (l ≡ deadline_link)
deadline_here_iff l = (λ h. ground arith, λ h. ground arith)

any_link-Member : (ls : List Link) → (any_link deadline_here ls ≡ true) ↔ Member deadline_link ls
unfolding any_link
any_link-Member [] = (λ h. cc, λ h. elim h [ ])
any_link-Member (l ∷ ls) =
    let (to, back) = any_link-Member ls in
    let (here, is_here) = deadline_here_iff l in
    elim (Bool-cases (deadline_here l)) [
      | inl y ↦ (λ h. inl (here y), λ h. rw y refl)
      | inr n ↦ (
        λ h. inr (to (ground arith)),
        λ h. elim h [ inl q ↦ ground (arith, is_here q) | inr m ↦ rw n (back m) ],
      )
    ]

looks_lem :
    (quic_timeout : Link → Option Bool) (x : Exchange) (err : Err)
    → ((x.deadline_passed || (any_link deadline_here err.chain || is_timeout quic_timeout err))
        ≡ true)
      ↔ LooksLikeTimeout quic_timeout x err
unfolding is_timeout
looks_lem quic_timeout x err =
    let (to, back) = any_link-Member err.chain in
    let (says, said) = first-SaysTimeout quic_timeout err.chain in
    (
      λ h. elim (Bool-cases x.deadline_passed) [
        | inl p ↦ inl p
        | inr p ↦ elim (Bool-cases (any_link deadline_here err.chain)) [
          | inl m ↦ inr (inl (to m))
          | inr m ↦ inr (inr (says (ground arith)))
        ]
      ],
      λ h. elim h [
        | inl p ↦ ground arith
        | inr (inl m) ↦ ground (arith, back m)
        | inr (inr t) ↦ ground (arith, said t)
      ],
    )

-- Whether a reply is the edge's own error with this status and code.
abbrev pub is_cf_error : ℕ → ℕ → Reply → Bool
is_cf_error status code silent = false
is_cf_error status code (cf_error s c l) = s == status && c == code
is_cf_error status code (proxied r n w) = false

-- The test of the code, as a Boolean.
abbrev looks : (Link → Option Bool) → Exchange → Err → Bool
looks quic_timeout x err =
    x.deadline_passed || (any_link deadline_here err.chain || is_timeout quic_timeout err)

forward_524_test :
    (quic_timeout : Link → Option Bool) (x : Exchange)
    → (is_cf_error 524 524 (forward quic_timeout x).0 ≡ true)
      ↔ ((err : Err) × OriginFailed x err × (looks quic_timeout x err ≡ true))
unfolding forward classify_origin_failure
forward_524_test quic_timeout x = (λ h. ground arith, λ h. ground arith)

-- The edge answers 524 by itself exactly when the request went out whole, the response could not be
-- read, the client had not gone, and the failure was a timeout: the origin deadline had passed,
-- `context.DeadlineExceeded` is among the causes of the error, or the first of its causes that has a
-- `Timeout` method says true.
pub forward_524 :
    (quic_timeout : Link → Option Bool) (x : Exchange)
    → (is_cf_error 524 524 (forward quic_timeout x).0 ≡ true)
      ↔ ((err : Err) × OriginFailed x err × LooksLikeTimeout quic_timeout x err)
forward_524 quic_timeout x =
    let (to, back) = forward_524_test quic_timeout x in
    (
      λ h. let (err, failed, t) = to h in (err, failed, (looks_lem quic_timeout x err).0 t),
      λ (err, failed, t). back (err, failed, (looks_lem quic_timeout x err).1 t),
    )

-- The request reached no origin: no stream could be opened while the client was there, or the
-- request could not be written.
abbrev pub TunnelFailed : Exchange → Type 0
TunnelFailed x =
    ((err : Err) × (x.open_err ≡ some err) × (x.gone_at_open ≡ false))
    ⊎ ((err : Err) × (x.open_err ≡ none) × (x.write_err ≡ some err))

forward_1014_test :
    (quic_timeout : Link → Option Bool) (x : Exchange)
    → (is_cf_error 502 1014 (forward quic_timeout x).0 ≡ true)
      ↔ ((err : Err) × OriginFailed x err × (looks quic_timeout x err ≡ false))
unfolding forward classify_origin_failure
forward_1014_test quic_timeout x = (λ h. ground arith, λ h. ground arith)

-- A request that found a connector is answered 502 with code 1033 exactly when the tunnel failed it,
-- and 502 with code 1014 exactly when its response could not be read for another reason than a timeout.
forward_502 :
    (quic_timeout : Link → Option Bool) (x : Exchange)
    → ((is_cf_error 502 1033 (forward quic_timeout x).0 ≡ true) ↔ TunnelFailed x)
      × ((is_cf_error 502 1014 (forward quic_timeout x).0 ≡ true)
          ↔ ((err : Err) × OriginFailed x err × ¬ LooksLikeTimeout quic_timeout x err))
unfolding forward classify_origin_failure
forward_502 quic_timeout x =
    let (to, back) = forward_1014_test quic_timeout x in
    (
      (λ h. ground arith, λ h. ground arith),
      (
        λ h.
            let (err, failed, n) = to h in
            (err, failed, λ t. ground (arith, (looks_lem quic_timeout x err).1 t)),
        λ (err, failed, n). back (
          err,
          failed,
          elim (Bool-cases (looks quic_timeout x err)) [
            | inl y ↦ elim (n ((looks_lem quic_timeout x err).0 y)) [ ]
            | inr f ↦ f
          ],
        ),
      ),
    )

-- The client gets nothing from the handler exactly when it had gone at the point where the stream
-- could not be opened or the response could not be read.
pub forward_silent :
    (quic_timeout : Link → Option Bool) (x : Exchange)
    → ((forward quic_timeout x).0 ≡ silent) ↔ (
        ((err : Err) × (x.open_err ≡ some err) × (x.gone_at_open ≡ true))
        ⊎ ((err : Err) × (x.open_err ≡ none)
            × (x.write_err ≡ none)
            × (x.read ≡ read_err err)
            × (x.gone_at_read ≡ true)))
unfolding forward classify_origin_failure
forward_silent quic_timeout x = (λ h. ground arith, λ h. ground arith)

-- With fewer than 2^32 connectors: a request that arrives while no connector is live is answered 502
-- with code 1033 and logged as such, and the edge stays as it was. Any other request is forwarded to
-- a connector, and its reply and log line are those of the exchange with it.
pub serve_http_total :
    (quic_timeout : Link → Option Bool) (e : Edge) (path : List ℕ) (now : ℕ) (x : Exchange)
    → length e.connectors < u32_mod
    → ((registered_locked e now ≡ 0)
        × (serve_http quic_timeout e path now x ≡ (e, none, no_tunnel, no_connector)))
      ⊎ ((0 < registered_locked e now)
          × ((c : ConnectorRef) × ((pick_connector e path now).0 ≡ some c)
              × (serve_http quic_timeout e path now x ≡ (
                (pick_connector e path now).1,
                some c,
                (forward quic_timeout x).0,
                (forward quic_timeout x).1,
              ))))
unfolding serve_http
serve_http_total quic_timeout e path now x small = elim (dec_lt 0 (registered_locked e now)) [
  | yes up ↦
      let (c, at, _, _, _, _) = pick_connector-some e path now small up in
      inr (up, (c, at, rw (at, serve_http)))
  | no down ↦
      let z : registered_locked e now ≡ 0 = omega arith in
      inl (z, ground (arith, pick_connector_idle e path now z))
]

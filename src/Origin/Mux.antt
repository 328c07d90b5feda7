-- ===== src/Origin/Mux.antt =====
-- internal/origin: the handlers without parameters, and the table of `newMux`.
pub mod Volume
pub mod Panics
use quicshot.Prelude.{ℕ, Bool, true, false, String, List, [], ◌∷◌, Option, none, some}
use quicshot.Prelude.Bytes.{codes}
use quicshot.Prelude.Int.{ℤ}
use quicshot.Prelude.Maps.{lookup, string_key}
use quicshot.Origin.{
  Hijack, no_hijacker, hijack_error, hijacked, Request, Act, set_header, write_body, error_reply,
  cut_short, take_over, raw_bytes, linger_zero, close_conn,
}
use quicshot.Origin.Handlers.{
  handle_slow, handle_drip, handle_bytes, handle_status, handle_flaky, handle_echo, handle_headers,
  handle_stall, handle_headers_then_hang,
}

abbrev pub handle_healthz : List Act
handle_healthz = write_body (codes "ok\n") ∷ []

abbrev pub handle_fast : List Act
handle_fast = set_header (codes "x-origin") (codes "fast") ∷ write_body (codes "fast\n") ∷ []

-- Nothing until the client is gone.
abbrev pub handle_hang : List Act
handle_hang = cut_short ∷ []

-- What the handlers that take the connection over do with it.
abbrev pub with_conn : Hijack → List Act → List Act
with_conn no_hijacker acts = error_reply 500 (codes "hijack unsupported") ∷ []
with_conn hijack_error acts = []
with_conn hijacked acts = take_over ∷ acts

-- The connection is one of TCP.
unfoldable pub handle_reset : Request → List Act
handle_reset r = with_conn r.hijack (linger_zero ∷ close_conn ∷ [])

unfoldable pub handle_accept_hang : Request → List Act
handle_accept_hang r = with_conn r.hijack (cut_short ∷ close_conn ∷ [])

unfoldable pub handle_close_after_headers : Request → List Act
handle_close_after_headers r =
    with_conn r.hijack
      (raw_bytes (codes "HTTP/1.1 200 OK\r\nContent-Length: 5\r\n\r\n") ∷ close_conn ∷ [])

-- What the standard library is asked for: the text of a duration and of a body's error.
pub record Texts : Type 0 where
  pub duration : ℤ → List ℕ
  pub body_error : List ℕ

unfoldable pub new_mux : Texts → List (String × (Request → List Act))
new_mux t =
    ("/healthz", (λ r. handle_healthz))
    ∷ ("/fast", (λ r. handle_fast))
    ∷ ("/slow", handle_slow t.duration)
    ∷ ("/hang", (λ r. handle_hang))
    ∷ ("/drip", handle_drip)
    ∷ ("/bytes", (λ r. (handle_bytes r).0))
    ∷ ("/reset", handle_reset)
    ∷ ("/status", handle_status)
    ∷ ("/flaky", handle_flaky)
    ∷ ("/echo", handle_echo t.body_error)
    ∷ ("/headers", handle_headers)
    ∷ ("/stall", handle_stall)
    ∷ ("/headers-then-hang", handle_headers_then_hang)
    ∷ ("/accept-hang", handle_accept_hang)
    ∷ ("/close-after-headers", handle_close_after_headers)
    ∷ []

-- A path that no handler has: `http.NotFound`.
abbrev pub run_or_404 : Option (Request → List Act) → Request → List Act
run_or_404 none r = error_reply 404 (codes "404 page not found") ∷ []
run_or_404 (some h) r = h r

unfoldable pub serve : Texts → Request → List Act
serve t r = run_or_404 (lookup r.path (new_mux t)) r

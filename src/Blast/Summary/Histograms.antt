-- ===== src/Blast/Summary/Histograms.antt =====
-- internal/blast/blast.go: the histograms of the report. The order in which Go ranges over the keys of a
-- map is an argument.
use quicshot.Prelude.{
  ℕ, ◌-◌, Bool, true, false, String, List, [], ◌∷◌, ◌++◌, leb, ◌==◌, length, map, replicate,
  if◌then◌else◌,
}
use quicshot.Prelude.Bytes.{codes, bytes_eq, bytes_key}
use quicshot.Prelude.Maps.{count_at, nat_key, string_key}
use quicshot.Quicerr.{
  Kind, kind_none, idle_timeout, handshake, stateless_reset, version_negot, transport_error,
  application_err, stream_reset, http3, deadline, canceled, network_timeout, conn_refused,
  buffer_pressure, unknown,
}
use quicshot.Blast.CfCode.{decimal}
use quicshot.Blast.Recorder.Keys.{
  KindKey, no_kind, of_kind, http_status, conn_closed_kind, kind_key,
}

-- `sort.Ints`, `sort.Strings` and `sort.Slice` by a test that says whether two stand in order.
unfoldable pub place : {A : Type 0} → (A → A → Bool) → A → List A → List A
place le a [] = a ∷ []
place le a (b ∷ bs) = let rest = place le a bs in if le a b then a ∷ b ∷ bs else b ∷ rest

unfoldable pub sort : {A : Type 0} → (A → A → Bool) → List A → List A
sort le [] = []
sort le (a ∷ l) = place le a (sort le l)

-- The order of Go's strings, byte by byte.
unfoldable pub bytes_le : List ℕ → List ℕ → Bool
bytes_le [] t = true
bytes_le (a ∷ s) [] = false
bytes_le (a ∷ s) (b ∷ t) = let rest = bytes_le s t in if a == b then rest else leb a b

-- `%-6d` and the like.
unfoldable pub pad_right : ℕ → List ℕ → List ℕ
pad_right width s = s ++ replicate (width - length s) b' '

-- "  %-6d %d\n" and "  %-34s %d\n", without the end of the line.
unfoldable pub count_line : ℕ → List ℕ → ℕ → List ℕ
count_line width key n = codes "  " ++ (pad_right width key ++ (b' ' ∷ decimal n))

-- An empty line, the title, and a line for each key; nothing for a map without keys.
abbrev pub titled {ℓ} : {A : Type ℓ} → List A → String → List (List ℕ) → List (List ℕ)
titled [] title lines = []
titled (e ∷ values) title lines = [] ∷ codes title ∷ lines

unfoldable pub write_int_histogram : String → List ℕ → List (ℕ × ℕ) → List (List ℕ)
write_int_histogram title keys values =
    titled values title (map (λ k. count_line 6 (decimal k) (count_at k values)) (sort leb keys))

unfoldable pub kind_text : Kind → String
kind_text kind_none = "none"
kind_text idle_timeout = "quic_idle_timeout"
kind_text handshake = "quic_handshake_failure"
kind_text stateless_reset = "quic_stateless_reset"
kind_text version_negot = "quic_version_negotiation"
kind_text transport_error = "quic_transport_error"
kind_text application_err = "quic_application_error"
kind_text stream_reset = "quic_stream_reset"
kind_text http3 = "http3_error"
kind_text deadline = "client_deadline"
kind_text canceled = "client_canceled"
kind_text network_timeout = "network_timeout"
kind_text conn_refused = "connection_refused"
kind_text buffer_pressure = "udp_buffer_pressure"
kind_text unknown = "unknown"

unfoldable pub key_text : KindKey → List ℕ
key_text no_kind = []
key_text (of_kind k) = codes (kind_text k)
key_text (http_status n) = codes "http_" ++ decimal n
key_text (conn_closed_kind k) = codes "conn_closed:" ++ codes (kind_text k)

-- The map from texts that the source keeps.
abbrev pub by_text : {K : Type 0} → (K → List ℕ) → List (K × ℕ) → List (List ℕ × ℕ)
by_text text [] = []
by_text text ((k, n) ∷ m) = (text k, n) ∷ by_text text m

unfoldable pub write_string_histogram : String → List (List ℕ) → List (List ℕ × ℕ) → List (List ℕ)
write_string_histogram title keys values =
    titled values title (map (λ k. count_line 34 k (count_at k values)) (sort bytes_le keys))

unfoldable pub proto_line : List ℕ → ℕ → List ℕ
proto_line k n =
    count_line 10 k n ++ (if bytes_eq k (codes "HTTP/3.0") then [] else codes "  <-- NOT HTTP/3")

unfoldable pub write_proto_summary : List (List ℕ) → List (List ℕ × ℕ) → List (List ℕ)
write_proto_summary keys protos =
    titled protos "negotiated protocol"
      (map (λ k. proto_line k (count_at k protos)) (sort bytes_le keys))

unfoldable pub cf_meaning : ℕ → String
cf_meaning code =
    if code == 520
    then "origin returned an unknown/empty response"
    else if code == 521
    then "origin refused the connection (is it up? firewalled?)"
    else if code == 522
    then "connection to origin timed out"
    else if code == 523
    then "origin unreachable (DNS / routing)"
    else if code == 524
    then "origin connected but did not respond in time"
    else if code == 525
    then "TLS handshake with origin failed"
    else if code == 526
    then "TLS handshake with origin failed"
    else if code == 1033
    then "tunnel not found / no connector registered"
    else if code == 1014
    then "CNAME cross-user banned"
    else ""

unfoldable pub cf_line : ℕ → ℕ → List ℕ
cf_line c n = count_line 6 (decimal c) n ++ (codes "  " ++ codes (cf_meaning c))

unfoldable pub write_cf_code_summary : List ℕ → List (ℕ × ℕ) → List (List ℕ)
write_cf_code_summary keys cf_codes =
    titled cf_codes "cloudflare error codes"
      (map (λ c. cf_line c (count_at c cf_codes)) (sort leb keys))

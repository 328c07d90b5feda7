-- ===== src/Origin/Tests.antt =====
-- internal/origin at concrete requests.
use quicshot.Prelude.{
  ℕ, ◌≡◌, refl, true, false, String, List, [], some, str_eq, if◌then◌else◌, arith,
}
use quicshot.Prelude.Bytes.{codes}
use quicshot.Prelude.Members.{Member}
use quicshot.Prelude.Int.{pos, negsuc}
use quicshot.Blast.CfCode.{itoa, decimal, digits_from, digits_value}
use quicshot.Origin.{Request, hijacked, set_header, int_param, atoi, digits_number}
use quicshot.Origin.Handlers.{handle_bytes}
use quicshot.Origin.Mux.{Texts, serve}
use quicshot.Origin.Mux.Volume.{IsSent, handle_bytes_lem}
use quicshot.Origin.Mux.Panics.Handlers.{panics}
use quicshot.Origin.Mux.Panics.{is_fatal, serve-panics}

abbrev asked : String → String → List ℕ
asked path name =
    if str_eq name "n"
    then codes "70000"
    else if str_eq name "chunks"
    then codes "3"
    else if str_eq name "size"
    then codes "20"
    else codes "x"

-- A client that stays, and a writer that takes everything.
abbrev request : String → (String → List ℕ) → Request
request path query = record {
  query = query;
  path = path;
  content_type = [];
  body = [];
  has_body = false;
  reads = 0;
  body_fails = false;
  hijack = hijacked;
  is_flusher = true;
  write = λ i n. some n;
  client_gone = λ i. false;
  draw = 50;
  make_limit = 281474976710656;
}

abbrev ask : Request
ask = request "/bytes" (asked "/bytes")

asked_n : int_param ask "n" (pos 1048576) ≡ pos 70000
unfolding int_param atoi digits_number digits_value
asked_n = refl

asked_chunks : int_param ask "chunks" (pos 10) ≡ pos 3
unfolding int_param atoi digits_number digits_value
asked_chunks = refl

asked_size : int_param ask "size" (pos 1024) ≡ pos 20
unfolding int_param atoi digits_number digits_value
asked_size = refl

handle_bytes_lem_example :
    IsSent 70000 (handle_bytes ask)
    × Member (set_header (codes "content-length") (decimal 70000)) (handle_bytes ask).0
handle_bytes_lem_example = handle_bytes_lem ask 70000 (λ i n m e. ground arith) asked_n

abbrev texts : Texts
texts = record { duration = λ d. codes "5s"; body_error = codes "unexpected EOF" }

abbrev too_long : Request
too_long = request "/drip" (λ name. codes "1000000000000000000")

serve-panics_example : panics (serve texts too_long) ≡ is_fatal "/drip" too_long
serve-panics_example = serve-panics texts too_long

minus_text : codes "-1" ≡ itoa (negsuc 0)
unfolding itoa decimal digits_from
minus_text = refl

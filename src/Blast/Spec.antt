-- ===== src/Blast/Spec.antt =====
-- internal/blast/blast.go (`reqSpec`) and internal/probe/probe.go (`applyHeaders`): how a request is put
-- together from the flags. A Go header is the list of the fields that were added, in order; the
-- library's spelling of their names is left out.
pub mod Headers
use quicshot.Prelude.{
  ℕ, Bool, ◌||◌, List, [], ◌∷◌, ◌++◌, Option, none, some, ◌==◌, length, is_empty, if◌then◌else◌,
}
use quicshot.Prelude.Bytes.{codes}
use quicshot.Blast.Config.{trim_space}

abbrev pub Field : Type 0
Field = List ℕ × List ℕ

abbrev pub cut_more : ℕ → Option (List ℕ × List ℕ) → Option (List ℕ × List ℕ)
cut_more c none = none
cut_more c (some (k, v)) = some (c ∷ k, v)

-- `strings.Cut(h, sep)` at a separator of one byte.
unfoldable pub cut : ℕ → List ℕ → Option (List ℕ × List ℕ)
cut sep [] = none
cut sep (c ∷ s) = let rest = cut sep s in if c == sep then some ([], s) else cut_more c rest

abbrev pub field_of : Option (List ℕ × List ℕ) → List Field
field_of none = []
field_of (some (k, v)) = (trim_space k, trim_space v) ∷ []

-- The loop over the `-header` flags; one without a colon is passed over.
unfoldable pub add_headers : List (List ℕ) → List Field
add_headers [] = []
add_headers (h ∷ hs) = field_of (cut b':' h) ++ add_headers hs

pub record ReqSpec : Type 0 where
  pub method : List ℕ
  pub body : List ℕ
  pub content_type : List ℕ
  pub headers : List (List ℕ)
  pub host_hdr : List ℕ

pub record HttpRequest : Type 0 where
  pub method : List ℕ
  pub target : List ℕ
  pub body : List ℕ
  pub content_length : Option ℕ
  pub header : List Field
  pub host : Option (List ℕ)

unfoldable pub apply_headers : ReqSpec → HttpRequest → HttpRequest
apply_headers s req = record req {
  content_length = if is_empty s.body then req.content_length else some (length s.body);
  header =
      (if is_empty s.body || is_empty s.content_type
        then req.header
        else req.header ++ ((codes "Content-Type", s.content_type) ∷ []))
      ++ add_headers s.headers;
  host = if is_empty s.host_hdr then req.host else some s.host_hdr;
}

-- The argument is `http.NewRequestWithContext` on the method, the target and the body.
unfoldable pub new_request :
    (List ℕ → List ℕ → List ℕ → Option HttpRequest) → ReqSpec → List ℕ → Option HttpRequest
new_request make s target = elim (make s.method target s.body) [
  | none ↦ none
  | some req ↦ some (apply_headers s req)
]

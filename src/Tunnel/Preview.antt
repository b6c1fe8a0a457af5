-- ===== src/Tunnel/Preview.antt =====
-- internal/server/preview.go: the start of a body that is kept for the request log, and
-- `IsTextContentType` of internal/protocol/http.go.
pub mod Laws
use http_tunnels.Prelude.{
  ℕ, zero, suc, ◌+◌, ◌-◌, ◌≤◌, ◌<◌, String, Bool, true, false, not, ◌&&◌, ◌||◌, Option, none, some,
  List, [], ◌∷◌, ◌++◌, ◌≡◌, ◌⊎◌, inl, inr, refl, ap, sym, ◌∙◌, arith, length, length-append, ltb,
  leb, ◌==◌, if◌then◌else◌, codes, same_text, or_default, Bool-cases,
}
use mathlib.Core.Path.{subst}
use mathlib.Core.List.{append-nil, append_assoc}
use http_tunnels.Tunnel.Connections.Hosts.{ends_with}

abbrev pub preview_limit : ℕ
preview_limit = 8192

-- What the standard library says of a content type: its media type without the parameters, if it
-- is well formed, and the text trimmed, in lower case.
pub record Mime : Type 0 where
  pub parse_media_type : List ℕ → Option (List ℕ)
  pub lower_trimmed : List ℕ → List ℕ

abbrev starts_with_codes : List ℕ → List ℕ → Bool
starts_with_codes cs [] = true
starts_with_codes [] (p ∷ ps) = false
starts_with_codes (c ∷ cs) (p ∷ ps) = c == p && starts_with_codes cs ps

abbrev one_of : List ℕ → List String → Bool
one_of cs [] = false
one_of cs (s ∷ ss) = same_text cs (codes s) || one_of cs ss

abbrev text_media_types : List String
text_media_types =
    "application/json" ∷ "application/ld+json" ∷ "application/xml" ∷ "application/javascript"
    ∷ "application/x-www-form-urlencoded" ∷ "application/xhtml+xml" ∷ "application/problem+json"
    ∷ "application/problem+xml" ∷ "text/event-stream" ∷ []

unfoldable pub is_text_content_type : Mime → List ℕ → Bool
is_text_content_type mime [] = false
is_text_content_type mime (c ∷ cs) =
    let media = mime.lower_trimmed (or_default (mime.parse_media_type (c ∷ cs)) (c ∷ cs)) in
    starts_with_codes media (codes "text/")
    || one_of media text_media_types
    || ends_with media (codes "+json")
    || ends_with media (codes "+xml")

pub record BodyCapture : Type 0 where
  pub content_type : List ℕ
  pub total_bytes : ℕ
  pub buffer : List ℕ
  pub can_preview : Bool

pub new_body_capture : Mime → List ℕ → BodyCapture
new_body_capture mime content_type = record {
  content_type = content_type;
  total_bytes = 0;
  buffer = [];
  can_preview = is_text_content_type mime content_type;
}

-- `xs[:n]`, all of it when it is shorter.
pub take : ℕ → List ℕ → List ℕ
take zero xs = []
take (suc n) [] = []
take (suc n) (x ∷ xs) = x ∷ take n xs

pub observe : BodyCapture → List ℕ → BodyCapture
observe c chunk =
    let counted = record c { total_bytes = c.total_bytes + length chunk } in
    let remaining = preview_limit - length c.buffer in
    if not c.can_preview || length chunk == 0
    then counted
    else if remaining == 0
    then counted
    else record counted {
      buffer = c.buffer ++ (if ltb remaining (length chunk) then take remaining chunk else chunk);
    }

pub preview : BodyCapture → List ℕ
preview c = if c.can_preview then c.buffer else []

pub observe_all : BodyCapture → List (List ℕ) → BodyCapture
observe_all c [] = c
observe_all c (chunk ∷ chunks) = observe_all (observe c chunk) chunks

abbrev pub concat : List (List ℕ) → List ℕ
concat [] = []
concat (chunk ∷ chunks) = chunk ++ concat chunks

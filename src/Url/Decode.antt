-- ===== src/Url/Decode.antt =====
-- The application/x-www-form-urlencoded parser of the URL standard: what a server reads.
use http_tunnels.Prelude.{
  ℕ, ◌+◌, ◌-◌, ◌*◌, Bool, ◌&&◌, ◌||◌, List, [], ◌∷◌, leb, ◌==◌, if◌then◌else◌,
}

abbrev pub is_hex : ℕ → Bool
is_hex c = (leb b'0' c && leb c b'9') || (leb b'A' c && leb c b'F') || (leb b'a' c && leb c b'f')

abbrev pub hex_value : ℕ → ℕ
hex_value c = if leb c b'9' then c - b'0' else if leb c b'F' then c - b'A' + 10 else c - b'a' + 10

abbrev pub plain : ℕ → ℕ
plain c = if c == b'+' then 32 else c

unfoldable pub unescape : List ℕ → List ℕ
unescape [] = []
unescape (c ∷ []) = plain c ∷ []
unescape (c ∷ a ∷ []) = plain c ∷ plain a ∷ []
unescape (c ∷ a ∷ b ∷ rest) =
    let byte = (hex_value a * 16 + hex_value b) ∷ unescape rest in
    let char = plain c ∷ unescape (a ∷ b ∷ rest) in
    if c == b'%' && is_hex a && is_hex b then byte else char

abbrev push : ℕ → List (List ℕ) → List (List ℕ)
push c [] = (c ∷ []) ∷ []
push c (w ∷ ws) = (c ∷ w) ∷ ws

unfoldable pub split : ℕ → List ℕ → List (List ℕ)
split sep [] = [] ∷ []
split sep (c ∷ cs) = let ws = split sep cs in if c == sep then [] ∷ ws else push c ws

-- The name and the value, at the first "=".
unfoldable pub name_value : List ℕ → List ℕ × List ℕ
name_value [] = ([], [])
name_value (c ∷ cs) =
    let rest = name_value cs in if c == b'=' then ([], cs) else (c ∷ rest.0, rest.1)

unfoldable pub decode_pair : List ℕ → List ℕ × List ℕ
decode_pair w = (unescape (name_value w).0, unescape (name_value w).1)

-- Empty pieces are skipped.
abbrev pub pairs : List (List ℕ) → List (List ℕ × List ℕ)
pairs [] = []
pairs ([] ∷ ws) = pairs ws
pairs ((c ∷ w) ∷ ws) = decode_pair (c ∷ w) ∷ pairs ws

unfoldable pub parse : List ℕ → List (List ℕ × List ℕ)
unfolding decode_pair name_value split unescape
parse query = pairs (split b'&' query)

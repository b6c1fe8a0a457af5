-- ===== src/Url.antt =====
-- `URLSearchParams`, which cmd/server/web/src/lib/api.ts builds its query strings with: the
-- application/x-www-form-urlencoded serializer of the URL standard, and `String.prototype.trim`.
pub mod Decode
pub mod RoundTrip
pub mod Digits
use http_tunnels.Prelude.{
  ℕ, ◌+◌, ◌-◌, ◌/◌, ◌%◌, ◌*◌, String, Bool, true, false, ◌&&◌, ◌||◌, List, [], ◌∷◌, ◌++◌, ltb, leb,
  ◌==◌, if◌then◌else◌, str_eq, codes, flat_map,
}
use mathlib.Core.List.{reverse}

-- White space and line ends, which `trim` removes.
is_space : ℕ → Bool
is_space c =
    (leb 9 c && leb c 13)
    || c == 32
    || c == 0xa0
    || c == 0x1680
    || (leb 0x2000 c && leb c 0x200a)
    || c == 0x2028
    || c == 0x2029
    || c == 0x202f
    || c == 0x205f
    || c == 0x3000
    || c == 0xfeff

trim_start : List ℕ → List ℕ
trim_start [] = []
trim_start (c ∷ cs) = if is_space c then trim_start cs else c ∷ cs

unfoldable pub trim : List ℕ → List ℕ
unfolding trim_start is_space
trim cs = reverse (trim_start (reverse (trim_start cs)))

-- The bytes of a code point.
abbrev utf8_char : ℕ → List ℕ
utf8_char c =
    if ltb c 0x80
    then c ∷ []
    else if ltb c 0x800
    then (0xc0 + c / 64) ∷ (0x80 + c % 64) ∷ []
    else if ltb c 0x10000
    then (0xe0 + c / 4096) ∷ (0x80 + c / 64 % 64) ∷ (0x80 + c % 64) ∷ []
    else (0xf0 + c / 262_144 % 8)
      ∷ (0x80 + c / 4096 % 64)
      ∷ (0x80 + c / 64 % 64)
      ∷ (0x80 + c % 64)
      ∷ []

unfoldable pub utf8 : List ℕ → List ℕ
utf8 cs = flat_map utf8_char cs

abbrev pub hex : ℕ → ℕ
hex d = if ltb d 10 then b'0' + d else b'A' + (d - 10)

-- The bytes that stand for themselves.
abbrev pub is_plain : ℕ → Bool
is_plain b =
    (leb b'0' b && leb b b'9')
    || (leb b'A' b && leb b b'Z')
    || (leb b'a' b && leb b b'z')
    || b == b'*'
    || b == b'-'
    || b == b'.'
    || b == b'_'

encode_byte : ℕ → List ℕ
encode_byte b =
    if is_plain b
    then b ∷ []
    else if b == 32
    then b'+' ∷ []
    else b'%' ∷ hex (b / 16) ∷ hex (b % 16) ∷ []

pub encode : List ℕ → List ℕ
encode bytes = flat_map encode_byte bytes

-- The parameters in order; keys are those of an object, values the bytes of a text.
abbrev pub Params : Type 0
Params = List (String × List ℕ)

remove : String → Params → Params
remove k [] = []
remove k ((j, w) ∷ ps) = if str_eq j k then remove k ps else (j, w) ∷ remove k ps

-- `set`: the first parameter of that name takes the value and the others go; else it is appended.
unfoldable pub set : String → List ℕ → Params → Params
unfolding remove
set k v [] = (k, v) ∷ []
set k v ((j, w) ∷ ps) = if str_eq j k then (k, v) ∷ remove k ps else (j, w) ∷ set k v ps

pair_text : String → List ℕ → List ℕ
unfolding encode encode_byte
pair_text k v = encode (utf8 (codes k)) ++ b'=' ∷ encode v

-- `toString`
unfoldable pub to_string : Params → List ℕ
unfolding pair_text utf8
to_string [] = []
to_string ((k, v) ∷ []) = pair_text k v
to_string ((k, v) ∷ p ∷ ps) = pair_text k v ++ b'&' ∷ to_string (p ∷ ps)

-- ===== src/Url/RoundTrip.antt =====
-- The parser reads back what the serializer writes.
use http_tunnels.Prelude.{
  ℕ, ◌+◌, ◌*◌, ◌/◌, ◌%◌, ◌<◌, String, true, List, [], ◌∷◌, ◌++◌, map, ◌≡◌, ◌≢◌, refl, ap, ap₂, ◌∙◌,
  Bool-cases, inl, inr, arith, All, All-append, codes, ◌==◌, flat_map,
}
use http_tunnels.Url.{
  utf8_char, utf8, hex, is_plain, encode_byte, encode, Params, pair_text, to_string,
}
use http_tunnels.Url.Decode.{
  is_hex, hex_value, plain, unescape, split, name_value, decode_pair, pairs, parse,
}

abbrev AreBytes : List ℕ → Type 0
AreBytes = All (λ b. b < 256)

-- Neither "&" nor "=".
abbrev IsInert : ℕ → Type 0
IsInert c = (c ≢ b'&') × (c ≢ b'=')

abbrev IsNotAnd : ℕ → Type 0
IsNotAnd c = c ≢ b'&'

utf8_char-AreBytes : (c : ℕ) → AreBytes (utf8_char c)
utf8_char-AreBytes c = ground arith

pub utf8-AreBytes : (cs : List ℕ) → AreBytes (utf8 cs)
unfolding utf8
utf8-AreBytes [] = tt
utf8-AreBytes (c ∷ cs) =
    All-append (λ b. b < 256) (utf8_char c) (flat_map utf8_char cs) (utf8_char-AreBytes c)
      (utf8-AreBytes cs)

encode_byte-IsInert : (b : ℕ) → All IsInert (encode_byte b)
unfolding encode_byte
encode_byte-IsInert b = ground arith

encode-IsInert : (bs : List ℕ) → All IsInert (encode bs)
unfolding encode
encode-IsInert [] = tt
encode-IsInert (b ∷ bs) =
    All-append IsInert (encode_byte b) (encode bs) (encode_byte-IsInert b) (encode-IsInert bs)

unescape-cons : (c : ℕ) (rest : List ℕ) → c ≢ b'%' → unescape (c ∷ rest) ≡ plain c ∷ unescape rest
unfolding unescape
unescape-cons c [] h = refl
unescape-cons c (a ∷ []) h = refl
unescape-cons c (a ∷ b ∷ rest) h = ground arith

hex-is_hex : (d : ℕ) → d < 16 → is_hex (hex d) ≡ true
hex-is_hex d h = ground arith

hex_value-hex : (d : ℕ) → d < 16 → hex_value (hex d) ≡ d
hex_value-hex d h = ground arith

unescape-percent :
    (h l : ℕ) (rest : List ℕ)
    → h < 16
    → l < 16
    → unescape (b'%' ∷ hex h ∷ hex l ∷ rest) ≡ (h * 16 + l) ∷ unescape rest
unfolding unescape
unescape-percent h l rest p q =
    rw (hex-is_hex h p, hex-is_hex l q, hex_value-hex h p, hex_value-hex l q)

plain_of_is_plain : (b : ℕ) → is_plain b ≡ true → (b ≢ b'%') × (plain b ≡ b)
plain_of_is_plain b h = ground arith

unescape-encode_byte :
    (b : ℕ) (rest : List ℕ) → b < 256 → unescape (encode_byte b ++ rest) ≡ b ∷ unescape rest
unfolding encode_byte
unescape-encode_byte b rest h = elim (Bool-cases (is_plain b)) [
  | inl self ↦
      let (other, same) = plain_of_is_plain b self in
      rw self (unescape-cons b rest other ∙ ap (◌∷ unescape rest) same)
  | inr coded ↦ elim (Bool-cases (b == 32)) [
    | inl space ↦
        rw (coded, space)
          (unescape-cons b'+' rest (omega arith) ∙ ap (◌∷ unescape rest) (ground arith))
    | inr other ↦
        rw (coded, other)
          (unescape-percent (b / 16) (b % 16) rest (omega arith) (omega arith)
            ∙ ap (◌∷ unescape rest) (omega arith))
  ]
]

unescape-encode : (bs : List ℕ) → AreBytes bs → unescape (encode bs) ≡ bs
unfolding encode unescape
unescape-encode [] h = refl
unescape-encode (b ∷ bs) h =
    unescape-encode_byte b (encode bs) h.0 ∙ ap (b ∷◌) (unescape-encode bs h.1)

split-append :
    (w rest : List ℕ) → All IsNotAnd w → split b'&' (w ++ b'&' ∷ rest) ≡ w ∷ split b'&' rest
unfolding split
split-append [] rest h = refl
split-append (c ∷ w) rest h = ground (arith, split-append w rest h.1)

split-inert : (w : List ℕ) → All IsNotAnd w → split b'&' w ≡ w ∷ []
unfolding split
split-inert [] h = refl
split-inert (c ∷ w) h = ground (arith, split-inert w h.1)

name_value-append : (k v : List ℕ) → All IsInert k → name_value (k ++ b'=' ∷ v) ≡ (k, v)
unfolding name_value
name_value-append [] v h = refl
name_value-append (c ∷ k) v h = ground (arith, name_value-append k v h.1)

All-IsNotAnd : (w : List ℕ) → All IsInert w → All IsNotAnd w
All-IsNotAnd [] h = tt
All-IsNotAnd (c ∷ w) h = (h.0.0, All-IsNotAnd w h.1)

pair_text-IsNotAnd : (k : String) (v : List ℕ) → All IsNotAnd (pair_text k v)
unfolding pair_text
pair_text-IsNotAnd k v =
    All-append IsNotAnd (encode (utf8 (codes k))) (b'=' ∷ encode v)
      (All-IsNotAnd (encode (utf8 (codes k))) (encode-IsInert (utf8 (codes k))))
      (omega arith, All-IsNotAnd (encode v) (encode-IsInert v))

-- A parameter as a server reads it: name and value in bytes.
abbrev pub wire : String × List ℕ → List ℕ × List ℕ
wire (k, v) = (utf8 (codes k), v)

abbrev pub HasBytes : String × List ℕ → Type 0
HasBytes (k, v) = AreBytes v

decode_pair-pair_text :
    (k : String) (v : List ℕ) → AreBytes v → decode_pair (pair_text k v) ≡ wire (k, v)
unfolding decode_pair pair_text
decode_pair-pair_text k v h =
    rw (name_value-append (encode (utf8 (codes k))) (encode v) (encode-IsInert (utf8 (codes k)))) (
      ap₂ (λ a b. (a, b)) (unescape-encode (utf8 (codes k)) (utf8-AreBytes (codes k)))
        (unescape-encode v h))

pairs-append :
    (c : ℕ) (ks vs : List ℕ) (ws : List (List ℕ))
    → pairs ((ks ++ c ∷ vs) ∷ ws) ≡ decode_pair (ks ++ c ∷ vs) ∷ pairs ws
pairs-append c [] vs ws = refl
pairs-append c (k ∷ ks) vs ws = refl

pairs-pair_text :
    (k : String) (v : List ℕ) (ws : List (List ℕ))
    → AreBytes v
    → pairs (pair_text k v ∷ ws) ≡ wire (k, v) ∷ pairs ws
pairs-pair_text k v ws h =
    unfold pair_text in
    pairs-append b'=' (encode (utf8 (codes k))) (encode v) ws
    ∙ ap (◌∷ pairs ws) (decode_pair-pair_text k v h)

-- The parser reads every list of parameters back from its query string, in order.
pub parse-to_string : (ps : Params) → All HasBytes ps → parse (to_string ps) ≡ map wire ps
unfolding parse to_string
parse-to_string [] h = refl
parse-to_string ((k, v) ∷ []) h =
    rw (split-inert (pair_text k v) (pair_text-IsNotAnd k v)) (pairs-pair_text k v [] h.0)
parse-to_string ((k, v) ∷ p ∷ ps) h =
    let tail = to_string (p ∷ ps) in
    ap pairs (split-append (pair_text k v) tail (pair_text-IsNotAnd k v))
    ∙ pairs-pair_text k v (split b'&' tail) h.0
    ∙ ap (wire (k, v) ∷◌) (parse-to_string (p ∷ ps) h.1)

-- ===== src/Tunnel/Preview/Laws.antt =====
-- What is kept of a body, however it is cut into chunks.
use http_tunnels.Prelude.{
  ℕ, zero, suc, ◌+◌, ◌-◌, ◌≤◌, Bool, List, [], ◌∷◌, ◌++◌, ◌≡◌, inl, inr, refl, ap, ◌∙◌, arith,
  length, length-append, if◌then◌else◌, Bool-cases,
}
use mathlib.Core.Path.{subst}
use mathlib.Core.List.{append-nil, append_assoc}
use http_tunnels.Tunnel.Preview.{
  BodyCapture, Mime, concat, is_text_content_type, new_body_capture, observe, observe_all, preview,
  preview_limit, take,
}

take-long : (n : ℕ) (xs : List ℕ) → length xs ≤ n → take n xs ≡ xs
unfolding take
take-long zero [] h = refl
take-long zero (x ∷ xs) h = absurd (omega arith)
take-long (suc n) [] h = refl
take-long (suc n) (x ∷ xs) h = ap (x ∷◌) (take-long n xs (omega arith))

take_nil : (n : ℕ) → take n [] ≡ []
unfolding take
take_nil zero = refl
take_nil (suc n) = refl

sub-length-take : (n : ℕ) (xs : List ℕ) → n - length (take n xs) ≡ n - length xs
unfolding take
sub-length-take zero xs = omega arith
sub-length-take (suc n) [] = refl
sub-length-take (suc n) (x ∷ xs) = omega (arith, sub-length-take n xs)

take-append : (n : ℕ) (xs ys : List ℕ) → take n (xs ++ ys) ≡ take n xs ++ take (n - length xs) ys
unfolding take
take-append zero xs ys =
    let none_left : 0 ≡ 0 - length xs = omega arith in ap (λ k. take k ys) none_left
take-append (suc n) [] ys =
    let all_left : suc n ≡ suc n - 0 = omega arith in ap (λ k. take k ys) all_left
take-append (suc n) (x ∷ xs) ys =
    let same : n - length xs ≡ suc n - suc (length xs) = omega arith in
    ap (x ∷◌) (take-append n xs ys ∙ ap (λ k. take n xs ++ take k ys) same)

-- What has been observed of a body: the size, and the start that is kept of a text.
record IsObserved (text : Bool) (whole : List ℕ) (c : BodyCapture) : Type 0 where
  size : c.total_bytes ≡ length whole
  kind : c.can_preview ≡ text
  kept : c.buffer ≡ (if text then take preview_limit whole else [])

empty_of_length : (xs : List ℕ) → length xs ≡ 0 → xs ≡ []
empty_of_length [] h = refl
empty_of_length (x ∷ xs) h = absurd (omega arith)

take_zero : (xs : List ℕ) → take 0 xs ≡ []
unfolding take
take_zero xs = refl

observe-buffer :
    (c : BodyCapture) (chunk : List ℕ)
    → (observe c chunk).buffer ≡ (
        if c.can_preview
        then c.buffer ++ take (preview_limit - length c.buffer) chunk
        else c.buffer)
unfolding observe
observe-buffer c chunk = ground (
  arith,
  take-long (preview_limit - length c.buffer) chunk,
  append-nil c.buffer,
  empty_of_length chunk,
  take_zero chunk,
  take_nil (preview_limit - length c.buffer),
)

observe-size :
    (c : BodyCapture) (chunk : List ℕ)
    → (observe c chunk).total_bytes ≡ c.total_bytes + length chunk
unfolding observe
observe-size c chunk = ground arith

observe-kind : (c : BodyCapture) (chunk : List ℕ) → (observe c chunk).can_preview ≡ c.can_preview
unfolding observe
observe-kind c chunk = ground arith

kept_more :
    (text : Bool) (whole chunk : List ℕ) (c : BodyCapture)
    → c.can_preview ≡ text
    → c.buffer ≡ (if text then take preview_limit whole else [])
    → (if c.can_preview then c.buffer ++ take (preview_limit - length c.buffer) chunk else c.buffer)
      ≡ (if text then take preview_limit (whole ++ chunk) else [])
kept_more text whole chunk c kind kept = elim (Bool-cases text) [
  | inl e ↦ ground (
    arith,
    kind,
    kept,
    e,
    take-append preview_limit whole chunk,
    sub-length-take preview_limit whole,
  )
  | inr e ↦ ground (arith, kind, kept, e)
]

observe-IsObserved :
    (text : Bool) (whole chunk : List ℕ) (c : BodyCapture)
    → IsObserved text whole c
    → IsObserved text (whole ++ chunk) (observe c chunk)
observe-IsObserved text whole chunk c o = record {
  size = observe-size c chunk ∙ omega (arith, o.size, length-append whole chunk);
  kind = observe-kind c chunk ∙ o.kind;
  kept = observe-buffer c chunk ∙ kept_more text whole chunk c o.kind o.kept;
}

observe_all-IsObserved :
    (chunks : List (List ℕ)) (text : Bool) (whole : List ℕ) (c : BodyCapture)
    → IsObserved text whole c
    → IsObserved text (whole ++ concat chunks) (observe_all c chunks)
unfolding observe_all
observe_all-IsObserved [] text whole c o = rw append-nil o
observe_all-IsObserved (chunk ∷ chunks) text whole c o =
    subst (λ all. IsObserved text all (observe_all (observe c chunk) chunks))
      (append_assoc whole chunk (concat chunks))
      (observe_all-IsObserved chunks text (whole ++ chunk) (observe c chunk)
        (observe-IsObserved text whole chunk c o))

length-take-le : (n : ℕ) (xs : List ℕ) → length (take n xs) ≤ n
unfolding take
length-take-le zero xs = omega arith
length-take-le (suc n) [] = omega arith
length-take-le (suc n) (x ∷ xs) = omega (arith, length-take-le n xs)

preview-IsObserved :
    (text : Bool) (whole : List ℕ) (c : BodyCapture)
    → IsObserved text whole c
    → (preview c ≡ (if text then take preview_limit whole else []))
      × (length c.buffer ≤ preview_limit)
unfolding preview
preview-IsObserved text whole c o =
    (ground (arith, o.kind, o.kept), ground (arith, o.kept, length-take-le preview_limit whole))

-- However a body is cut into chunks, its capture counts its bytes, and keeps its first 8192 bytes
-- if its content type is a text's, and nothing otherwise; it never holds more.
pub observe_all-preview :
    (mime : Mime) (content_type : List ℕ) (chunks : List (List ℕ))
    → let c = observe_all (new_body_capture mime content_type) chunks in
      (c.total_bytes ≡ length (concat chunks))
      × (preview c ≡ (
          if is_text_content_type mime content_type
          then take preview_limit (concat chunks)
          else []))
      × (length c.buffer ≤ preview_limit)
unfolding new_body_capture
observe_all-preview mime content_type chunks =
    let text = is_text_content_type mime content_type in
    let whole = concat chunks in
    let c = observe_all (new_body_capture mime content_type) chunks in
    let o =
      observe_all-IsObserved chunks text [] (new_body_capture mime content_type)
        (record { size = refl; kind = refl; kept = ground (arith, take_nil preview_limit) }) in
    let (shown, small) = preview-IsObserved text whole c o in (o.size, shown, small)

-- ===== src/Api/Outcomes.antt =====
-- What the promise of `request` settles to.
use http_tunnels.Prelude.{
  ℕ, ◌≤◌, ◌<◌, String, Option, none, or_default, inl, inr, ◌≡◌, ◌≢◌, ◌⊎◌, ◌↔◌, some, arith, refl,
}
use http_tunnels.Api.{
  ErrorPayload, Response, Fetched, answered, network_error, resolved, api_error, error_text, settle,
  request,
}

-- The message of an error: the payload's error, or else its message, or else the status text.
abbrev IsMessage : Option ErrorPayload → String → String → Type 0
IsMessage none status_text m = status_text ≡ m
IsMessage (some payload) status_text m =
    (payload.error ≡ some m)
    ⊎ ((payload.error ≡ none) × (payload.message ≡ some m))
    ⊎ ((payload.error ≡ none) × (payload.message ≡ none) × (status_text ≡ m))

error_text-of_IsMessage :
    (e : Option ErrorPayload) (s m : String) → IsMessage e s m → error_text e s ≡ m
error_text-of_IsMessage none s m h = h
error_text-of_IsMessage (some payload) s m (inl a) = rw a refl
error_text-of_IsMessage (some payload) s m (inr (inl (a, b))) = rw (a, b) refl
error_text-of_IsMessage (some payload) s m (inr (inr (a, b, c))) = rw (a, b) c

error_text-IsMessage : (e : Option ErrorPayload) (s : String) → IsMessage e s (error_text e s)
error_text-IsMessage none s = refl
error_text-IsMessage (some payload) s = split payload.error payload.message
  where
    split :
        (a b : Option String)
        → (a ≡ some (or_default a (or_default b s)))
          ⊎ ((a ≡ none) × (b ≡ some (or_default a (or_default b s))))
          ⊎ ((a ≡ none) × (b ≡ none) × (s ≡ or_default a (or_default b s)))
    split (some t) b = inl refl
    split none (some t) = inr (inl (refl, refl))
    split none none = inr (inr (refl, refl, refl))

module _ {T : Type 0} where
  -- An answer from 200 to 299 other than 204, whose body parses to `t`.
  abbrev pub Delivers : Fetched T → T → Type 0
  Delivers f t =
      (r : Response T) × (f ≡ answered r)
      × (200 ≤ r.status)
      × (r.status ≤ 299)
      × (r.status ≢ 204)
      × (r.body ≡ some t)

  -- An answer with that status, not from 200 to 299, for which that message is found.
  abbrev pub Refuses : Fetched T → ℕ → String → Type 0
  Refuses f code m =
      (r : Response T) × (f ≡ answered r)
      × (r.status ≡ code)
      × ((code < 200) ⊎ (299 < code))
      × IsMessage r.error_body r.status_text m

  settle-Delivers :
      (r : Response T) (t : T) → settle r ≡ resolved (some t) → Delivers (answered r) t
  unfolding settle
  settle-Delivers r t e = (r, refl, ground arith, ground arith, ground arith, ground arith)

  settle-Refuses :
      (r : Response T) (code : ℕ) (m : String)
      → settle r ≡ api_error code m
      → Refuses (answered r) code m
  unfolding settle
  settle-Refuses r code m e =
      let found : error_text r.error_body r.status_text ≡ m = ground arith in
      (
        r,
        refl,
        ground arith,
        ground arith,
        rw (← found) (error_text-IsMessage r.error_body r.status_text),
      )

  request-Delivers : (f : Fetched T) (t : T) → request f ≡ resolved (some t) → Delivers f t
  unfolding request
  request-Delivers (answered r) t e = settle-Delivers r t e
  request-Delivers (network_error m) t e = cc

  request-Refuses :
      (f : Fetched T) (code : ℕ) (m : String) → request f ≡ api_error code m → Refuses f code m
  unfolding request
  request-Refuses (answered r) code m e = settle-Refuses r code m e
  request-Refuses (network_error m') code m e = cc

  -- The promise of `request` resolves to data exactly for an answer from 200 to 299 other than 204
  -- whose body parses, and then to that body.
  pub request-eq-resolved_iff :
      (f : Fetched T) (t : T) → (request f ≡ resolved (some t)) ↔ Delivers f t
  unfolding request settle
  request-eq-resolved_iff f t =
      (request-Delivers f t, λ (r, same, low, high, full, body). rw (same, request) (ground arith))

  -- The promise of `request` rejects with an `ApiError` exactly for an answer outside of 200 to 299:
  -- with its status, and the payload's error, or else its message, or else the status text.
  pub request-eq-api_error_iff :
      (f : Fetched T) (code : ℕ) (m : String) → (request f ≡ api_error code m) ↔ Refuses f code m
  unfolding request settle
  request-eq-api_error_iff f code m = (
    request-Refuses f code m,
    λ (r, same, status, outside, text).
        let found = error_text-of_IsMessage r.error_body r.status_text m text in
        rw (same, request) (ground arith),
  )

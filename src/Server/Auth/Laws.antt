-- ===== src/Server/Auth/Laws.antt =====
-- Who passes the guard of the admin API, and how the console's gate follows it.
use Prim.Native.Nat.{◌^◌}
use http_tunnels.Prelude.{
  ℕ, ◌+◌, ◌<◌, String, true, false, Option, none, some, List, [], ◌∷◌, ◌++◌, ◌≡◌, ◌↔◌, refl, ap,
  sym, ◌∙◌, inl, inr, arith, All, Bool-cases, leb, ◌==◌, ==_iff, str_eq, same_text, codes, show_nat,
}
use http_tunnels.Url.Digits.{IsDigit, IsCons, show_nat-IsDigit, show_nat-IsCons}
use http_tunnels.Server.Auth.{
  GoAuth, Config, load_config, split_dot, sign_session, session_value, is_signed, is_valid,
  is_admin_authenticated, authenticate_password, AdminRequest, Handler, served, logged_in, guarded,
  admin_api, login_api, login_with, session_api, admin_session_ttl, validate_admin_configuration,
}

same_text_refl : (cs : List ℕ) → same_text cs cs ≡ true
same_text_refl [] = refl
same_text_refl (c ∷ cs) = rw ((==_iff c c).1 refl) (same_text_refl cs)

split_dot_of_digits :
    (xs ys : List ℕ) → All IsDigit xs → split_dot (xs ++ b'.' ∷ ys) ≡ some (xs, ys)
unfolding split_dot
split_dot_of_digits [] ys h = refl
split_dot_of_digits (x ∷ xs) ys h =
    let other : (x == b'.') ≡ false = ground (arith, h.0.0) in
    rw (other, split_dot_of_digits xs ys h.1) refl

same_text-eq : (xs ys : List ℕ) → same_text xs ys ≡ true → xs ≡ ys
same_text-eq [] [] h = refl
same_text-eq [] (y ∷ ys) h = cc
same_text-eq (x ∷ xs) [] h = cc
same_text-eq (x ∷ xs) (y ∷ ys) h = elim (Bool-cases (x == y)) [
  | inl same ↦ rw ((==_iff x y).0 same) (ap (y ∷◌) (same_text-eq xs ys (rw same at h)))
  | inr other ↦ cc (rw other at h)
]

IsCons-of_set : (cs : List ℕ) → same_text cs [] ≡ false → IsCons cs
IsCons-of_set [] h = cc
IsCons-of_set (c ∷ cs) h = tt

set_of_IsCons : (cs : List ℕ) → IsCons cs → same_text cs [] ≡ false
set_of_IsCons [] h = absurd h
set_of_IsCons (c ∷ cs) h = refl

IsCons-append_right : (xs ys : List ℕ) → IsCons xs → IsCons (xs ++ ys)
IsCons-append_right [] ys h = absurd h
IsCons-append_right (x ∷ xs) ys h = tt

-- The configuration that needs no knowledge.
abbrev pub open_config : Config
open_config = record { web_password = []; session_secret = [] }

module _ (go : GoAuth) where
  is_valid-decode :
      (config : Config) (now : ℕ) (value decoded payload signature : List ℕ)
      → IsCons value
      → go.decode value ≡ some decoded
      → split_dot decoded ≡ some (payload, signature)
      → is_valid go config now value ≡ is_signed go config now (payload, signature)
  unfolding is_valid
  is_valid-decode config now [] decoded payload signature h d s = absurd h
  is_valid-decode config now (c ∷ value) decoded payload signature h d s = rw (d, s, is_valid) refl

  is_signed-sign_session :
      (config : Config) (now t : ℕ)
      → t < 2 ^ 63
      → is_signed go config now (codes (show_nat t), sign_session go config (codes (show_nat t)))
        ≡ leb now t
  unfolding is_signed
  is_signed-sign_session config now t h =
      rw (same_text_refl (sign_session go config (codes (show_nat t))), go.parse_int-show_nat t h)
        refl

  -- The cookie that a login sets is accepted until the time that it was signed for, and not after it.
  pub is_admin_authenticated-session_value :
      (config : Config) (now expires_at : ℕ)
      → expires_at < 2 ^ 63
      → is_admin_authenticated go config now (some (session_value go config expires_at))
        ≡ leb now expires_at
  unfolding is_admin_authenticated session_value
  is_admin_authenticated-session_value config now t h =
      is_valid-decode config now _ _ (codes (show_nat t))
        (sign_session go config (codes (show_nat t)))
        (go.encode-IsCons _ (IsCons-append_right (codes (show_nat t)) _ (show_nat-IsCons t)))
        (go.decode-encode _) (split_dot_of_digits (codes (show_nat t)) _ (show_nat-IsDigit t))
      ∙ is_signed-sign_session config now t h

  -- On a server that is started without WEB_PASSWORD and WEB_SESSION_SECRET, a cookie that anyone
  -- can compute, signed with the empty secret, is accepted until the time that it names.
  pub is_admin_authenticated-open_config :
      (env : String → List ℕ) (now expires_at : ℕ)
      → env "WEB_PASSWORD" ≡ []
      → env "WEB_SESSION_SECRET" ≡ []
      → expires_at < 2 ^ 63
      → is_admin_authenticated go
          (load_config env)
          now
          (some (session_value go open_config expires_at))
        ≡ leb now expires_at
  unfolding load_config
  is_admin_authenticated-open_config env now t password secret h =
      rw (password, secret) (is_admin_authenticated-session_value open_config now t h)

  module _ (config : Config) where
    authenticate_password-cases :
        (password : List ℕ)
        → authenticate_password go config password ≡ true
        → IsCons config.web_password
          × (same_text (go.trim_space password) config.web_password ≡ true)
    unfolding authenticate_password
    authenticate_password-cases password h = elim (Bool-cases (same_text config.web_password [])) [
      | inl blank ↦ cc (rw blank at h)
      | inr set ↦ (IsCons-of_set config.web_password set, rw set at h)
    ]

    -- A configured password with white space around it lets nobody in: what a password that is
    -- accepted is compared with has none.
    pub authenticate_password-trim_space :
        (password : List ℕ)
        → authenticate_password go config password ≡ true
        → go.trim_space config.web_password ≡ config.web_password
    authenticate_password-trim_space password h =
        let (set, same) = authenticate_password-cases password h in
        let e = same_text-eq (go.trim_space password) config.web_password same in
        ap go.trim_space (sym e) ∙ go.trim_space-trim_space password ∙ e

  module _ (config : Config) (now : ℕ) (r : AdminRequest) where
    guarded-served :
        (h k : Handler)
        → guarded go config now r h ≡ served k
        → is_admin_authenticated go config now r.cookie ≡ true
    unfolding guarded
    guarded-served h k e = elim (Bool-cases (is_admin_authenticated go config now r.cookie)) [
      | inl known ↦ known
      | inr stranger ↦ cc (rw stranger at e)
    ]

    login_api-served : (h : Handler) → login_api go config now r ≡ served h → ⊥
    unfolding login_api validate_admin_configuration
    login_api-served h e = ground arith

    session_api-served : (h : Handler) → session_api go config now r ≡ served h → ⊥
    unfolding session_api
    session_api-served h e = ground arith

    -- The API serves nobody without a valid session: whatever the request, a handler of the
    -- dashboard, the tunnels or the request activity runs only for an authenticated user.
    pub admin_api-served :
        (h : Handler)
        → admin_api go config now r ≡ served h
        → is_admin_authenticated go config now r.cookie ≡ true
    unfolding admin_api guarded
    admin_api-served h e = ground (arith, login_api-served h, session_api-served h)

    -- What a login takes.
    pub LogsIn : Type 0
    LogsIn =
        (str_eq r.method "POST" ≡ true)
        × (password : List ℕ) × (r.password ≡ some password)
        × IsCons config.web_password
        × (same_text (go.trim_space password) config.web_password ≡ true)

    login_with-cases :
        (given : Option (List ℕ)) (value : List ℕ)
        → login_with go config now given ≡ logged_in value
        → (password : List ℕ) × (given ≡ some password)
          × (authenticate_password go config password ≡ true)
    login_with-cases none value h = cc
    login_with-cases (some password) value h =
        elim (Bool-cases (authenticate_password go config password)) [
          | inl right ↦ (password, refl, right)
          | inr wrong ↦ cc (rw wrong at h)
        ]

    login_api-LogsIn : (value : List ℕ) → login_api go config now r ≡ logged_in value → LogsIn
    unfolding login_api validate_admin_configuration LogsIn
    login_api-LogsIn value h = elim (Bool-cases (str_eq r.method "POST")) [
      | inr other ↦ cc (rw other at h)
      | inl post ↦
          let (password, given, right) = login_with-cases r.password value (rw post at h) in
          let (set, same) = authenticate_password-cases config password right in
          (post, password, given, set, same)
    ]

    -- A login sets the cookie exactly for a POST whose password, without the white space around
    -- it, is the configured one, which is not empty; and then the cookie is that of a session of 24
    -- hours.
    pub login_api-logged_in_iff :
        (login_api go config now r ≡ logged_in (session_value go config (now + admin_session_ttl)))
        ↔ LogsIn
    unfolding login_api authenticate_password validate_admin_configuration LogsIn
    login_api-logged_in_iff = (
      login_api-LogsIn (session_value go config (now + admin_session_ttl)),
      λ (post, password, given, set, same).
          rw (post, given, set_of_IsCons config.web_password set, same) refl,
    )

-- ===== src/Server/Auth.antt =====
-- internal/server/auth.go, config.go and handlers_admin.go: the session cookie of the console, and
-- the admin API that it guards. Texts are lists of bytes, times whole seconds. The packages of Go
-- that the code calls are a parameter, with what the code relies on.
pub mod Laws
pub mod Console
mod Tests
use Prim.Native.Nat.{◌^◌}
use http_tunnels.Prelude.{
  ℕ, ◌+◌, ◌*◌, ◌<◌, String, Bool, true, false, not, Option, none, some, List, [], ◌∷◌, ◌++◌, ◌≡◌,
  leb, ◌==◌, if◌then◌else◌, str_eq, same_text, codes, show_nat, or_default, ◌^^◌,
}
use http_tunnels.Prelude.Int.{ℤ, pos, negsuc}
use http_tunnels.Api.{AdminSession}
use http_tunnels.Url.Digits.{IsCons}

-- `base64.RawURLEncoding`, `hmac` with SHA-256, `strconv.ParseInt` and `strings.TrimSpace`.
pub record GoAuth : Type 0 where
  pub encode : List ℕ → List ℕ
  pub decode : List ℕ → Option (List ℕ)
  pub hmac : List ℕ → List ℕ → List ℕ
  pub parse_int : List ℕ → Option ℤ
  pub trim_space : List ℕ → List ℕ
  -- An encoding is decoded to what was encoded, and is empty for an empty text alone.
  pub decode-encode : (bytes : List ℕ) → decode (encode bytes) ≡ some bytes
  pub encode-IsCons : (bytes : List ℕ) → IsCons bytes → IsCons (encode bytes)
  -- Nothing is left to trim of a text that is trimmed.
  pub trim_space-trim_space : (cs : List ℕ) → trim_space (trim_space cs) ≡ trim_space cs
  -- A decimal print is read back, within 64 bits.
  pub parse_int-show_nat : (n : ℕ) → n < 2 ^ 63 → parse_int (codes (show_nat n)) ≡ some (pos n)

-- The fields of `Config` that the authentication reads.
pub record Config : Type 0 where
  pub web_password : List ℕ
  pub session_secret : List ℕ

-- `getEnv`; a variable that is not set is empty.
abbrev get_env : List ℕ → List ℕ → List ℕ
get_env [] default = default
get_env (c ∷ cs) default = c ∷ cs

pub load_config : (String → List ℕ) → Config
load_config env = record {
  web_password = env "WEB_PASSWORD";
  session_secret = get_env (env "WEB_SESSION_SECRET") (env "WEB_PASSWORD");
}

-- `ValidateAdminConfiguration`: no error.
pub validate_admin_configuration : Config → Option String
validate_admin_configuration config = none

-- `ensureAdminConfigured`
abbrev ensure_admin_configured : Config → Option String
ensure_admin_configured config = elim (validate_admin_configuration config) [
  | none ↦ none
  | some e ↦ some ("admin authentication is unavailable: " ^^ e)
]

-- 24 hours.
abbrev pub admin_session_ttl : ℕ
admin_session_ttl = 24 * 3600

-- `strings.SplitN(text, ".", 2)` where it gives two parts.
split_dot : List ℕ → Option (List ℕ × List ℕ)
split_dot [] = none
split_dot (c ∷ cs) =
    let rest = split_dot cs in
    if c == b'.'
    then some ([], cs)
    else elim rest [ none ↦ none | some (payload, signature) ↦ some (c ∷ payload, signature) ]

-- What is behind a prefix.
strip_prefix : List ℕ → List ℕ → Option (List ℕ)
strip_prefix [] cs = some cs
strip_prefix (p ∷ ps) [] = none
strip_prefix (p ∷ ps) (c ∷ cs) = let rest = strip_prefix ps cs in if p == c then rest else none

abbrev is_fresh : ℕ → Option ℤ → Bool
is_fresh now none = false
is_fresh now (some (pos expires_at)) = leb now expires_at
is_fresh now (some (negsuc n)) = false

-- A request to the admin API: `on_admin_host` is what `isAdminHost` says of it, and `password` is that of a body which decodes as a login request.
pub record AdminRequest : Type 0 where
  pub on_admin_host : Bool
  pub method : String
  pub path : List ℕ
  pub cookie : Option (List ℕ)
  pub password : Option (List ℕ)

-- The handlers behind the guard, with the part of the path that they read.
pub data Handler : Type 0 where
  dashboard request_activity tunnels : Handler
  request_activity_detail tunnel_detail : List ℕ → Handler

pub data Answer : Type 0 where
  not_found not_allowed : Answer
  session_answer : AdminSession → Answer
  refused : ℕ → String → Answer
  logged_in : List ℕ → Answer
  served : Handler → Answer

module _ (go : GoAuth) (config : Config) where
  sign_session : List ℕ → List ℕ
  sign_session payload = go.encode (go.hmac config.session_secret payload)

  -- The value of the cookie that `setAdminSession` sets.
  pub session_value : ℕ → List ℕ
  session_value expires_at =
      let payload = codes (show_nat expires_at) in
      go.encode (payload ++ b'.' ∷ sign_session payload)

  is_signed : ℕ → List ℕ × List ℕ → Bool
  is_signed now (payload, signature) =
      if same_text signature (sign_session payload)
      then is_fresh now (go.parse_int payload)
      else false

  is_valid : ℕ → List ℕ → Bool
  is_valid now [] = false
  is_valid now (c ∷ value) = elim (go.decode (c ∷ value)) [
    | none ↦ false
    | some decoded ↦ elim (split_dot decoded) [ none ↦ false | some parts ↦ is_signed now parts ]
  ]

  pub is_admin_authenticated : ℕ → Option (List ℕ) → Bool
  is_admin_authenticated now cookie = elim cookie [ none ↦ false | some value ↦ is_valid now value ]

  pub authenticate_password : List ℕ → Bool
  authenticate_password password =
      if same_text config.web_password []
      then false
      else same_text (go.trim_space password) config.web_password

  pub session_api : ℕ → AdminRequest → Answer
  session_api now r =
      if not (str_eq r.method "GET")
      then not_allowed
      else session_answer (record {
        authenticated = is_admin_authenticated now r.cookie;
        configured = elim (ensure_admin_configured config) [ none ↦ true | some e ↦ false ];
        message = some (or_default (ensure_admin_configured config) "");
      })

  abbrev login_with : ℕ → Option (List ℕ) → Answer
  login_with now none = refused 400 "invalid login payload"
  login_with now (some password) =
      if authenticate_password password
      then logged_in (session_value (now + admin_session_ttl))
      else refused 401 "invalid password"

  pub login_api : ℕ → AdminRequest → Answer
  login_api now r =
      if not (str_eq r.method "POST") then not_allowed else elim (ensure_admin_configured config) [
        | none ↦ login_with now r.password
        | some e ↦ refused 503 "admin authentication is not configured"
      ]

  -- `requireAdminAPI` in front of a handler.
  guarded : ℕ → AdminRequest → Handler → Answer
  guarded now r handler =
      if is_admin_authenticated now r.cookie
      then served handler
      else refused 401 "authentication required"

  -- `handleAdminAPI` on the path behind "/api/admin".
  pub admin_api : ℕ → AdminRequest → Answer
  admin_api now r =
      if not r.on_admin_host
      then not_found
      else if same_text r.path (codes "/auth/session")
      then session_api now r
      else if same_text r.path (codes "/auth/login")
      then login_api now r
      else if same_text r.path (codes "/dashboard")
      then guarded now r dashboard
      else if same_text r.path (codes "/request-activity")
      then guarded now r request_activity
      else elim (strip_prefix (codes "/request-activity/") r.path) [
        | some suffix ↦ guarded now r (request_activity_detail suffix)
        | none ↦
            if same_text r.path (codes "/tunnels")
            then guarded now r tunnels
            else elim (strip_prefix (codes "/tunnels/") r.path) [
              | some suffix ↦ guarded now r (tunnel_detail suffix)
              | none ↦ not_found
            ]
      ]

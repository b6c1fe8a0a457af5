-- ===== src/Server/Auth/Tests.antt =====
-- Sessions of the server.
use http_tunnels.Prelude.{
  ℕ, ◌+◌, String, true, false, none, some, List, [], ◌++◌, ◌≡◌, ◌↔◌, refl, ap, arith, leb, codes,
  parse_from, show_nat-parse,
}
use http_tunnels.Prelude.Int.{pos}
use http_tunnels.Dom.{Node, text}
use http_tunnels.Hooks.{shown}
use http_tunnels.Api.{AdminSession}
use http_tunnels.Components.Sidebar.{SidebarEvent}
use http_tunnels.Pages.Login.{login_initial, login_page}
use http_tunnels.Pages.Layout.{admin_layout, frame}
use http_tunnels.Pages.Layout.Laws.{IsRedirect}
use http_tunnels.Pages.Tunnels.Laws.{arrived}
use http_tunnels.Server.Auth.{
  GoAuth, Config, load_config, session_value, is_admin_authenticated, AdminRequest, dashboard,
  served, logged_in, session_answer, validate_admin_configuration, admin_api, guarded, login_api,
  session_api, authenticate_password, admin_session_ttl,
}
use http_tunnels.Server.Auth.Laws.{
  open_config, LogsIn, is_admin_authenticated-session_value, is_admin_authenticated-open_config,
  admin_api-served, login_api-logged_in_iff, authenticate_password-trim_space,
}
use http_tunnels.Server.Auth.Console.{session_api-IsRedirect, session_api-shown}

-- Encodings that leave the bytes as they are, and a signature that shows the key.
abbrev go : GoAuth
go = record {
  encode = λ bytes. bytes;
  decode = λ bytes. some bytes;
  hmac = λ key bytes. key ++ bytes;
  parse_int = λ cs. some (pos (parse_from 0 cs));
  trim_space = λ cs. cs;
  decode-encode = λ bytes. refl;
  encode-IsCons = λ bytes h. h;
  trim_space-trim_space = λ cs. refl;
  parse_int-show_nat = λ n h. ap (λ m. some (pos m)) (show_nat-parse n);
}

abbrev config : Config
config = record { web_password = codes "secret"; session_secret = codes "key" }

is_admin_authenticated-session_value_example :
    is_admin_authenticated go config 50 (some (session_value go config 100)) ≡ leb 50 100
is_admin_authenticated-session_value_example =
    is_admin_authenticated-session_value go config 50 100 (omega arith)

abbrev no_variables : String → List ℕ
no_variables name = []

is_admin_authenticated-open_config_example :
    is_admin_authenticated go
      (load_config no_variables)
      50
      (some (session_value go open_config 100))
    ≡ leb 50 100
is_admin_authenticated-open_config_example =
    is_admin_authenticated-open_config go no_variables 50 100 refl refl (omega arith)

abbrev asking : AdminRequest
asking = record {
  on_admin_host = true;
  method = "GET";
  path = codes "/dashboard";
  cookie = some (session_value go config (20 + admin_session_ttl));
  password = none;
}

authenticated : is_admin_authenticated go config 50 asking.cookie ≡ true
authenticated =
    is_admin_authenticated-session_value go config 50 (20 + admin_session_ttl) (omega arith)

dashboard_served : admin_api go config 50 asking ≡ served dashboard
unfolding admin_api guarded
dashboard_served = rw authenticated refl

admin_api-served_example : is_admin_authenticated go config 50 asking.cookie ≡ true
admin_api-served_example = admin_api-served go config 50 asking dashboard dashboard_served

abbrev logging_in : AdminRequest
logging_in = record {
  on_admin_host = true;
  method = "POST";
  path = codes "/auth/login";
  cookie = none;
  password = some (codes "secret");
}

login_api-logged_in_iff_example :
    (login_api go config 20 logging_in
      ≡ logged_in (session_value go config (20 + admin_session_ttl)))
    ↔ LogsIn go config 20 logging_in
login_api-logged_in_iff_example = login_api-logged_in_iff go config 20 logging_in

authenticate_password-trim_space_example : go.trim_space config.web_password ≡ config.web_password
unfolding authenticate_password
authenticate_password-trim_space_example =
    authenticate_password-trim_space go config (codes "secret") refl

abbrev outlet : Node SidebarEvent
outlet = text "the page"

session_api-shown_example :
    (session : AdminSession) × (session_api go config 50 asking ≡ session_answer session)
    × (admin_layout (λ e. e) "/admin" false (arrived session) outlet
        ≡ shown (frame (λ e. e) "/admin" false outlet))
session_api-shown_example =
    session_api-shown go config (λ e. e) "/admin" false outlet 20 50 asking (omega arith)
      (omega arith) refl refl

abbrev answered : AdminSession
answered = record { authenticated = true; configured = true; message = some "" }

session_answered : session_api go config 50 asking ≡ session_answer answered
unfolding session_api validate_admin_configuration
session_answered = rw authenticated refl

session_api-IsRedirect_example : ¬ (
    IsRedirect (admin_layout (λ e. e) "/admin" false (arrived answered) outlet)
    × IsRedirect (login_page login_initial (arrived answered) false))
session_api-IsRedirect_example =
    session_api-IsRedirect go config (λ e. e) "/admin" false outlet 50 asking answered login_initial
      false session_answered

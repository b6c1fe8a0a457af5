-- ===== src/Pages/Login.antt =====
-- login-page.tsx of cmd/server/web/src/pages.
use http_tunnels.Prelude.{
  String, Bool, false, not, ◌||◌, Option, none, some, List, [], ◌∷◌, if◌then◌else◌, or_else,
  nonempty,
}
use http_tunnels.Dom.{Node, text, el, prop, flag, on_submit, on_change, kids, box, label}
use http_tunnels.Hooks.{
  Query, Effect, toast_success, mutate_login, fetch_session, navigate, Screen, redirect, shown,
}
use http_tunnels.Api.{AdminSession}
use http_tunnels.Components.Basic.{card}

pub record LoginState : Type 0 where
  pub password : String
  pub error_message : String

abbrev pub login_initial : LoginState
login_initial = record { password = ""; error_message = "" }

pub data LoginEvent : Type 0 where
  edit_password : String → LoginEvent
  submit : LoginEvent
  pending : LoginEvent
  session_fetched : LoginEvent
  succeeded : LoginEvent
  failed : String → LoginEvent

-- `redirectTo`, from the state that the layout's redirect leaves in the location.
unfoldable pub redirect_to : Option String → String
redirect_to from = or_else from "/admin"

-- `pending` is the effect that runs when the mutation starts. `succeeded` is the first half of
-- `onSuccess`, and `session_fetched` the half behind its `await`.
unfoldable pub login_step : Option String → LoginState → LoginEvent → LoginState × List Effect
login_step from s (edit_password v) = (record s { password = v }, [])
login_step from s submit = (record s { error_message = "" }, mutate_login s.password ∷ [])
login_step from s pending = (record s { error_message = "" }, [])
login_step from s succeeded = (s, fetch_session ∷ [])
login_step from s session_fetched = (
  s,
  toast_success "Authenticated. Redirecting to the admin dashboard."
      ∷ navigate (redirect_to from)
      ∷ [],
)
login_step from s (failed error) = (record s { error_message = error }, [])

-- `sessionQuery.data?.authenticated`, `sessionQuery.data?.configured ?? false`
abbrev pub is_authenticated : Option AdminSession → Bool
is_authenticated none = false
is_authenticated (some session) = session.authenticated

abbrev pub is_configured : Option AdminSession → Bool
is_configured none = false
is_configured (some session) = session.configured

abbrev message_of : Option AdminSession → Option String
message_of none = none
message_of (some session) = session.message

login_skeleton : Node LoginEvent
login_skeleton = box "div" (
    card (box "Skeleton" [] ∷ box "Skeleton" [] ∷ []) (box "Skeleton" [] ∷ box "Skeleton" [] ∷ [])
    ∷ [])

login_form : LoginState → Option AdminSession → Bool → Node LoginEvent
login_form s session is_pending =
    let configured = is_configured session in
    el "form" (on_submit (submit ∷ []) ∷ []) (
      kids (
        box "FieldGroup" (
          el "Field" (flag "data-invalid" (nonempty s.error_message || not configured) ∷ []) (
            kids (
              el "FieldLabel" (prop "htmlFor" "password" ∷ []) (kids (text "Password" ∷ []))
              ∷ box "FieldContent" (
                  el "Input"
                    (prop "id" "password"
                      ∷ prop "type" "password"
                      ∷ prop "value" s.password
                      ∷ on_change (λ v. edit_password v ∷ [])
                      ∷ prop "placeholder" "Enter WEB_PASSWORD"
                      ∷ flag "aria-invalid" (nonempty s.error_message || not configured)
                      ∷ prop "autoComplete" "current-password"
                      ∷ [])
                    (kids [])
                  ∷ label "FieldDescription" (
                      if configured
                      then "This value is validated entirely on the Go server and stored in an authenticated cookie session."
                      else or_else (message_of session)
                          "WEB_PASSWORD is missing on the server. Set it before using the admin dashboard.")
                  ∷ label "FieldError" s.error_message
                  ∷ [])
              ∷ []))
          ∷ [])
        ∷ el "Button" (prop "type" "submit" ∷ flag "disabled" (not configured || is_pending) ∷ [])
            (kids (text (if is_pending then "Authenticating..." else "Login") ∷ []))
        ∷ []))

unfoldable pub login_page : LoginState → Query AdminSession → Bool → Screen LoginEvent
unfolding login_skeleton login_form
login_page s query is_pending =
    if query.is_loading
    then shown login_skeleton
    else if is_authenticated query.result
    then redirect "/admin" none
    else shown (
        box "div" (
          card
            (box "CardTitle" (box "LockIcon" [] ∷ text "Admin login" ∷ [])
              ∷ box "CardDescription" (
                  text "Authenticate with the server-side "
                  ∷ label "code" "WEB_PASSWORD"
                  ∷ text " value to access the HTTP Tunnels admin dashboard."
                  ∷ [])
              ∷ [])
            (login_form s query.result is_pending ∷ [])
          ∷ []))

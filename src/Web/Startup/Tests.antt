-- ===== src/Web/Startup/Tests.antt =====
-- A start with a token, and a visitor who is not signed in.
use agentunited.Prelude.{
  ℕ, String, Bool, true, false, Option, none, some, List, [], ◌∷◌, ◌≡◌, refl, str_eq, find,
  if◌then◌else◌,
}
use agentunited.Prelude.Dict.{Dict, lookup}
use agentunited.Prelude.Js.{Value, num, obj, field, no_fields}
use agentunited.Prelude.Text.{occurrences}
use agentunited.Web.Config.{ApiConfig, apply_url_params, parse_from_url_params, is_default_instance}
use agentunited.Web.Auth.{
  auto_login, set_token, is_token_expired, is_authenticated, get_token, is_valid_jwt_format,
}
use agentunited.Web.Startup.{
  apply_throws, sign_in, Startup, make, initialize_app, shows, navigates, chat, login, app, view_at,
}
use agentunited.Web.Startup.Session.{initialize_app_lem, app-token}
use agentunited.Web.Startup.Guards.{is_open, view_at-is_open}

abbrev protocol_of : String → Option String
protocol_of url = some "https:"

abbrev atob : String → Option String
atob part = some part

abbrev decode : String → Option Value
decode text = some (obj (field "exp" (num 10) no_fields))

abbrev to_number : Value → Option ℕ
to_number (num n) = some n
to_number _ = none

-- A router that picks a route only for its own pattern.
abbrev matched : List String → String → Option String
matched patterns path = find (λ p. str_eq p path) patterns

abbrev stored : Dict String
stored = ("auth-token", "old") ∷ []

abbrev config : ApiConfig
config = record { instance_url = "https://other"; storage = some stored }

-- The link of a login, and that of an invite.
abbrev linked : Startup
linked = make config none (some "a.b.c")

abbrev invited : Startup
invited = make config (some "https://mine") (some "inv_1")

initialize_app_lem_example :
    (get_token (initialize_app protocol_of invited).config.storage ≡ some "old")
    × ((initialize_app protocol_of invited).auto_login_redirect ≡ none)
    × ((initialize_app protocol_of invited).token_param ≡ some "inv_1")
    × ((initialize_app protocol_of invited).is_initializing ≡ false)
unfolding get_token lookup occurrences is_valid_jwt_format
initialize_app_lem_example = initialize_app_lem protocol_of stored invited refl

abbrev signed : Bool
signed = is_authenticated atob decode to_number 5 (initialize_app protocol_of linked).config.storage

app-token_example :
    ((path : String)
      → app matched signed path (initialize_app protocol_of linked)
        ≡ navigates "/chat" ∷ view_at matched signed path ∷ [])
    × (app matched signed "/chat" (initialize_app protocol_of linked)
        ≡ navigates "/chat"
          ∷ (if is_token_expired atob decode to_number 5 "a.b.c"
              then navigates "/login"
              else shows chat)
          ∷ [])
    × (app matched signed "/login" (initialize_app protocol_of linked)
        ≡ navigates "/chat" ∷ shows login ∷ [])
unfolding occurrences is_valid_jwt_format
app-token_example =
    app-token protocol_of atob decode to_number matched 5 "a.b.c" stored linked refl refl refl refl

view_at-is_open_example : is_open (view_at matched false "/chat") ≡ true
view_at-is_open_example = view_at-is_open matched "/chat"

-- Where localStorage refuses, the token is lost and the guard sends to the login.
abbrev refused : Startup
refused = make (record { instance_url = ""; storage = none }) none (some "a.b.c")

token_is_lost :
    ((initialize_app protocol_of refused).auto_login_redirect ≡ some "/chat")
    × ((initialize_app protocol_of refused).token_param ≡ none)
    × (app matched
          (is_authenticated atob decode to_number 5
            (initialize_app protocol_of refused).config.storage)
          "/chat"
          (initialize_app protocol_of refused)
        ≡ navigates "/chat" ∷ navigates "/login" ∷ [])
unfolding initialize_app apply_throws apply_url_params parse_from_url_params is_default_instance
    sign_in auto_login set_token is_valid_jwt_format occurrences app view_at is_authenticated
    get_token
token_is_lost = (refl, refl, refl)

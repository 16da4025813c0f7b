-- ===== src/Web/Startup.antt =====
-- apps/web/src/App.tsx: what happens before the first page, and which pages are guarded. The
-- configuration and the session keep their values in one localStorage, that of Web/Config.
-- `matched` stands for react-router: the pattern, of those given, that it picks for a path.
pub mod Session
pub mod Guards
mod Tests
use agentunited.Prelude.{
  ℕ, String, Bool, true, false, not, ◌&&◌, Option, none, some, List, [], ◌∷◌, ◌++◌, map, find,
  str_eq, if◌then◌else◌, is_some,
}
use agentunited.Prelude.Dict.{Dict, lookup, insert}
use agentunited.Prelude.Js.{Value}
use agentunited.Web.Config.{ApiConfig, parse_from_url_params, apply_url_params, is_default_instance}
use agentunited.Web.Auth.{auto_login, is_valid_jwt_format, is_authenticated}

-- The two parameters of the page's address are those that the code reads.
pub record Startup : Type 0 where
  pub config : ApiConfig
  pub instance_param : Option String
  pub token_param : Option String
  pub is_initializing : Bool
  pub auto_login_redirect : Option String

abbrev pub make : ApiConfig → Option String → Option String → Startup
make config instance_param token_param = record {
  config = config;
  instance_param = instance_param;
  token_param = token_param;
  is_initializing = true;
  auto_login_redirect = none;
}

-- What handles the token that `initializeFromUrlParams` hands on.
unfoldable pub sign_in : Option String → Startup → Startup
unfolding auto_login is_valid_jwt_format
sign_in none w = w
sign_in (some token) w =
    if is_valid_jwt_format token
    then (let (storage, result) = auto_login token w.config.storage in
        if result.success
        then record w {
          config = record w.config { storage = storage };
          token_param = none;
          auto_login_redirect = some "/chat";
        }
        else w)
    else w

module _ (protocol_of : String → Option String) where
  -- Whether `applyUrlParams` throws: it resets the instance where localStorage refuses.
  unfoldable pub apply_throws : Option String → Option String → ApiConfig → Bool
  unfolding parse_from_url_params is_default_instance
  apply_throws instance_param token c =
      let p = parse_from_url_params protocol_of instance_param token in
      is_some p.token
      && not (is_some p.instance_url)
      && not (is_default_instance c)
      && not (is_some c.storage)

  unfoldable pub initialize_app : Startup → Startup
  unfolding apply_url_params
  initialize_app w =
      let (c, applied) = apply_url_params protocol_of w.instance_param w.token_param w.config in
      let w' = record w { config = c } in
      record (if apply_throws w.instance_param w.token_param w.config
        then w'
        else sign_in applied.token w') { is_initializing = false }

pub data Page : Type 0 where
  home login forgot_password reset_password invite pricing terms privacy welcome chat : Page
  agent_settings dashboard tunnel_dashboard pair_instance profile billing integrations : Page

-- `protected` is whether the element stands in a ProtectedRoute.
pub record Route : Type 0 where
  pub path : String
  pub protected : Bool
  pub page : Page

abbrev public_route : String → Page → Route
public_route path page = record { path = path; protected = false; page = page }

abbrev protected_route : String → Page → Route
protected_route path page = record { path = path; protected = true; page = page }

abbrev pub routes : List Route
routes =
    public_route "/" home
    ∷ public_route "/login" login
    ∷ public_route "/forgot-password" forgot_password
    ∷ public_route "/reset-password" reset_password
    ∷ public_route "/invite" invite
    ∷ public_route "/pricing" pricing
    ∷ public_route "/terms" terms
    ∷ public_route "/privacy" privacy
    ∷ protected_route "/welcome" welcome
    ∷ protected_route "/chat" chat
    ∷ protected_route "/chat/dm/:dmId" chat
    ∷ protected_route "/agents/:agentId/settings" agent_settings
    ∷ protected_route "/dashboard" dashboard
    ∷ protected_route "/dashboard/tunnel" tunnel_dashboard
    ∷ protected_route "/pair-instance" pair_instance
    ∷ protected_route "/settings/profile" profile
    ∷ protected_route "/settings/billing" billing
    ∷ protected_route "/settings/integrations" integrations
    ∷ []

-- What is rendered: nothing where no route matches.
pub data View : Type 0 where
  loading nothing : View
  shows : Page → View
  navigates : String → View

-- ProtectedRoute, and a route without it.
abbrev pub element : Bool → Route → View
element signed_in r =
    if r.protected then (if signed_in then shows r.page else navigates "/login") else shows r.page

module _ (matched : List String → String → Option String) where
  unfoldable pub view_at : Bool → String → View
  view_at signed_in path = elim (matched (map (λ r. r.path) routes) path) [
    | none ↦ nothing
    | some pattern ↦ elim (find (λ r. str_eq r.path pattern) routes) [
      | none ↦ nothing
      | some r ↦ element signed_in r
    ]
  ]

  -- The Navigate of an automatic login, which stays in what App renders.
  abbrev pub redirect : Startup → List View
  redirect w = elim w.auto_login_redirect [ none ↦ [] | some target ↦ navigates target ∷ [] ]

  -- What App renders at a path: the loading screen, or the redirect beside the routes. `signed_in` is
  -- what AuthService.isAuthenticated answers to the guards.
  unfoldable pub app : Bool → String → Startup → List View
  unfolding view_at
  app signed_in path w =
      if w.is_initializing then loading ∷ [] else redirect w ++ view_at signed_in path ∷ []

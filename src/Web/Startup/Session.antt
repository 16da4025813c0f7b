-- ===== src/Web/Startup/Session.antt =====
-- Who is signed in behind the start, and what App renders then.
use agentunited.Prelude.{
  ℕ, String, Bool, true, false, not, Option, none, some, List, [], ◌∷◌, map, ◌≡◌, refl, ◌≢◌, ◌∙◌,
  sym, ap, inl, inr, arith, str_eq, eq_iff, eq_refl, if◌then◌else◌, Option-cases,
}
use agentunited.Prelude.Dict.{Dict, lookup-insert}
use agentunited.Prelude.Js.{Value}
use agentunited.Web.Config.{ApiConfig, present, apply_url_params, storage_key}
use agentunited.Web.Config.Laws.{apply_url_params_lem}
use agentunited.Web.Config.Storage.{stored, apply_url_params_keeps}
use agentunited.Web.Auth.{
  get_token, set_token, auto_login, is_valid_jwt_format, is_token_expired, is_authenticated,
}
use agentunited.Web.Startup.{
  Startup, sign_in, apply_throws, initialize_app, chat, login, routes, shows, navigates, view_at,
  app,
}

-- The token that signs in: not empty, and in three parts.
abbrev pub jwt_of : Option String → Option String
jwt_of token = elim (present token) [
  | none ↦ none
  | some t ↦ if is_valid_jwt_format t then some t else none
]

get_token-stored : (c : ApiConfig) → get_token c.storage ≡ stored "auth-token" c
unfolding get_token
get_token-stored c = ground arith

-- What the handling of a token does where localStorage works.
sign_in_lem :
    (token : Option String) (d : Dict String) (w : Startup)
    → w.config.storage ≡ some d
    → (get_token (sign_in (present token) w).config.storage
        ≡ elim (jwt_of token) [ none ↦ get_token w.config.storage | some t ↦ some t ])
      × ((sign_in (present token) w).auto_login_redirect
          ≡ elim (jwt_of token) [ none ↦ w.auto_login_redirect | some t ↦ some "/chat" ])
      × ((sign_in (present token) w).token_param
          ≡ elim (jwt_of token) [ none ↦ w.token_param | some t ↦ none ])
unfolding sign_in auto_login set_token get_token
sign_in_lem token d w stored_in = elim (Option-cases (present token)) [
  | inl e ↦ ground (arith, e)
  | inr (t, e) ↦
      ground
        (arith, e, stored_in, eq_refl "auth-token", lookup-insert "auth-token" "auth-token" t d)
]

not_empty : (t : String) → t ≢ "" → str_eq t "" ≡ false
not_empty t ne = ground (arith, eq_iff t "")

if-not :
    (b : Bool)
    → (if not b then shows chat else navigates "/login")
      ≡ (if b then navigates "/login" else shows chat)
if-not true = refl
if-not false = refl

jwt-not-empty : (token : Option String) (t : String) → jwt_of token ≡ some t → t ≢ ""
jwt-not-empty none t e = ground (arith, e)
jwt-not-empty (some s) t e = ground (arith, e, eq_iff s "")

module _ (protocol_of : String → Option String) where
  abbrev configured : Startup → ApiConfig
  configured w = (apply_url_params protocol_of w.instance_param w.token_param w.config).0

  configured-storage :
      (d : Dict String) (w : Startup)
      → w.config.storage ≡ some d
      → (d' : Dict String) × ((configured w).storage ≡ some d')
  configured-storage d w works =
      let kept =
        (apply_url_params_keeps protocol_of "auth-token" w.instance_param w.token_param w.config
          (ground (arith, eq_iff storage_key "auth-token"))).1 in
      elim (Option-cases (configured w).storage) [
        | inl e ↦ absurd (ground (arith, kept, e, works))
        | inr found ↦ found
      ]

  configured-get_token :
      (w : Startup) → get_token (configured w).storage ≡ get_token w.config.storage
  configured-get_token w =
      let kept =
        (apply_url_params_keeps protocol_of "auth-token" w.instance_param w.token_param w.config
          (ground (arith, eq_iff storage_key "auth-token"))).0 in
      get_token-stored (configured w) ∙ kept ∙ sym (get_token-stored w.config)

  started :
      (d : Dict String) (w : Startup)
      → w.config.storage ≡ some d
      → initialize_app protocol_of w
        ≡ record (sign_in (present w.token_param) (record w { config = configured w })) {
          is_initializing = false;
        }
  unfolding initialize_app apply_throws
  started d w works =
      let (a, b, c, handed) =
        apply_url_params_lem protocol_of w.instance_param w.token_param w.config in
      ground (arith, works, handed)

  -- Where localStorage works, the start signs in with the token of the address exactly if it is not
  -- empty and has three parts: it replaces the stored one, leaves the address, and the chat is
  -- opened. Otherwise, as with the token of an invite, the session, the address and the page
  -- stay as they were. Either way the loading screen goes away.
  pub initialize_app_lem :
      (d : Dict String) (w : Startup)
      → w.config.storage ≡ some d
      → (get_token (initialize_app protocol_of w).config.storage
          ≡ elim (jwt_of w.token_param) [ none ↦ get_token w.config.storage | some t ↦ some t ])
        × ((initialize_app protocol_of w).auto_login_redirect
            ≡ elim (jwt_of w.token_param) [ none ↦ w.auto_login_redirect | some t ↦ some "/chat" ])
        × ((initialize_app protocol_of w).token_param
            ≡ elim (jwt_of w.token_param) [ none ↦ w.token_param | some t ↦ none ])
        × ((initialize_app protocol_of w).is_initializing ≡ false)
  initialize_app_lem d w works =
      let w' : Startup = record w { config = configured w } in
      let (d', works') = configured-storage d w works in
      let (token, redirect, left) = sign_in_lem w.token_param d' w' works' in
      let same =
        ap (λ old. elim (jwt_of w.token_param) [ none ↦ old | some t ↦ some t ])
          (configured-get_token w) in
      rw (started d w works) (token ∙ same, redirect, left, refl)

module _ (protocol_of : String → Option String) (atob : String → Option String)
    (decode : String → Option Value) (to_number : Value → Option ℕ)
    (matched : List String → String → Option String) where
  is_authenticated-not_expired :
      (now : ℕ) (t : String) (storage : Option (Dict String))
      → get_token storage ≡ some t
      → t ≢ ""
      → is_authenticated atob decode to_number now storage
        ≡ not (is_token_expired atob decode to_number now t)
  unfolding is_authenticated
  is_authenticated-not_expired now t storage found ne =
      rw (found, is_authenticated) (rw (not_empty t ne) refl)

  redirected :
      (signed_in : Bool) (path : String) (w : Startup)
      → w.is_initializing ≡ false
      → w.auto_login_redirect ≡ some "/chat"
      → app matched signed_in path w ≡ navigates "/chat" ∷ view_at matched signed_in path ∷ []
  unfolding app
  redirected signed_in path w over redirect = rw over (rw redirect refl)

  view_at-login :
      (signed_in : Bool)
      → matched (map (λ r. r.path) routes) "/login" ≡ some "/login"
      → view_at matched signed_in "/login" ≡ shows login
  unfolding view_at
  view_at-login signed_in picks = rw (picks, view_at) refl

  view_at-chat :
      (signed_in : Bool)
      → matched (map (λ r. r.path) routes) "/chat" ≡ some "/chat"
      → view_at matched signed_in "/chat" ≡ (if signed_in then shows chat else navigates "/login")
  unfolding view_at
  view_at-chat signed_in picks = rw (picks, view_at) refl

  -- With a token in the address that is not empty and has three parts, where localStorage works and
  -- whoever was signed in, App renders at every path the redirect to the chat beside the page of
  -- that path. At the chat it shows the chat, unless the token has ended: then the guard sends to the
  -- login, where App renders the redirect to the chat beside the login. The router has to pick the
  -- routes "/chat" and "/login" for these paths.
  pub app-token :
      (now : ℕ) (t : String) (d : Dict String) (w : Startup)
      → matched (map (λ r. r.path) routes) "/chat" ≡ some "/chat"
      → matched (map (λ r. r.path) routes) "/login" ≡ some "/login"
      → w.config.storage ≡ some d
      → jwt_of w.token_param ≡ some t
      → let w' = initialize_app protocol_of w in
        let signed_in = is_authenticated atob decode to_number now w'.config.storage in
        ((path : String)
          → app matched signed_in path w' ≡ navigates "/chat" ∷ view_at matched signed_in path ∷ [])
        × (app matched signed_in "/chat" w'
            ≡ navigates "/chat"
              ∷ (if is_token_expired atob decode to_number now t
                  then navigates "/login"
                  else shows chat)
              ∷ [])
        × (app matched signed_in "/login" w' ≡ navigates "/chat" ∷ shows login ∷ [])
  app-token now t d w picks picks_login works given =
      let w' : Startup = initialize_app protocol_of w in
      let signed_in : Bool = is_authenticated atob decode to_number now w'.config.storage in
      let (token, redirect, left, over) = initialize_app_lem protocol_of d w works in
      let signed : signed_in ≡ not (is_token_expired atob decode to_number now t) =
        is_authenticated-not_expired now t w'.config.storage (ground (arith, token, given))
          (jwt-not-empty w.token_param t given) in
      let at : (path : String)
          → app matched signed_in path w'
            ≡ navigates "/chat" ∷ view_at matched signed_in path ∷ [] =
        λ path. redirected signed_in path w' over (ground (arith, redirect, given)) in
      let seen : view_at matched signed_in "/chat" ≡ (
          if is_token_expired atob decode to_number now t then navigates "/login" else shows chat) =
        view_at-chat signed_in picks
        ∙ ap (λ b. if b then shows chat else navigates "/login") signed
        ∙ if-not (is_token_expired atob decode to_number now t) in
      (
        at,
        at "/chat" ∙ ap (λ v. navigates "/chat" ∷ v ∷ []) seen,
        at "/login" ∙ ap (λ v. navigates "/chat" ∷ v ∷ []) (view_at-login signed_in picks_login),
      )

-- ===== src/Web/Startup/Guards.antt =====
-- The pages that a visitor sees who is not signed in.
use agentunited.Prelude.{
  String, Bool, true, false, Option, none, some, List, map, ◌≡◌, refl, inl, inr, str_eq, find,
  Option-cases, Bool-cases, [], ◌∷◌, any, not, arith,
}
use agentunited.Web.Startup.{
  Page, home, login, forgot_password, reset_password, invite, pricing, terms, privacy, Route,
  routes, View, shows, nothing, navigates, view_at, element,
}

abbrev pub is_public : Page → Bool
is_public home = true
is_public login = true
is_public forgot_password = true
is_public reset_password = true
is_public invite = true
is_public pricing = true
is_public terms = true
is_public privacy = true
is_public _ = false

abbrev pub is_open : View → Bool
is_open (shows page) = is_public page
is_open (navigates path) = str_eq path "/login"
is_open _ = true

found-is_open :
    (p : Route → Bool) (rs : List Route)
    → any (λ r. not (is_open (element false r))) rs ≡ false
    → is_open (elim (find p rs) [ none ↦ nothing | some r ↦ element false r ]) ≡ true
found-is_open p [] safe = refl
found-is_open p (r ∷ rs) safe = elim (Bool-cases (p r)) [
  | inl e ↦ rw e (ground (arith, safe))
  | inr e ↦ rw e (found-is_open p rs (ground (arith, safe)))
]

module _ (matched : List String → String → Option String) where
  -- Whatever path is opened and whatever route the router picks for it, who is not signed in sees a
  -- public page or nothing, or is sent to the login: never a page of the workspace.
  pub view_at-is_open : (path : String) → is_open (view_at matched false path) ≡ true
  unfolding view_at
  view_at-is_open path = elim (Option-cases (matched (map (λ r. r.path) routes) path)) [
    | inl e ↦ rw (e, view_at) refl
    | inr (pattern, e) ↦ rw (e, view_at) (found-is_open (λ r. str_eq r.path pattern) routes refl)
  ]

-- ===== src/Web/Auth/Expiry.antt =====
-- When a user counts as signed in.
use agentunited.Prelude.{
  ℕ, ◌*◌, ◌<◌, String, true, false, Option, none, some, ◌≡◌, refl, ◌≢◌, ◌↔◌, arith, eq_iff, eq_refl,
  if◌then◌else◌, Option-cases, inl, inr,
}
use agentunited.Prelude.Dict.{Dict, lookup, lookup-insert, lookup-delete}
use agentunited.Prelude.Js.{Value, get, truthy}
use agentunited.Web.Auth.{
  Storage, set_token, get_token, remove_token, auto_login, logout, is_valid_jwt_format,
  parse_jwt_payload, is_token_expired, is_authenticated, payload_part,
}

-- Signing in with a token of three parts stores it where the browser lets it, and any other token
-- is refused with the storage left as it was.
auto_login_lem :
    (token : String) (d : Dict String)
    → (is_valid_jwt_format token ≡ true
        → ((auto_login token (some d)).1.success ≡ true)
          × (get_token (auto_login token (some d)).0 ≡ some token))
      × (is_valid_jwt_format token ≡ false
          → ((auto_login token (some d)).1.success ≡ false)
            × ((auto_login token (some d)).0 ≡ some d))
unfolding auto_login set_token get_token
auto_login_lem token d = (
  λ fine.
      ground (arith, fine, eq_refl "auth-token", lookup-insert "auth-token" "auth-token" token d),
  λ bad. ground arith,
)

module _ (atob : String → Option String) (decode : String → Option Value)
    (to_number : Value → Option ℕ) where
  -- The time at which a token ends, if its payload gives one that is a number.
  abbrev pub ends_at : String → Option ℕ
  ends_at token =
      let exp = get "exp" (parse_jwt_payload atob decode token) in
      if truthy exp then to_number exp else none

  ends_at_unexpired :
      (now t : ℕ) (token : String)
      → is_token_expired atob decode to_number now token ≡ false
      → ends_at token ≡ some t
      → now < t * 1000
  unfolding is_token_expired
  ends_at_unexpired now t token fresh e = ground arith

  unexpired_of_ends_at :
      (now : ℕ) (token : String)
      → ((t : ℕ) → ends_at token ≡ some t → now < t * 1000)
      → is_token_expired atob decode to_number now token ≡ false
  unfolding is_token_expired
  unexpired_of_ends_at now token h = elim (Option-cases (ends_at token)) [
    | inl endless ↦ ground (arith, endless)
    | inr (t, e) ↦ ground (arith, e, h t e)
  ]

  -- A user is signed in exactly if a token that is not empty is stored and the present is before
  -- the end that its payload gives; a token whose payload gives no end never ends.
  pub is_authenticated_iff :
      (now : ℕ) (s : Storage)
      → (is_authenticated atob decode to_number now s ≡ true) ↔ (
          (token : String) × (get_token s ≡ some token)
          × (token ≢ "")
          × ((t : ℕ) → ends_at token ≡ some t → now < t * 1000))
  unfolding is_authenticated
  is_authenticated_iff now s = (
    λ h. elim (Option-cases (get_token s)) [
      | inl missing ↦ absurd (ground arith)
      | inr (token, found) ↦ (
        token,
        found,
        ground (arith, eq_iff token ""),
        λ t e. ends_at_unexpired now t token (ground arith) e,
      )
    ],
    λ (token, found, ne, later).
        ground (arith, found, eq_iff token "", unexpired_of_ends_at now token later),
  )

  -- After a logout nobody is signed in, at any time.
  is_authenticated-logout :
      (now : ℕ) (s : Storage) → is_authenticated atob decode to_number now (logout s) ≡ false
  unfolding is_authenticated logout remove_token get_token
  is_authenticated-logout now none = refl
  is_authenticated-logout now (some d) =
      ground (arith, eq_refl "auth-token", lookup-delete "auth-token" "auth-token" d)

  -- A stored token that cannot be read, whose payload is no base64 or no JSON or that has not three
  -- parts, counts as one that has not expired: the user is signed in at any time.
  pub unreadable_token_passes :
      (now : ℕ) (token : String) (d : Dict String)
      → lookup "auth-token" d ≡ some token
      → token ≢ ""
      → ((text : String)
          → is_valid_jwt_format token ≡ true
          → atob (payload_part token) ≡ some text
          → decode text ≡ none)
      → is_authenticated atob decode to_number now (some d) ≡ true
  unfolding is_authenticated get_token is_token_expired parse_jwt_payload
  unreadable_token_passes now token d stored ne unreadable =
      elim (Option-cases (atob (payload_part token))) [
        | inl e ↦ ground (arith, stored, e, eq_iff token "")
        | inr (text, e) ↦ ground (arith, stored, e, eq_iff token "", unreadable text)
      ]

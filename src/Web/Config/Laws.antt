-- ===== src/Web/Config/Laws.antt =====
-- The instance that the page talks to.
use agentunited.Prelude.{
  String, true, false, Option, none, some, ◌≡◌, refl, sym, subst, ◌≢◌, inl, inr, arith, eq_iff,
  is_some, Option-cases,
}
use agentunited.Prelude.Dict.{Dict, insert, lookup-insert, lookup-delete}
use agentunited.Web.Config.{
  ApiConfig, strip_slash, present, save_instance_url, reset_to_default, is_default_instance,
  is_valid_url, load_instance_url, make, set_base_url, parse_from_url_params, apply_url_params,
  UrlParams, use_default, use_instance, storage_key,
}

module _ (protocol_of : String → Option String) where
  -- Where the browser stores values, a URL that was set is the one that the next visit starts with,
  -- and after a reset the next visit starts with the default one. (The URL without its last slash
  -- has to be valid too, and not empty.)
  pub make-set_base_url :
      (url : String) (d : Dict String) (c c' : ApiConfig)
      → c.storage ≡ some d
      → set_base_url protocol_of url c ≡ some c'
      → is_valid_url protocol_of (strip_slash url) ≡ true
      → strip_slash url ≢ ""
      → ((make protocol_of c'.storage).instance_url ≡ strip_slash url)
        × (c'.instance_url ≡ strip_slash url)
        × ((make protocol_of (reset_to_default c').0.storage).instance_url ≡ "")
  unfolding make load_instance_url set_base_url save_instance_url reset_to_default
  make-set_base_url url d c c' stored done fine ne = ground (
    arith,
    stored,
    eq_iff (strip_slash url) "",
    lookup-insert storage_key storage_key (strip_slash url) d,
    lookup-delete storage_key storage_key (insert storage_key (strip_slash url) d),
  )

  apply_url :
      (url : String) (token : Option String) (c : ApiConfig)
      → is_valid_url protocol_of url ≡ true
      → url ≢ c.instance_url
      → let r =
          use_default protocol_of
            (record { instance_url = some url; token = token })
            (use_instance protocol_of (some url) c) in
        (r.0.instance_url ≡ strip_slash url) × (r.1 ≡ true)
  unfolding set_base_url save_instance_url
  apply_url url none c fine other = ground (arith, eq_iff url c.instance_url)
  apply_url url (some t) c fine other = ground (arith, eq_iff url c.instance_url)

  apply_token :
      (t : String) (c : ApiConfig)
      → (use_default protocol_of
          (record { instance_url = none; token = some t })
          (c, false)).0.instance_url
        ≡ ""
  unfolding is_default_instance reset_to_default
  apply_token t c = ground (arith, eq_iff c.instance_url "")

  apply_unchanged :
      (p : UrlParams) (c : ApiConfig)
      → (use_default protocol_of p (use_instance protocol_of p.instance_url c)).1 ≡ false
      → (use_default protocol_of p (use_instance protocol_of p.instance_url c)).0 ≡ c
  unfolding set_base_url
  apply_unchanged p c = ground arith

  parsed_url :
      (url : String) (instance_param token : Option String)
      → instance_param ≡ some url
      → url ≢ ""
      → is_valid_url protocol_of url ≡ true
      → parse_from_url_params protocol_of instance_param token
        ≡ record { instance_url = some url; token = present token }
  unfolding parse_from_url_params
  parsed_url url instance_param token given ne fine = ground (arith, eq_iff url "")

  parsed_token :
      (t : String) (instance_param token : Option String)
      → (parse_from_url_params protocol_of instance_param token).instance_url ≡ none
      → present token ≡ some t
      → parse_from_url_params protocol_of instance_param token
        ≡ record { instance_url = none; token = some t }
  unfolding parse_from_url_params
  parsed_token t instance_param token missing e =
      λ i. record { instance_url = missing i; token = e i }

  -- The query of the page decides the instance: a valid URL in it is used, without its last slash
  -- where it is not the current one; a token without a valid URL leads back to the default
  -- instance; where `instanceChanged` is false nothing has changed; and the token of the query is
  -- handed on, unless it is empty.
  pub apply_url_params_lem :
      (instance_param token : Option String) (c : ApiConfig)
      → ((url : String)
          → instance_param ≡ some url
          → url ≢ ""
          → is_valid_url protocol_of url ≡ true
          → url ≢ c.instance_url
          → ((apply_url_params protocol_of instance_param token c).0.instance_url ≡ strip_slash url)
            × ((apply_url_params protocol_of instance_param token c).1.instance_changed ≡ true))
        × ((parse_from_url_params protocol_of instance_param token).instance_url ≡ none
            → is_some (present token) ≡ true
            → (apply_url_params protocol_of instance_param token c).0.instance_url ≡ "")
        × ((apply_url_params protocol_of instance_param token c).1.instance_changed ≡ false
            → (apply_url_params protocol_of instance_param token c).0 ≡ c)
        × ((apply_url_params protocol_of instance_param token c).1.token ≡ present token)
  unfolding apply_url_params parse_from_url_params
  apply_url_params_lem instance_param token c =
      let p : UrlParams = parse_from_url_params protocol_of instance_param token in
      (
        λ url given ne fine other.
            let same = parsed_url url instance_param token given ne fine in
            subst
              (λ q.
                ((use_default protocol_of q
                    (use_instance protocol_of q.instance_url c)).0.instance_url
                  ≡ strip_slash url)
                × ((use_default protocol_of q (use_instance protocol_of q.instance_url c)).1
                    ≡ true))
              (sym same) (apply_url url (present token) c fine other),
        λ missing has. elim (Option-cases (present token)) [
          | inl e ↦ ground (arith, has, e)
          | inr (t, e) ↦
              subst
                (λ q.
                  (use_default protocol_of q
                    (use_instance protocol_of q.instance_url c)).0.instance_url
                  ≡ "")
                (sym (parsed_token t instance_param token missing e)) (apply_token t c)
        ],
        apply_unchanged p c,
        refl,
      )

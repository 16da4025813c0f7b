-- ===== src/Web/Config/Storage.antt =====
-- What the configuration leaves alone in localStorage.
use agentunited.Prelude.{
  String, Bool, Option, none, some, ◌≡◌, refl, ◌≢◌, ◌∙◌, inl, inr, arith, eq_iff, is_some,
  Option-cases,
}
use agentunited.Prelude.Dict.{lookup, lookup-insert, lookup-delete}
use agentunited.Web.Config.{
  ApiConfig, UrlParams, strip_slash, save_instance_url, reset_to_default, is_default_instance,
  set_base_url, parse_from_url_params, apply_url_params, use_instance, use_default, storage_key,
}

-- What localStorage gives for a key.
abbrev pub stored : String → ApiConfig → Option String
stored key c = elim c.storage [ none ↦ none | some d ↦ lookup key d ]

module _ (protocol_of : String → Option String) where
  use_instance_keeps :
      (key : String) (url : Option String) (c : ApiConfig)
      → storage_key ≢ key
      → (stored key (use_instance protocol_of url c).0 ≡ stored key c)
        × (is_some (use_instance protocol_of url c).0.storage ≡ is_some c.storage)
  unfolding set_base_url save_instance_url
  use_instance_keeps key none c ne = (refl, refl)
  use_instance_keeps key (some url) c ne = elim (Option-cases c.storage) [
    | inl e ↦ ground (arith, e)
    | inr (d, e) ↦
        ground (arith, e, eq_iff storage_key key, lookup-insert storage_key key (strip_slash url) d)
  ]

  use_default_keeps :
      (key : String) (p : UrlParams) (c : ApiConfig) (changed : Bool)
      → storage_key ≢ key
      → (stored key (use_default protocol_of p (c, changed)).0 ≡ stored key c)
        × (is_some (use_default protocol_of p (c, changed)).0.storage ≡ is_some c.storage)
  unfolding reset_to_default is_default_instance
  use_default_keeps key p c changed ne = elim (Option-cases c.storage) [
    | inl e ↦ ground (arith, e)
    | inr (d, e) ↦ ground (arith, e, eq_iff storage_key key, lookup-delete storage_key key d)
  ]

  -- The parameters of the address change no other key of localStorage.
  pub apply_url_params_keeps :
      (key : String) (instance_param token : Option String) (c : ApiConfig)
      → storage_key ≢ key
      → (stored key (apply_url_params protocol_of instance_param token c).0 ≡ stored key c)
        × (is_some (apply_url_params protocol_of instance_param token c).0.storage
            ≡ is_some c.storage)
  unfolding apply_url_params
  apply_url_params_keeps key instance_param token c ne =
      let p : UrlParams = parse_from_url_params protocol_of instance_param token in
      let (a, b) = use_instance_keeps key p.instance_url c ne in
      let r = use_instance protocol_of p.instance_url c in
      let (a', b') = use_default_keeps key p r.0 r.1 ne in (a' ∙ a, b' ∙ b)

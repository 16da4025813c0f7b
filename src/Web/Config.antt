-- ===== src/Web/Config.antt =====
-- ApiConfig of apps/web/src/services/apiConfig.ts. localStorage is a dictionary, or `none` where the
-- browser refuses every access to it, which throws. `protocol_of` is `new URL(url).protocol`, with
-- `none` where the constructor throws.
pub mod Laws
pub mod Storage
mod Tests
use Prim.Native.Char.{Char, code}
use Prim.Native.String.{[], ◌∷◌}
use agentunited.Prelude.{
  String, Bool, true, false, not, ◌&&◌, ◌||◌, Option, none, some, ◌==◌, str_eq, if◌then◌else◌,
}
use agentunited.Prelude.Dict.{Dict, lookup, insert, delete}

abbrev pub storage_key : String
storage_key = "agentunited_instance_url"

abbrev pub default_instance_url : String
default_instance_url = ""

pub record ApiConfig : Type 0 where
  pub instance_url : String
  pub storage : Option (Dict String)

-- replace(/\/$/, '')
unfoldable pub strip_slash : String → String
strip_slash [] = []
strip_slash (c ∷ s) =
    let rest = strip_slash s in
    if str_eq s "" then (if code c == b'/' then [] else c ∷ []) else c ∷ rest

-- What `parseFromUrlParams` and `applyUrlParams` return.
pub record UrlParams : Type 0 where
  pub instance_url : Option String
  pub token : Option String

pub record Applied : Type 0 where
  pub instance_changed : Bool
  pub token : Option String

-- A parameter that is missing or empty is falsy.
abbrev pub present : Option String → Option String
present none = none
present (some s) = if str_eq s "" then none else some s

unfoldable pub save_instance_url : String → ApiConfig → ApiConfig
save_instance_url url c = record c {
  storage = elim c.storage [ none ↦ none | some d ↦ some (insert storage_key url d) ];
}

-- The Boolean says that removing the key threw, after the URL was reset.
unfoldable pub reset_to_default : ApiConfig → ApiConfig × Bool
reset_to_default c = elim c.storage [
  | none ↦ (record c { instance_url = default_instance_url }, true)
  | some d ↦
      (record { instance_url = default_instance_url; storage = some (delete storage_key d) }, false)
]

unfoldable pub is_default_instance : ApiConfig → Bool
is_default_instance c = str_eq c.instance_url default_instance_url

module _ (protocol_of : String → Option String) where
  unfoldable pub is_valid_url : String → Bool
  is_valid_url url = elim (protocol_of url) [
    | none ↦ false
    | some p ↦ str_eq p "http:" || str_eq p "https:"
  ]

  pub load_instance_url : Option (Dict String) → String
  unfolding is_valid_url
  load_instance_url storage = elim storage [
    | none ↦ default_instance_url
    | some d ↦ elim (present (lookup storage_key d)) [
      | none ↦ default_instance_url
      | some stored ↦ if is_valid_url stored then stored else default_instance_url
    ]
  ]

  pub make : Option (Dict String) → ApiConfig
  unfolding load_instance_url
  make storage = record { instance_url = load_instance_url storage; storage = storage }

  -- `none` where the URL is refused.
  unfoldable pub set_base_url : String → ApiConfig → Option ApiConfig
  unfolding is_valid_url save_instance_url
  set_base_url url c =
      if is_valid_url url
      then some (save_instance_url (strip_slash url) (record c { instance_url = strip_slash url }))
      else none

  unfoldable pub parse_from_url_params : Option String → Option String → UrlParams
  unfolding is_valid_url
  parse_from_url_params instance_param token = record {
    instance_url = elim (present instance_param) [
      | none ↦ none
      | some url ↦ if is_valid_url url then some url else none
    ];
    token = present token;
  }

  -- The first step of `applyUrlParams`: the URL of the parameters, if it is another one.
  abbrev use_instance : Option String → ApiConfig → ApiConfig × Bool
  use_instance none c = (c, false)
  use_instance (some url) c =
      if str_eq url c.instance_url
      then (c, false)
      else elim (set_base_url url c) [ none ↦ (c, false) | some c' ↦ (c', true) ]

  -- The second step: a token without a URL goes to the default instance.
  abbrev use_default : UrlParams → ApiConfig × Bool → ApiConfig × Bool
  use_default p (c, changed) = elim p.token [
    | none ↦ (c, changed)
    | some token ↦ elim p.instance_url [
      | some url ↦ (c, changed)
      | none ↦ if is_default_instance c then (c, changed) else ((reset_to_default c).0, true)
    ]
  ]

  -- Where localStorage is refused, the reset throws out of this function; the state is the same.
  unfoldable pub apply_url_params : Option String → Option String → ApiConfig → ApiConfig × Applied
  unfolding parse_from_url_params set_base_url is_default_instance reset_to_default
  apply_url_params instance_param token c =
      let p = parse_from_url_params instance_param token in
      let (c', changed) = use_default p (use_instance p.instance_url c) in
      (c', record { instance_changed = changed; token = p.token })

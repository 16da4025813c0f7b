-- ===== src/Sdk/Rest.antt =====
-- AgentUnitedClient of packages/typescript/src/rest.ts: the request that each resource method makes,
-- and what it makes of the response. Parameters stand for the platform: `resolve` is `new URL` with
-- a base, `parse` is `new URL` of the base address, `decode` is JSON.parse. The promise of a method
-- is an `Outcome`. Fields of RequestInit that are passed through to fetch are left out.
pub mod Headers
pub mod Responses
mod Tests
use Prim.Native.String
use agentunited.Prelude.{
  ℕ, String, Bool, true, false, not, ◌&&◌, Option, none, some, List, [], ◌∷◌, str_eq, if◌then◌else◌,
  is_some,
}
use agentunited.Prelude.Dict.{Dict, lookup, insert}
use agentunited.Prelude.Js.{
  Value, undefined, null, str, arr, obj, Items, empty_items, Fields, field, no_fields, field_of,
}
use agentunited.Sdk.Url.{Url, strip_leading, normalize_base_url, set_param}

pub data HttpMethod : Type 0 where
  get_method post_method patch_method delete_method : HttpMethod

pub record ClientOptions : Type 0 where
  pub base_url : String
  pub api_key : Option String
  pub headers : Dict String

-- A query value is its text, or `none` for undefined.
pub record RequestOptions : Type 0 where
  pub query : Dict (Option String)
  pub headers : Dict String

pub record Mapping : Type 0 where
  pub unwrap : String
  pub default_value : Option Value

-- A resource method's call of `request`.
pub record Call : Type 0 where
  pub method : HttpMethod
  pub path : String
  pub body : Option Value
  pub mapping : Option Mapping

pub record HttpRequest : Type 0 where
  pub method : HttpMethod
  pub url : Url
  pub headers : Dict String
  pub body : Option Value

-- `ok` is the platform's flag for a status of 200 to 299.
pub record HttpResponse : Type 0 where
  pub status : ℕ
  pub ok : Bool
  pub text : String

pub data Outcome : Type 0 where
  returned : Value → Outcome
  api_error : ℕ → Value → Outcome
  thrown : Outcome

abbrev no_items : Value
no_items = arr empty_items

abbrev list_of : String → Option Mapping
list_of key = some (record { unwrap = key; default_value = some no_items })

abbrev one_of : String → Option Mapping
one_of key = some (record { unwrap = key; default_value = none })

abbrev slash : String → String → String
slash a b = String.◌++◌ a (String.◌++◌ "/" b)

abbrev channel_path : String → String
channel_path id = String.◌++◌ "/channels/" id

abbrev messages_path : String → String
messages_path id = String.◌++◌ (channel_path id) "/messages"

abbrev message_path : String → String → String
message_path id message = slash (messages_path id) message

abbrev agent_path : String → String
agent_path id = String.◌++◌ "/agents/" id

-- The methods of `bootstrap`, `channels`, `messages` and `agents`.
pub bootstrap_create : Value → Call
bootstrap_create input = record {
  method = post_method;
  path = "/bootstrap";
  body = some input;
  mapping = none;
}

pub channels_list : Call
channels_list = record {
  method = get_method;
  path = "/channels";
  body = none;
  mapping = list_of "channels";
}

pub channels_create : Value → Call
channels_create input = record {
  method = post_method;
  path = "/channels";
  body = some input;
  mapping = one_of "channel";
}

pub channels_get : String → Call
channels_get id = record {
  method = get_method;
  path = channel_path id;
  body = none;
  mapping = one_of "channel";
}

pub channels_update : String → Value → Call
channels_update id input = record {
  method = patch_method;
  path = channel_path id;
  body = some input;
  mapping = one_of "channel";
}

pub channels_delete : String → Call
channels_delete id = record {
  method = delete_method;
  path = channel_path id;
  body = none;
  mapping = none;
}

-- `channels.messages`; `messages.list` makes the same call.
pub messages_list : String → Call
messages_list id = record {
  method = get_method;
  path = messages_path id;
  body = none;
  mapping = list_of "messages";
}

pub messages_create : String → Value → Call
messages_create id input = record {
  method = post_method;
  path = messages_path id;
  body = some input;
  mapping = one_of "message";
}

pub messages_update : String → String → Value → Call
messages_update id message input = record {
  method = patch_method;
  path = message_path id message;
  body = some input;
  mapping = one_of "message";
}

pub messages_delete : String → String → Call
messages_delete id message = record {
  method = delete_method;
  path = message_path id message;
  body = none;
  mapping = none;
}

pub agents_list : Call
agents_list = record {
  method = get_method;
  path = "/agents";
  body = none;
  mapping = list_of "agents";
}

pub agents_create : Value → Call
agents_create input = record {
  method = post_method;
  path = "/agents";
  body = some input;
  mapping = one_of "agent";
}

pub agents_get : String → Call
agents_get id = record {
  method = get_method;
  path = agent_path id;
  body = none;
  mapping = one_of "agent";
}

pub agents_update : String → Value → Call
agents_update id input = record {
  method = patch_method;
  path = agent_path id;
  body = some input;
  mapping = one_of "agent";
}

-- { ...a, ...b }: the entries of b are written into a.
unfoldable pub spread : Dict String → Dict String → Dict String
spread a [] = a
spread a ((k, v) ∷ b) = spread (insert k v a) b

abbrev authorize : Option String → Dict String → Dict String
authorize none hs = hs
authorize (some key) hs =
    if str_eq key "" then hs else insert "authorization" (String.◌++◌ "Bearer " key) hs

abbrev describe_body : Option Value → Dict String → Dict String
describe_body none hs = hs
describe_body (some body) hs = insert "content-type" "application/json" hs

pub headers_of : ClientOptions → RequestOptions → Option Value → Dict String
headers_of c o body = describe_body body (
    authorize c.api_key (spread (spread (("accept", "application/json") ∷ []) c.headers) o.headers))

unfoldable pub with_query : Dict (Option String) → Dict String → Dict String
with_query [] params = params
with_query ((k, none) ∷ q) params = with_query q params
with_query ((k, some v) ∷ q) params = with_query q (set_param k v params)

module _ (parse : String → Option Url) (resolve : String → Url → Option Url) where
  -- The part of `request` before fetch; `none` where a URL is refused.
  pub build_request : ClientOptions → RequestOptions → Call → Option HttpRequest
  unfolding headers_of
  build_request c o call = elim (parse c.base_url) [
    | none ↦ none
    | some base ↦ elim (resolve (strip_leading call.path) (normalize_base_url base)) [
      | none ↦ none
      | some url ↦ some (record {
        method = call.method;
        url = record url { search_params = with_query o.query url.search_params };
        headers = headers_of c o call.body;
        body = call.body;
      })
    ]
  ]

abbrev has_field : String → Fields → Bool
has_field k no_fields = false
has_field k (field j v fs) = if str_eq j k then true else has_field k fs

abbrev or_default : Value → Option Value → Value
or_default null (some d) = d
or_default v _ = v

pub unwrap_response : Value → Option Mapping → Value
unwrap_response (obj fs) (some m) =
    if not (str_eq m.unwrap "") && has_field m.unwrap fs
    then or_default (field_of m.unwrap fs) m.default_value
    else obj fs
unwrap_response v _ = v

-- parsed ?? text
abbrev or_text : Value → String → Value
or_text null text = str text
or_text undefined text = str text
or_text v text = v

module _ (decode : String → Option Value) where
  pub safe_json_parse : String → Value
  safe_json_parse text = elim (decode text) [ none ↦ str text | some v ↦ v ]

  -- `parsed`: an empty text is not parsed.
  pub parsed_text : String → Value
  unfolding safe_json_parse
  parsed_text text = if str_eq text "" then undefined else safe_json_parse text

  -- The part of `request` behind fetch, which gives no response where it throws.
  pub handle_response : Option HttpResponse → Option Mapping → Outcome
  unfolding parsed_text unwrap_response
  handle_response none mapping = thrown
  handle_response (some r) mapping =
      if r.ok
      then returned (unwrap_response (or_text (parsed_text r.text) r.text) mapping)
      else api_error r.status (or_text (parsed_text r.text) r.text)

-- `request`: `fetch` answers a request with a response, or throws.
pub request :
    (String → Option Url)
    → (String → Url → Option Url)
    → (String → Option Value)
    → (HttpRequest → Option HttpResponse)
    → ClientOptions
    → RequestOptions
    → Call
    → Outcome
unfolding build_request handle_response
request parse resolve decode fetch c o call = elim (build_request parse resolve c o call) [
  | none ↦ thrown
  | some r ↦ handle_response decode (fetch r) call.mapping
]

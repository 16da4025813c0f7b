-- ===== src/Web/Chat.antt =====
-- apps/web/src/services/chatApi.ts: the requests that the chat pages make and what they make of the
-- responses. A response's body is read at the type that the source gives it (`ApiMessage`,
-- `ApiChannel` and the objects round them). Parameters stand for the platform: `show` is the
-- decimal text of a number, `lower` toLowerCase, `is_space` and `upper` the tests behind trim and
-- toUpperCase. Promises are a `Result`; the text of a TypeError is left out.
mod Requests
pub mod Mapping
pub mod People
pub mod Errors
mod Tests
pub use Requests.{
  Method, get_method, put_method, post_method, patch_method, delete_method, Request, Body, empty,
  unreadable, json, ErrorBody, HttpResponse, Result, ok, chat_error, thrown,
}
unfoldable pub use Requests.{request_of, get_auth_headers, error_message, api_request}
use Prim.Native.Char.{Char}
use Prim.Native.String
use agentunited.Prelude.{
  ℕ, String, Bool, true, false, not, ◌&&◌, Option, none, some, List, [], ◌∷◌, map, keep, ◌==◌,
  str_eq, if◌then◌else◌,
}
use agentunited.Prelude.Dict.{Dict, lookup}
use agentunited.Prelude.Js.{Value, str, obj, no_fields, field}
use agentunited.Web.Live.Names.{get_display_name}

pub record ApiMessage : Type 0 where
  pub id : String
  pub channel_id : String
  pub author_id : String
  pub author_type : String
  pub author_email : Option String
  pub author_display_name : Option String
  pub author_name : Option String
  pub text : String
  pub created_at : String

pub record ApiChannel : Type 0 where
  pub id : String
  pub name : String
  pub display_name : Option String
  pub topic : Option String
  pub description : Option String
  pub member_count : Option ℕ
  pub unread_count : Option ℕ
  pub channel_type : Option String
  pub kind : Option String

pub data AuthorType : Type 0 where
  agent human : AuthorType

pub record Message : Type 0 where
  pub id : String
  pub channel_id : String
  pub author : String
  pub author_id : String
  pub author_type : AuthorType
  pub text : String
  pub timestamp : String
  pub is_own_message : Bool

pub record Channel : Type 0 where
  pub id : String
  pub name : String
  pub topic : String
  pub member_count : Option ℕ
  pub unread : ℕ

-- A list that is sent bare, or under its key, which may be missing.
pub data Listing {ℓ} (A : Type ℓ) : Type ℓ where
  bare : List A → Listing A
  keyed : Option (List A) → Listing A

-- a || b for a text that may be missing.
abbrev pub or_text : Option String → String → String
or_text none b = b
or_text (some a) b = if str_eq a "" then b else a

abbrev pub or_zero : Option ℕ → ℕ
or_zero none = 0
or_zero (some n) = n

-- localStorage.getItem('user-id') || 'current-user'
pub current_user : Dict String → String
current_user store = or_text (lookup "user-id" store) "current-user"

module _ (is_space : Char → Bool) (upper : Char → Char) where
  pub map_api_message : String → ApiMessage → Message
  unfolding get_display_name
  map_api_message current m = record {
    id = m.id;
    channel_id = m.channel_id;
    author = get_display_name is_space upper (
        or_text m.author_display_name (or_text m.author_name (or_text m.author_email m.author_id)));
    author_id = m.author_id;
    author_type = if str_eq m.author_type "agent" then agent else human;
    text = m.text;
    timestamp = m.created_at;
    is_own_message = if str_eq current "" then false else str_eq m.author_id current;
  }

  pub map_api_channel : ApiChannel → Channel
  unfolding get_display_name
  map_api_channel c = record {
    id = c.id;
    name = get_display_name is_space upper (or_text c.display_name c.name);
    topic = or_text c.topic (or_text c.description "");
    member_count = c.member_count;
    unread = or_zero c.unread_count;
  }

-- The filter of getChannels.
pub is_no_dm : (String → String) → ApiChannel → Bool
is_no_dm lower c =
    let type = lower (or_text c.channel_type (or_text c.kind "")) in
    not (str_eq type "dm") && not (str_eq type "direct_message")

-- A key that a response lacks is undefined; so is the response where its body is empty or no JSON,
-- and reading a key of that throws.
abbrev pub listed {ℓ} : {A : Type ℓ} → Listing A → List A
listed (bare xs) = xs
listed (keyed none) = []
listed (keyed (some xs)) = xs

infixl 5 ◌>>=◌
abbrev pub ◌>>=◌ {ℓ κ} : {A : Type ℓ} {B : Type κ} → Result A → (A → Result B) → Result B
ok a >>= f = f a
chat_error why status >>= f = chat_error why status
thrown >>= f = thrown

abbrev pub present {ℓ} : {A : Type ℓ} → Option A → Result A
present none = thrown
present (some a) = ok a

abbrev messages_endpoint : String → String
messages_endpoint channel = String.◌++◌ "/api/v1/channels/" (String.◌++◌ channel "/messages")

abbrev message_endpoint : String → String → String
message_endpoint channel message = String.◌++◌ (messages_endpoint channel) (String.◌++◌ "/" message)

abbrev channel_endpoint : String → String
channel_endpoint channel = String.◌++◌ "/api/v1/channels/" channel

abbrev text_body : String → Value
text_body text = obj (field "text" (str text) no_fields)

-- `show limit` where a limit other than 0 is given.
pub get_messages_request : (ℕ → String) → Option ℕ → String → Request
unfolding request_of
get_messages_request show limit channel =
    let query : String = elim limit [
      | none ↦ ""
      | some n ↦ if n == 0 then "" else String.◌++◌ "?limit=" (show n)
    ] in
    request_of get_method (String.◌++◌ (messages_endpoint channel) query) none

pub send_message_request : String → String → Request
unfolding request_of
send_message_request channel text =
    request_of post_method (messages_endpoint channel) (some (text_body text))

pub create_channel_request : String → Option String → Request
unfolding request_of
create_channel_request name description =
    let topic = or_text description "" in
    request_of post_method "/api/v1/channels" (
      some (
        obj (
          field "name" (str name)
            (if str_eq topic "" then no_fields else field "topic" (str topic) no_fields))))

pub edit_message_request : String → String → String → Request
unfolding request_of
edit_message_request channel message text =
    request_of patch_method (message_endpoint channel message) (some (text_body text))

pub delete_message_request : String → String → Request
unfolding request_of
delete_message_request channel message =
    request_of delete_method (message_endpoint channel message) none

pub delete_channel_request : String → Request
unfolding request_of
delete_channel_request channel = request_of delete_method (channel_endpoint channel) none

pub create_dm_request : String → Request
unfolding request_of
create_dm_request user =
    request_of post_method "/api/v1/dm" (some (obj (field "user_id" (str user) no_fields)))

pub mark_channel_read_request : String → Option String → Request
unfolding request_of
mark_channel_read_request channel last =
    let id = or_text last "" in
    request_of post_method (String.◌++◌ (channel_endpoint channel) "/read") (
      some
        (obj (if str_eq id "" then no_fields else field "last_read_message_id" (str id) no_fields)))

pub add_channel_member_request : String → String → Option String → Request
unfolding request_of
add_channel_member_request channel user role =
    request_of post_method (String.◌++◌ (channel_endpoint channel) "/members") (
      some (
        obj (
          field "user_id" (str user)
            (field "role" (str (elim role [ none ↦ "member" | some r ↦ r ])) no_fields))))

module _ (show : ℕ → String) (lower : String → String) (is_space : Char → Bool)
    (upper : Char → Char) (store : Dict String) where
  pub get_channels : Option (HttpResponse (Listing ApiChannel)) → Result (List Channel)
  unfolding api_request map_api_channel is_no_dm
  get_channels response = do
    body ← api_request show response
    ok (
        map (map_api_channel is_space upper)
          (keep (is_no_dm lower) (elim body [ none ↦ [] | some l ↦ listed l ])))

  pub get_messages : Option (HttpResponse (Listing ApiMessage)) → Result (List Message)
  unfolding api_request map_api_message current_user
  get_messages response = do
    body ← api_request show response
    l ← present body
    ok (map (map_api_message is_space upper (current_user store)) (listed l))

  -- sendMessage and editMessage; the body holds the message, if its key is there.
  pub send_message : Option (HttpResponse (Option ApiMessage)) → Result Message
  unfolding api_request map_api_message current_user
  send_message response = do
    body ← api_request show response
    kept ← present body
    m ← present kept
    ok (map_api_message is_space upper (current_user store) m)

  -- createChannel, updateChannel and createDM.
  pub create_channel : Option (HttpResponse (Option ApiChannel)) → Result Channel
  unfolding api_request map_api_channel
  create_channel response = do
    body ← api_request show response
    kept ← present body
    c ← present kept
    ok (map_api_channel is_space upper c)

  pub list_dms : Option (HttpResponse (Listing ApiChannel)) → Result (List Channel)
  unfolding api_request map_api_channel
  list_dms response = do
    body ← api_request show response
    l ← present body
    ok (map (map_api_channel is_space upper) (listed l))

-- ===== src/Web/Api.antt =====
-- apps/web/src/services/api.ts: the calls that read channels and messages and send messages, with
-- or without a file. An answer's JSON is a value as it stands; where the source reads a key of null
-- or undefined, or calls a method that a value lacks, the call fails. A text is its characters.
-- `show` is the decimal text of a number. The base URL stands in front of every path.
pub mod Answers
pub mod Sessions
mod Tests
use Prim.Native.String.{◌++◌ as ◌+++◌, count}
use agentunited.Prelude.{
  ℕ, suc, zero, ◌*◌, String, Bool, true, false, not, Option, none, some, List, [], ◌∷◌, str_eq,
  if◌then◌else◌, ◌==◌, leb,
}
use agentunited.Prelude.Dict.{Dict, lookup, insert, delete}
use agentunited.Prelude.Js.{
  Value, Items, empty_items, item, obj, arr, str, num, bool, null, undefined, no_fields, field,
  truthy, get, is_text, ◌or_else◌,
}
use agentunited.Prelude.Text.{take_text}
use agentunited.Web.Chat.{
  Request, get_method, post_method, request_of, HttpResponse, Body, empty, unreadable, json,
  get_auth_headers,
}
use agentunited.Web.Services.{Outcome, returns, throws, fails, ◌>>=◌}

-- localStorage and window.location.
pub record Browser : Type 0 where
  pub storage : Dict String
  pub location : String

-- What a call sends, what it leaves of the browser and what it comes to.
pub record Call {ℓ} (A : Type ℓ) : Type ℓ where
  pub sent : List (Request × Dict String)
  pub browser : Browser
  pub result : Outcome A

unfoldable pub end_session : Browser → Browser
end_session b = record b { storage = delete "auth-token" b.storage; location = "/login" }

-- The part of apiFetch behind the fetch; `none` is a fetch that throws.
unfoldable pub checked :
    Option (HttpResponse Value) → Browser → Browser × Outcome (HttpResponse Value)
unfolding end_session
checked none b = (b, fails)
checked (some r) b =
    if r.status == 401 then (end_session b, throws "Unauthorized") else (b, returns r)

-- apiFetch, and what the caller makes of the response.
unfoldable pub api_fetch {ℓ} :
    {A : Type ℓ}
    → Request
    → (Browser → HttpResponse Value → Outcome A)
    → Option (HttpResponse Value)
    → Browser
    → Call A
unfolding checked get_auth_headers
api_fetch request make response b =
    let done = checked response b in
    record {
      sent = (request, get_auth_headers (lookup "auth-token" b.storage)) ∷ [];
      browser = done.0;
      result = done.1 >>= make done.0;
    }

-- response.json(), where an unsuccessful response throws before it.
unfoldable pub successful : (ℕ → String) → String → HttpResponse Value → Outcome Value
successful show what r =
    if r.ok
    then elim r.body [ empty ↦ fails | unreadable ↦ fails | json v ↦ returns v ]
    else throws ("Failed to " +++ (what +++ (": " +++ show r.status)))

-- v.k
abbrev pub read : String → Value → Outcome Value
read k null = fails
read k undefined = fails
read k v = returns (get k v)

-- data.k || data
abbrev pub part_or_all : String → Value → Outcome Value
part_or_all k answer = read k answer >>= λ part. returns (part or_else answer)

unfoldable pub map_items {ℓ} : {A : Type ℓ} → (Value → Outcome A) → Items → Outcome (List A)
map_items f empty_items = returns []
map_items f (item v vs) =
    let rest = map_items f vs in f v >>= λ a. rest >>= λ made. returns (a ∷ made)

-- Array.isArray(v) ? v.map(f) : []
abbrev pub map_array {ℓ} : {A : Type ℓ} → (Value → Outcome A) → Value → Outcome (List A)
map_array f (arr vs) = map_items f vs
map_array f _ = returns []

pub record Channel : Type 0 where
  pub id : Value
  pub name : Value
  pub topic : Value
  pub member_count : Value

unfoldable pub items_length : Items → ℕ
items_length empty_items = zero
items_length (item v vs) = suc (items_length vs)

-- v?.length
abbrev pub length_of : Value → Value
length_of (arr vs) = num (items_length vs)
length_of (str s) = num (count s)
length_of v = get "length" v

unfoldable pub map_channel : Value → Outcome Channel
map_channel null = fails
map_channel undefined = fails
map_channel ch = returns record {
  id = get "id" ch or_else get "channel_id" ch;
  name = get "name" ch;
  topic = get "topic" ch or_else str "";
  member_count = get "member_count" ch or_else (length_of (get "members" ch) or_else num 0);
}

module _ (show : ℕ → String) where
  unfoldable pub fetch_channels : Option (HttpResponse Value) → Browser → Call (List Channel)
  unfolding api_fetch successful map_items map_channel request_of
  fetch_channels = api_fetch (request_of get_method "/api/v1/channels" none) λ b r.
      successful show "fetch channels" r >>= λ answer.
      part_or_all "channels" answer >>= map_array map_channel

pub record Message : Type 0 where
  pub id : Value
  pub channel_id : Value
  pub author : Value
  pub author_id : Value
  pub from_agent : Bool
  pub text : Value
  pub timestamp : Value
  pub is_own_message : Bool
  pub attachment_url : Value
  pub attachment_name : Value

-- v === getUserId(), which is null where no id is stored.
unfoldable pub is_user : Option String → Value → Bool
is_user (some user) v = is_text user v
is_user none null = true
is_user none _ = false

-- The name that the message has for its author.
abbrev pub named_author : Value → Value
named_author msg =
    get "author_display_name" msg or_else (get "author_name" msg or_else get "author_email" msg)

unfoldable pub message_by : String → Option String → Value → Value → Message
unfolding is_user
message_by channel user author msg = record {
  id = get "id" msg;
  channel_id = get "channel_id" msg or_else str channel;
  author = author;
  author_id = get "author_id" msg;
  from_agent = is_text "agent" (get "author_type" msg);
  text = get "text" msg;
  timestamp = get "created_at" msg;
  is_own_message = is_user user (get "author_id" msg);
  attachment_url = get "attachment_url" msg;
  attachment_name = get "attachment_name" msg;
}

abbrev pub take_items : ℕ → Items → Items
take_items zero vs = empty_items
take_items (suc n) empty_items = empty_items
take_items (suc n) (item v vs) = item v (take_items n vs)

-- v?.slice(0, 8)
abbrev pub slice_of : Value → Outcome Value
unfolding take_text
slice_of null = returns undefined
slice_of undefined = returns undefined
slice_of (str s) = returns (str (take_text 8 s))
slice_of (arr vs) = returns (arr (take_items 8 vs))
slice_of _ = fails

-- A name is looked for in turn, and the id is only read where there is none.
unfoldable pub author_of : Value → Outcome Value
author_of msg =
    let person = get "author" msg in
    let named = named_author msg or_else (get "display_name" person or_else get "name" person) in
    if truthy named
    then returns named
    else (slice_of (get "author_id" msg) >>= λ short. returns (short or_else str "User"))

unfoldable pub map_message : String → Option String → Value → Outcome Message
unfolding author_of message_by
map_message channel user null = fails
map_message channel user undefined = fails
map_message channel user msg =
    author_of msg >>= λ author. returns (message_by channel user author msg)

abbrev pub messages_path : String → String
messages_path channel = "/api/v1/channels/" +++ (channel +++ "/messages")

module _ (show : ℕ → String) where
  unfoldable pub fetch_messages :
      String → Option (HttpResponse Value) → Browser → Call (List Message)
  unfolding api_fetch successful map_items map_message request_of
  fetch_messages channel = api_fetch (request_of get_method (messages_path channel) none) λ b r.
      successful show "fetch messages" r >>= λ answer.
      part_or_all "messages" answer >>= map_array (map_message channel (lookup "user-id" b.storage))

-- What both calls that send a message make of the answer.
unfoldable pub sent_message : (ℕ → String) → String → Browser → HttpResponse Value → Outcome Message
unfolding successful message_by
sent_message show channel b r = successful show "send message" r >>= λ answer.
    part_or_all "message" answer >>= λ msg.
    returns
      (message_by channel (lookup "user-id" b.storage) (named_author msg or_else str "You") msg)

module _ (show : ℕ → String) where
  unfoldable pub send_message_api :
      String → String → Option (HttpResponse Value) → Browser → Call Message
  unfolding api_fetch sent_message request_of
  send_message_api channel text =
      api_fetch
        (request_of post_method (messages_path channel)
          (some (obj (field "text" (str text) no_fields))))
        (sent_message show channel)

abbrev pub max_size_bytes : ℕ
max_size_bytes = 10 * 1024 * 1024

-- The form has the text and the file, which the model does not hold; it goes without Content-Type.
pub record Upload : Type 0 where
  pub path : String
  pub headers : Dict String
  pub text : String

abbrev bearer : Option String → Dict String
bearer none = []
bearer (some t) = if str_eq t "" then [] else ("Authorization", "Bearer " +++ t) ∷ []

-- The first part is the upload that is sent, if any.
unfoldable pub send_message_with_attachment :
    (ℕ → String)
    → String
    → String
    → ℕ
    → Option (HttpResponse Value)
    → Browser
    → Option Upload × Browser × Outcome Message
unfolding checked sent_message
send_message_with_attachment show channel text size response b =
    let done = checked response b in
    let upload : Upload = record {
      path = messages_path channel;
      headers = bearer (lookup "auth-token" b.storage);
      text = text;
    } in
    if leb size max_size_bytes
    then (some upload, done.0, done.1 >>= sent_message show channel done.0)
    else (none, b, throws "File size must be less than 10MB")

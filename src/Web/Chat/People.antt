-- ===== src/Web/Chat/People.antt =====
-- The calls of apps/web/src/services/chatApi.ts that list people and counts and search messages, and
-- getWebSocketUrl. `encode` is the text of a URLSearchParams. The lists of members, agents and users
-- hold what the server sent.
use Prim.Native.String.{◌++◌ as ◌+++◌}
use Prim.Native.Char.{Char}
use agentunited.Prelude.{
  ℕ, String, Bool, Option, none, some, List, [], ◌∷◌, map, str_eq, if◌then◌else◌,
}
use agentunited.Prelude.Dict.{Dict}
use agentunited.Prelude.Js.{Fields, obj, str, field, no_fields}
use agentunited.Prelude.Text.{strip_prefix}
use agentunited.Web.Chat.{
  ApiMessage, Message, Listing, listed, Result, ok, HttpResponse, Request, request_of, get_method,
  post_method, patch_method, api_request, map_api_message, current_user, present, ◌>>=◌, or_text,
}

abbrev listed_or_none {ℓ} : {A : Type ℓ} → Option (List A) → List A
listed_or_none none = []
listed_or_none (some xs) = xs

-- The parameters q and, if it is given, channel_id.
abbrev search_params : String → Option String → Dict String
search_params query channel =
    let id = or_text channel "" in
    ("q", query) ∷ (if str_eq id "" then [] else ("channel_id", id) ∷ [])

unfoldable pub search_messages_request : (Dict String → String) → String → Option String → Request
unfolding request_of
search_messages_request encode query channel =
    request_of get_method ("/api/v1/messages/search?" +++ encode (search_params query channel)) none

-- The changes are an object of the caller's.
pub update_channel_request : String → Fields → Request
unfolding request_of
update_channel_request channel updates =
    request_of patch_method ("/api/v1/channels/" +++ channel) (some (obj updates))

pub mark_dm_read_request : String → Option String → Request
unfolding request_of
mark_dm_read_request dm last =
    let id = or_text last "" in
    request_of post_method ("/api/v1/dm/" +++ (dm +++ "/read")) (
      some
        (obj (if str_eq id "" then no_fields else field "last_read_message_id" (str id) no_fields)))

module _ (show : ℕ → String) where
  -- The key of the members may be missing.
  unfoldable pub get_members {ℓ} :
      {A : Type ℓ} → Option (HttpResponse (Option (List A))) → Result (List A)
  unfolding api_request
  get_members response = do
    body ← api_request show response
    members ← present body
    ok (listed_or_none members)

  -- getAgents and getUsers.
  unfoldable pub get_users {ℓ} : {A : Type ℓ} → Option (HttpResponse (Listing A)) → Result (List A)
  unfolding api_request
  get_users response = do body ← api_request show response; l ← present body; ok (listed l)

  -- The result `none` is undefined.
  unfoldable pub get_unread_counts {ℓ} : {A : Type ℓ} → Option (HttpResponse A) → Result (Option A)
  unfolding api_request
  get_unread_counts response = api_request show response

  module _ (is_space : Char → Bool) (upper : Char → Char) (store : Dict String) where
    unfoldable pub search_messages :
        Option (HttpResponse (Option (List ApiMessage))) → Result (List Message)
    unfolding api_request map_api_message current_user
    search_messages response = do
      body ← api_request show response
      messages ← present body
      ok (map (map_api_message is_space upper (current_user store)) (listed_or_none messages))

abbrev behind_http : String → Option String → String
behind_http url none = url
behind_http url (some rest) = "ws" +++ rest

-- The address of an instance, with http for ws where it begins so.
unfoldable pub get_web_socket_url : String → String
unfolding strip_prefix
get_web_socket_url url = behind_http url (strip_prefix "http" url) +++ "/ws"

-- ===== src/Web/Chat/Tests.antt =====
-- Requests and answers.
use Prim.Native.Char.{Char}
use agentunited.Prelude.{ℕ, String, Bool, true, false, none, some, [], ◌∷◌, ◌≡◌, refl}
use agentunited.Prelude.Dict.{Dict}
use agentunited.Prelude.Js.{str, obj, field, no_fields}
use agentunited.Web.Chat.{
  ApiMessage, ApiChannel, HttpResponse, Body, json, empty, ok, get_messages_request,
  send_message_request, create_channel_request, edit_message_request, delete_message_request,
  delete_channel_request, create_dm_request, mark_channel_read_request, add_channel_member_request,
  create_channel, map_api_channel, request_of, get_auth_headers, error_message, post_method,
  get_method, patch_method, delete_method,
}
use agentunited.Prelude.{if◌then◌else◌, length, ◌==◌}
use agentunited.Prelude.Text.{strip_prefix}
use agentunited.Web.Chat.People.{get_web_socket_url, search_messages_request}

abbrev show : ℕ → String
show n = "50"

abbrev lower : String → String
lower text = text

abbrev is_space : Char → Bool
is_space c = false

abbrev upper : Char → Char
upper c = c

abbrev browser : Dict String
browser = ("user-id", "u1") ∷ []

abbrev general : ApiChannel
general = record {
  id = "c1";
  name = "general";
  display_name = none;
  topic = none;
  description = some "all";
  member_count = some 2;
  unread_count = none;
  channel_type = none;
  kind = none;
}

abbrev dm : ApiChannel
dm = record general { id = "c2"; kind = some "dm" }

abbrev hello : ApiMessage
hello = record {
  id = "m1";
  channel_id = "c1";
  author_id = "u1";
  author_type = "human";
  author_email = none;
  author_display_name = none;
  author_name = some "Ann";
  text = "hello";
  created_at = "now";
}

abbrev answer {ℓ} : {A : Type ℓ} → Body A → HttpResponse A
answer body = record { status = 200; ok = true; body = body; error_body = none }

abbrev refusal {ℓ} : {A : Type ℓ} → HttpResponse A
refusal = record {
  status = 403;
  ok = false;
  body = empty;
  error_body = some (record { message = some ""; error = some "no" });
}

limited :
    get_messages_request show (some 50) "c1"
    ≡ request_of get_method "/api/v1/channels/c1/messages?limit=50" none
unfolding get_messages_request
limited = refl

no_limit :
    get_messages_request show (some 0) "c1"
    ≡ request_of get_method "/api/v1/channels/c1/messages" none
unfolding get_messages_request
no_limit = refl

no_topic :
    create_channel_request "a" (some "")
    ≡ request_of post_method "/api/v1/channels" (some (obj (field "name" (str "a") no_fields)))
unfolding create_channel_request
no_topic = refl

edited :
    edit_message_request "c1" "m1" "x"
    ≡ request_of patch_method "/api/v1/channels/c1/messages/m1"
        (some (obj (field "text" (str "x") no_fields)))
unfolding edit_message_request
edited = refl

dropped :
    delete_message_request "c1" "m1"
    ≡ request_of delete_method "/api/v1/channels/c1/messages/m1" none
unfolding delete_message_request
dropped = refl

sent :
    send_message_request "c1" "x"
    ≡ request_of post_method "/api/v1/channels/c1/messages"
        (some (obj (field "text" (str "x") no_fields)))
unfolding send_message_request
sent = refl

closed : delete_channel_request "c1" ≡ request_of delete_method "/api/v1/channels/c1" none
unfolding delete_channel_request
closed = refl

talked :
    create_dm_request "u2"
    ≡ request_of post_method "/api/v1/dm" (some (obj (field "user_id" (str "u2") no_fields)))
unfolding create_dm_request
talked = refl

joined :
    add_channel_member_request "c1" "u2" none
    ≡ request_of post_method "/api/v1/channels/c1/members"
        (some (obj (field "user_id" (str "u2") (field "role" (str "member") no_fields))))
unfolding add_channel_member_request
joined = refl

made :
    create_channel show lower is_space upper browser (some (answer (json (some general))))
    ≡ ok (map_api_channel is_space upper general)
unfolding create_channel
made = refl

read :
    mark_channel_read_request "c1" none
    ≡ request_of post_method "/api/v1/channels/c1/read" (some (obj no_fields))
unfolding mark_channel_read_request
read = refl

anonymous : get_auth_headers (some "") ≡ ("Content-Type", "application/json") ∷ []
unfolding get_auth_headers
anonymous = refl

error_text : error_message show 403 (some (record { message = some ""; error = some "no" })) ≡ "no"
unfolding error_message
error_text = refl

socket_url : get_web_socket_url "https://chat.example" ≡ "wss://chat.example/ws"
unfolding get_web_socket_url strip_prefix
socket_url = refl

searched :
    (search_messages_request
      (λ ps. if length ps == 2 then "q=a&channel_id=c1" else "")
      "a"
      (some "c1")).endpoint
    ≡ "/api/v1/messages/search?q=a&channel_id=c1"
unfolding search_messages_request
searched = refl

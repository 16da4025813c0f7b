-- ===== src/Web/Live/Tests.antt =====
-- The page's hook on concrete events.
use Prim.Native.Char.{Char}
use agentunited.Prelude.{◌≡◌, refl, String, Bool, true, false, some, List, [], ◌∷◌, ◌==◌}
use agentunited.Prelude.Dict.{lookup}
use agentunited.Prelude.Js.{Value, str, obj, field, no_fields}
use agentunited.Web.Live.{Live, Message, human, make, start, ws_url, host_of}
use agentunited.Web.Live.Names.{get_display_name}
use agentunited.Web.Live.Listing.{Event, receives, sends, run, Distinct, run-Unique}

abbrev is_space : Char → Bool
is_space c = Prim.Native.Char.code c == 32

abbrev upper : Char → Char
upper c = c

abbrev text_of : Value → String
text_of v = ""

abbrev fresh : Live
unfolding make lookup
fresh = make (("auth-token", "t") ∷ [])

secure_address : ws_url "https://h.example" "t" ≡ "wss://h.example/ws?token=t"
unfolding ws_url host_of
secure_address = refl

tunnel_is_skipped : (start "https://a.tunnel.x" "c" 1 fresh).1 ≡ []
unfolding start host_of make lookup
tunnel_is_skipped = refl

spaces_names : get_display_name is_space upper "ada.b_lovelace@x.org" ≡ "ada b lovelace"
unfolding get_display_name
spaces_names = refl

abbrev event : Value
event = obj (
    field "type" (str "message.created") (
      field "data" (obj (field "id" (str "1") (field "channel_id" (str "c") no_fields))) no_fields))

abbrev sent : Message
sent = record {
  id = str "1";
  channel_id = str "c";
  author = "Ada";
  author_id = str "u";
  author_type = human;
  text = str "hi";
  timestamp = str "now";
  is_own_message = true;
}

abbrev history : List (Event is_space upper text_of)
history = sends (λ h. false) "hi" (some sent) ∷ receives "ws-1" "now" event ∷ []

run-Unique_example : Distinct (run is_space upper text_of "c" history fresh).messages
unfolding make lookup
run-Unique_example = run-Unique is_space upper text_of "c" history fresh (tt, (tt, tt)) tt

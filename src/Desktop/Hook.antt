-- ===== src/Desktop/Hook.antt =====
-- apps/desktop/src/hooks/useWebSocket.ts: the state that the desktop screens read, as one record,
-- and each handler as a function on it. A setter of React is applied at once. What the server
-- sends has the fields that the source reads; `author_email` is empty or absent in some messages.
-- Handlers read `activeChannel` of the state: the source subscribes them anew when it changes.
pub mod Unread
pub mod Messages
pub mod Typing
pub mod Wiring
mod Tests
use Prim.Native.String
use agentunited.Prelude.{
  ℕ, ◌+◌, String, Bool, true, false, not, ◌&&◌, Option, none, some, List, [], ◌∷◌, ◌++◌, map,
  str_eq, if◌then◌else◌, is_some, keep, any, find,
}
use agentunited.Prelude.Dict.{Dict, lookup, insert, delete, get_or}

pub data Kind : Type 0 where
  agent human : Kind

pub data Status : Type 0 where
  online offline away : Status

pub record Author : Type 0 where
  pub id : String
  pub name : String
  pub kind : Kind

pub record Mention : Type 0 where
  pub id : String
  pub name : String
  pub kind : Kind
  pub start : ℕ
  pub stop : ℕ

pub record Attachment : Type 0 where
  pub id : String
  pub name : String
  pub url : String
  pub kind : String

pub record MessageData : Type 0 where
  pub id : String
  pub channel_id : String
  pub content : String
  pub author : Author
  pub timestamp : String
  pub mentions : List Mention
  pub attachments : List Attachment

pub record LastMessage : Type 0 where
  pub content : String
  pub timestamp : String
  pub author : String

pub record ChannelData : Type 0 where
  pub id : String
  pub name : String
  pub topic : Option String
  pub last_message : Option LastMessage
  pub unread_count : ℕ

pub record UserData : Type 0 where
  pub id : String
  pub name : String
  pub kind : Kind
  pub status : Status

-- `typing_timeouts` maps the key of a channel and a user to the handle of the pending timeout.
pub record Hook : Type 0 where
  pub connected : Bool
  pub connecting : Bool
  pub messages : Dict (List MessageData)
  pub channels : List ChannelData
  pub users : List UserData
  pub current_user : Option UserData
  pub active_channel : Option String
  pub typing_users : Dict (List UserData)
  pub typing_timeouts : Dict ℕ

-- A message and a channel as the backend writes them.
pub record ApiMessage : Type 0 where
  pub id : String
  pub channel_id : String
  pub author_id : String
  pub author_type : String
  pub author_email : Option String
  pub text : String
  pub created_at : String

pub record ApiChannel : Type 0 where
  pub id : String
  pub name : String
  pub topic : Option String

-- A fetch throws, answers with an error status, or answers with a body.
pub data Fetched {ℓ} (A : Type ℓ) : Type ℓ where
  threw refused : Fetched A
  answered : A → Fetched A

-- email || label
abbrev pub or_label : Option String → String → String
or_label none label = label
or_label (some e) label = if str_eq e "" then label else e

abbrev pub is_active : Option String → String → Bool
is_active none c = false
is_active (some a) c = str_eq c a

pub mapped_message : String → ApiMessage → MessageData
mapped_message channel m = record {
  id = m.id;
  channel_id = channel;
  content = m.text;
  author = record {
    id = m.author_id;
    name = or_label m.author_email "Unknown";
    kind = if str_eq m.author_type "user" then human else agent;
  };
  timestamp = m.created_at;
  mentions = [];
  attachments = [];
}

abbrev pub append_to : String → MessageData → Dict (List MessageData) → Dict (List MessageData)
append_to c m d = insert c (get_or c [] d ++ m ∷ []) d

-- What `message.created` does to one channel.
unfoldable pub touched : Option String → MessageData → ChannelData → ChannelData
touched active m ch =
    if str_eq ch.id m.channel_id
    then record ch {
      last_message =
          some (record { content = m.content; timestamp = m.timestamp; author = m.author.name });
      unread_count = if is_active active ch.id then 0 else ch.unread_count + 1;
    }
    else ch

pub message_created : ApiMessage → Hook → Hook
unfolding mapped_message
message_created d s =
    let m = mapped_message d.channel_id d in
    record s {
      messages = append_to m.channel_id m s.messages;
      channels = map (touched s.active_channel m) s.channels;
    }

unfoldable pub replaced : MessageData → MessageData → MessageData
replaced d m = if str_eq m.id d.id then d else m

pub message_updated : MessageData → Hook → Hook
message_updated d s = record s {
  messages = insert d.channel_id (map (replaced d) (get_or d.channel_id [] s.messages)) s.messages;
}

pub channel_created : ChannelData → Hook → Hook
channel_created ch s = record s { channels = s.channels ++ ch ∷ [] }

pub user_presence : String → Status → Hook → Hook
user_presence id status s = record s {
  users = map (λ u. if str_eq u.id id then record u { status = status } else u) s.users;
}

-- `${channelId}-${userId}`
abbrev pub typing_key : String → String → String
typing_key channel user = String.◌++◌ channel (String.◌++◌ "-" user)

abbrev pub is_user : String → UserData → Bool
is_user id u = str_eq u.id id

abbrev pub without_user : String → List UserData → List UserData
without_user id = keep (λ u. not (is_user id u))

-- `handle` is what setTimeout gives for the new timeout.
pub typing_start : String → UserData → ℕ → Hook → Hook
typing_start channel user handle s =
    let typing = get_or channel [] s.typing_users in
    record s {
      typing_users =
          if any (is_user user.id) typing
          then s.typing_users
          else insert channel (typing ++ user ∷ []) s.typing_users;
      typing_timeouts = insert (typing_key channel user.id) handle s.typing_timeouts;
    }

-- The callback of that timeout; `typing.stop` does the same.
pub typing_expired : String → String → Hook → Hook
typing_expired channel user s = record s {
  typing_users =
      insert channel (without_user user (get_or channel [] s.typing_users)) s.typing_users;
  typing_timeouts = delete (typing_key channel user) s.typing_timeouts;
}

pub typing_stop : String → UserData → Hook → Hook
typing_stop channel user s =
    let timeouts =
      if is_some (lookup (typing_key channel user.id) s.typing_timeouts)
      then delete (typing_key channel user.id) s.typing_timeouts
      else s.typing_timeouts in
    record s {
      typing_users =
          insert channel (without_user user.id (get_or channel [] s.typing_users)) s.typing_users;
      typing_timeouts = timeouts;
    }

-- The message that `sendMessage` adds when the server has answered with its own copy of it.
abbrev pub sent_copy : String → String → ApiMessage → MessageData
sent_copy channel content reply = record {
  id = reply.id;
  channel_id = channel;
  content = content;
  author = record { id = reply.author_id; name = or_label reply.author_email "You"; kind = agent };
  timestamp = reply.created_at;
  mentions = [];
  attachments = [];
}

-- `!token` holds of no token and of the empty one.
abbrev pub has_token : Option String → Bool
has_token none = false
has_token (some t) = not (str_eq t "")

pub send_message : Option String → String → String → Fetched ApiMessage → Hook → Hook
send_message token channel content (answered reply) s =
    if has_token token
    then record s { messages = append_to channel (sent_copy channel content reply) s.messages }
    else s
send_message token channel content _ s = s

-- Switching the channel, with the effect that marks it as read.
unfoldable pub read_if : String → ChannelData → ChannelData
read_if id ch = if str_eq ch.id id then record ch { unread_count = 0 } else ch

unfoldable pub set_active_channel : Option String → Hook → Hook
set_active_channel none s = record s { active_channel = none }
set_active_channel (some id) s = record s {
  active_channel = some id;
  channels = if str_eq id "" then s.channels else map (read_if id) s.channels;
}

-- The effect that loads the messages of the active channel; the socket's events only add to them.
pub fetch_messages : Option String → Fetched (Option (List ApiMessage)) → Hook → Hook
unfolding mapped_message
fetch_messages token (answered body) s = elim s.active_channel [
  | none ↦ s
  | some id ↦
      if s.connected && not (str_eq id "") && has_token token
      then record s {
        messages =
            insert id (map (mapped_message id) (elim body [ none ↦ [] | some ms ↦ ms ])) s.messages;
      }
      else s
]
fetch_messages token _ s = s

mapped_channel : ApiChannel → ChannelData
mapped_channel c = record {
  id = c.id;
  name = c.name;
  topic = c.topic;
  last_message = none;
  unread_count = 0;
}

abbrev with_channels : Fetched (Option (List ApiChannel)) → Hook → Hook
unfolding mapped_channel
with_channels (answered body) s = record s {
  channels = map mapped_channel (elim body [ none ↦ [] | some cs ↦ cs ]);
}
with_channels _ s = s

abbrev with_user : Fetched (Option UserData) → Hook → Hook
with_user (answered user) s = record s { current_user = user }
with_user _ s = s

-- A fetch of the channels that throws ends the handler before the user is asked for.
abbrev load_initial : Fetched (Option (List ApiChannel)) → Fetched (Option UserData) → Hook → Hook
load_initial threw user s = s
load_initial chans user s = with_user user (with_channels chans s)

pub connection_changed :
    Bool
    → Option String
    → Fetched (Option (List ApiChannel))
    → Fetched (Option UserData)
    → Hook
    → Hook
unfolding mapped_channel
connection_changed up token chans user s =
    let s' = record s { connected = up; connecting = false } in
    if up && has_token token then load_initial chans user s' else s'

pub get_channel_by_id : String → Hook → Option ChannelData
get_channel_by_id id s = find (λ ch. str_eq ch.id id) s.channels

pub get_user_by_id : String → Hook → Option UserData
get_user_by_id id s = find (is_user id) s.users

-- ===== src/Web/Page/State.antt =====
-- The state of ChatPage in apps/web/src/pages/ChatPage.tsx and what its effects load.
use agentunited.Prelude.{
  ℕ, String, Bool, true, false, ◌&&◌, Option, none, some, List, [], ◌∷◌, map, str_eq, if◌then◌else◌,
}
use agentunited.Prelude.Dict.{Dict, insert}
use agentunited.Prelude.Text.{includes, before}
use agentunited.Web.Chat.{Channel, AuthorType, agent, human, or_text}

pub record DirectMessage : Type 0 where
  pub id : String
  pub name : String
  pub dm_type : AuthorType
  pub online : Bool
  pub unread : ℕ

-- An entry of the directory of users.
pub record Entry : Type 0 where
  pub display : String
  pub user_type : AuthorType

pub record Member : Type 0 where
  pub id : String
  pub name : String
  pub email : String
  pub member_type : AuthorType
  pub online : Bool

pub record Page : Type 0 where
  pub channels : List Channel
  pub direct_messages : List DirectMessage
  pub selected_channel_id : String
  pub selected_dm_id : String
  pub channels_loading : Bool
  pub channels_error : Option String
  pub show_create_channel : Bool
  pub show_new_dm : Bool
  pub show_members_panel : Bool
  pub sidebar_open : Bool
  pub channel_create_warning : Option String
  pub startup_toast : Option String
  pub search_query : String
  pub is_searching : Bool
  pub channel_members : List Member
  pub user_directory : Dict Entry

unfoldable pub make : Page
make = record {
  channels = [];
  direct_messages = [];
  selected_channel_id = "";
  selected_dm_id = "";
  channels_loading = true;
  channels_error = none;
  show_create_channel = false;
  show_new_dm = false;
  show_members_panel = false;
  sidebar_open = false;
  channel_create_warning = none;
  startup_toast = none;
  search_query = "";
  is_searching = false;
  channel_members = [];
  user_directory = [];
}

-- What a call of chatApi comes to; the text is the message of the Error that it threw.
pub data Fetched {ℓ} (A : Type ℓ) : Type ℓ where
  answered : A → Fetched A
  failed : String → Fetched A

-- The values that an effect has captured from the render that started it.
pub record Captured : Type 0 where
  pub selected_channel_id : String
  pub selected_dm_id : String
  pub dm_id : String

-- The effects that load the two lists run once, with the values of the first render; the text is
-- the conversation that the address names, "" if none.
abbrev pub first_render : String → Captured
first_render dm = record { selected_channel_id = ""; selected_dm_id = ""; dm_id = dm }

abbrev pub nothing_selected : Captured → Bool
nothing_selected c =
    str_eq c.selected_channel_id "" && str_eq c.selected_dm_id "" && str_eq c.dm_id ""

unfoldable pub begin_load_channels : Page → Page
begin_load_channels s = record s { channels_loading = true; channels_error = none }

abbrev select_first_channel : Bool → List Channel → Page → Page
select_first_channel free [] s = s
select_first_channel free (c ∷ cs) s = if free then record s { selected_channel_id = c.id } else s

unfoldable pub load_channels : Captured → Fetched (List Channel) → Page → Page
load_channels c (answered channels) s =
    select_first_channel (nothing_selected c) channels
      (record s { channels = channels; channels_loading = false })
load_channels c (failed why) s = record s { channels_error = some why; channels_loading = false }

module _ (lower : String → String) where
  -- The tests /agent/i and includes('@…') read a text in any case and as it is.
  unfoldable pub direct_message_of : Channel → DirectMessage
  direct_message_of c = record {
    id = c.id;
    name = c.name;
    dm_type = if includes "agent" (lower c.name) then agent else human;
    online = false;
    unread = c.unread;
  }

  abbrev select_first_dm : Bool → List DirectMessage → Page → Page
  select_first_dm free [] s = s
  select_first_dm free (d ∷ ds) s = if free then record s { selected_dm_id = d.id } else s

  unfoldable pub load_dms : Captured → Fetched (List Channel) → Page → Page
  unfolding direct_message_of
  load_dms c (answered dms) s =
      select_first_dm (nothing_selected c) (map direct_message_of dms)
        (record s { direct_messages = map direct_message_of dms })
  load_dms c (failed why) s = s

pub record ApiUser : Type 0 where
  pub id : String
  pub email : Option String
  pub display_name : Option String
  pub user_type : Option String

abbrev pub or_none : Option String → String
or_none none = ""
or_none (some t) = t

abbrev type_of : Option String → AuthorType
type_of none = human
type_of (some t) = if str_eq t "agent" then agent else human

-- display_name || email?.split('@')[0] || 'Unknown'
unfoldable pub entry_of : ApiUser → Entry
unfolding before
entry_of u = record {
  display = or_text u.display_name (or_text (some (before b'@' (or_none u.email))) "Unknown");
  user_type = type_of u.user_type;
}

abbrev pub write : String → Entry → Dict Entry → Dict Entry
write key e d = if str_eq key "" then d else insert key e d

-- One round of the loop: by id, then by email.
unfoldable pub enter_user : ApiUser → Dict Entry → Dict Entry
unfolding entry_of insert
enter_user u d = write (or_none u.email) (entry_of u) (write u.id (entry_of u) d)

unfoldable pub directory_of : List ApiUser → Dict Entry → Dict Entry
unfolding enter_user
directory_of [] d = d
directory_of (u ∷ us) d = directory_of us (enter_user u d)

unfoldable pub load_users : Fetched (List ApiUser) → Page → Page
unfolding directory_of
load_users (answered users) s = record s { user_directory = directory_of users [] }
load_users (failed why) s = s

pub record ApiMember : Type 0 where
  pub id : String
  pub email : String
  pub name : Option String
  pub display_name : Option String
  pub member_type : Option String

abbrev is_agent_member : ApiMember → Bool
is_agent_member m =
    if str_eq (or_none m.member_type) ""
    then includes "@agentunited.local" m.email
    else str_eq (or_none m.member_type) "agent"

-- `online` is the outcome of the draw that stands for the status.
unfoldable pub member_of : (String → Bool) → ApiMember → Member
unfolding before includes
member_of online m = record {
  id = m.id;
  name = or_text m.display_name (or_text m.name (or_text (some (before b'@' m.email)) m.email));
  email = m.email;
  member_type = if is_agent_member m then agent else human;
  online = online m.id;
}

unfoldable pub load_members : (String → Bool) → Fetched (List ApiMember) → Page → Page
unfolding member_of
load_members online (answered ms) s = record s { channel_members = map (member_of online) ms }
load_members online (failed why) s = record s { channel_members = [] }

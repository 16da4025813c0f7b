-- ===== src/Web/Page.antt =====
-- ChatPage of apps/web/src/pages/ChatPage.tsx: the state behind the chat page, what its effects load
-- and its handlers. React's setters apply at once, and a handler sees the state of the last render;
-- the effects that load on mount see the first one, which is their argument. `navigate` and requests
-- are effects of a handler; the answer of a request is an argument. The labels of
-- displayDirectMessages and the markup are left out.
pub mod State
pub mod Reply
pub mod Names
pub mod Selection
pub mod Directory
pub mod Sending
pub mod Tips
mod Tests
pub use State.{
  DirectMessage, Entry, Member, Page, Fetched, answered, failed, Captured, first_render, ApiUser,
  ApiMember, nothing_selected, or_none, write,
}
unfoldable pub use State.{
  make, begin_load_channels, load_channels, direct_message_of, load_dms, entry_of, enter_user,
  directory_of, load_users, member_of, load_members,
}
use Prim.Native.String
use agentunited.Prelude.{
  ℕ, ◌+◌, String, Bool, true, false, not, ◌&&◌, ◌||◌, Option, none, some, List, [], ◌∷◌, ◌++◌, map,
  keep, any, length, ltb, ◌==◌, str_eq, if◌then◌else◌,
}
use agentunited.Prelude.Dict.{Dict}
use agentunited.Web.Chat.{Channel, AuthorType, agent}

pub data Kind : Type 0 where
  channel dm : Kind

pub data Effect : Type 0 where
  navigate : String → Effect
  mark_read : Kind → String → Effect

abbrev pub Reply : Type 0
Reply = Page × List Effect

unfoldable pub read_channel : String → Channel → Channel
read_channel id c = if str_eq c.id id then record c { unread = 0 } else c

unfoldable pub read_dm : String → DirectMessage → DirectMessage
read_dm id d = if str_eq d.id id then record d { unread = 0 } else d

-- markConversationRead behind its request; the Boolean says that the request succeeded.
pub mark_conversation_read : Kind → String → Bool → Page → Page
mark_conversation_read kind id false s = s
mark_conversation_read channel id true s = record s { channels = map (read_channel id) s.channels }
mark_conversation_read dm id true s = record s {
  direct_messages = map (read_dm id) s.direct_messages;
}

pub handle_select_channel : String → Page → Reply
handle_select_channel id s = (
  record s { selected_channel_id = id; selected_dm_id = ""; sidebar_open = false },
  navigate "/chat" ∷ mark_read channel id ∷ [],
)

pub handle_dm_select : String → Page → Reply
handle_dm_select id s = (
  record s { selected_dm_id = id; selected_channel_id = ""; sidebar_open = false },
  navigate (String.◌++◌ "/chat/dm/" id) ∷ mark_read dm id ∷ [],
)

-- The loop over the agents; `invited` says whether addChannelMember succeeded for one.
unfoldable pub failed_invites : (String → Bool) → List String → ℕ → ℕ
failed_invites invited [] count = count
failed_invites invited (a ∷ agents) count =
    failed_invites invited agents (if invited a then count else count + 1)

-- A createChannel that throws ends the handler; `show` is the decimal text of a number.
pub handle_create_channel :
    (ℕ → String) → (String → Bool) → List String → Fetched Channel → Page → Page
unfolding failed_invites
handle_create_channel show invited agents (failed why) s = s
handle_create_channel show invited agents (answered c) s =
    let count = failed_invites invited agents 0 in
    record s {
      channels = s.channels ++ c ∷ [];
      selected_channel_id = c.id;
      selected_dm_id = "";
      channel_create_warning =
          if ltb 0 count
          then some (
              String.◌++◌ "Channel created, but " (
                String.◌++◌ (show count)
                  " agent invite(s) failed. You can retry from channel settings."))
          else none;
    }

pub handle_search : String → Page → Page
handle_search query s = record s { search_query = query; is_searching = true }

unfoldable pub handle_close_search : Page → Page
handle_close_search s = record s { search_query = ""; is_searching = false }

pub handle_search_result_click : String → Page → Page
handle_search_result_click id s = record s {
  selected_channel_id = id;
  selected_dm_id = "";
  is_searching = false;
  search_query = "";
}

unfoldable pub updated : Channel → Channel → Channel
updated c old = if str_eq old.id c.id then c else old

pub handle_channel_update : Channel → Page → Page
unfolding updated
handle_channel_update c s = record s { channels = map (updated c) s.channels }

abbrev pub is_other : String → Channel → Bool
is_other id c = not (str_eq c.id id)

abbrev pub first_id : List Channel → String
first_id [] = ""
first_id (c ∷ cs) = c.id

pub handle_channel_delete : String → Page → Page
handle_channel_delete id s = record s {
  channels = keep (is_other id) s.channels;
  selected_channel_id =
      if str_eq s.selected_channel_id id && ltb 1 (length s.channels)
      then first_id (keep (is_other id) s.channels)
      else s.selected_channel_id;
}

abbrev busy_toast : Option String
busy_toast = some "Workspace loading, please try again"

abbrev has_dm : String → List DirectMessage → Bool
has_dm id ds = any (λ (d : DirectMessage). str_eq d.id id) ds

pub handle_dm_created : (String → String) → String → Fetched (List Channel) → Page → Page
unfolding direct_message_of
handle_dm_created lower id (failed why) s = record s { startup_toast = busy_toast }
handle_dm_created lower id (answered dms) s =
    let s' = record s { direct_messages = map (direct_message_of lower) dms } in
    if str_eq id ""
    then record s { startup_toast = busy_toast }
    else if has_dm id (map (direct_message_of lower) dms)
    then record s' { selected_dm_id = id; selected_channel_id = "" }
    else record s' { startup_toast = busy_toast }

pub handle_toggle_members : Page → Page
handle_toggle_members s = record s { show_members_panel = not s.show_members_panel }

-- The effect of a route that names a conversation.
pub route_changed : String → Page → Page
route_changed id s =
    if str_eq id "" then s else record s { selected_dm_id = id; selected_channel_id = "" }

abbrev first_agent : Dict Entry → Option String
first_agent [] = none
first_agent ((key, e) ∷ d) = elim e.user_type [ agent ↦ some key | _ ↦ first_agent d ]

-- The effect behind a first login: whether it asks for a conversation, and with whom.
pub starter_dm : Bool → String → Page → Option String
starter_dm first_login route s =
    if first_login
      && str_eq s.selected_channel_id ""
      && str_eq s.selected_dm_id ""
      && str_eq route ""
    then first_agent s.user_directory
    else none

pub starter_dm_created : Fetched Channel → Page → Reply
starter_dm_created (answered d) s = (
  record s { selected_dm_id = d.id; selected_channel_id = "" },
  navigate (String.◌++◌ "/chat/dm/" d.id) ∷ [],
)
starter_dm_created (failed why) s =
    (record s { startup_toast = some "You're in. Start a conversation with your agent ↓" }, [])

-- The effect behind a selection, which also runs when the window gets the focus.
pub read_selected : Page → List Effect
read_selected s =
    if not (str_eq s.selected_dm_id "")
    then mark_read dm s.selected_dm_id ∷ []
    else if not (str_eq s.selected_channel_id "")
    then mark_read channel s.selected_channel_id ∷ []
    else []

-- A key with what it is held with.
pub record KeyPress : Type 0 where
  pub meta_key : Bool
  pub ctrl_key : Bool
  pub alt_key : Bool
  pub key : String

-- The shortcuts that change the state; `/` only moves the focus.
pub handle_key_down : KeyPress → Page → Page
unfolding handle_close_search
handle_key_down k s =
    let opened =
      if (k.meta_key || k.ctrl_key) && str_eq k.key "k"
      then record s { is_searching = true }
      else s in
    let creating =
      if k.alt_key && str_eq k.key "n"
      then record opened { show_create_channel = true }
      else opened in
    let addressing =
      if k.alt_key && str_eq k.key "d" then record creating { show_new_dm = true } else creating in
    if str_eq k.key "Escape"
    then record (if s.is_searching then handle_close_search addressing else addressing) {
      sidebar_open = false;
      show_create_channel = false;
      show_new_dm = false;
      show_members_panel = false;
    }
    else addressing

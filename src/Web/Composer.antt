-- ===== src/Web/Composer.antt =====
-- apps/web/src/components/chat/MessageInput.tsx: the message that is being written, its mentions
-- and its file, until it is sent. The textarea is on the page; events that read its selection have
-- it as an argument. `trim` is String.prototype.trim and `lower` is toLowerCase. Left out are the
-- focus, the height of the textarea, the preview of the file and the markup.
pub mod Sending
pub mod Menu
mod Tests
use Prim.Native.String.{◌++◌ as ◌+++◌}
use agentunited.Prelude.{
  ℕ, ◌+◌, ◌*◌, String, Bool, true, false, not, ◌&&◌, ◌||◌, Option, none, some, List, [], ◌∷◌, ◌++◌,
  leb, str_eq, is_some, if◌then◌else◌,
}
use agentunited.Prelude.Text.{take_text, drop_text}
use agentunited.Web.Mentions.{
  Member, Mention, Mentions, Completed, Key, enter, handle_input_change, select_mention,
}

pub record File : Type 0 where
  pub name : String
  pub size : ℕ

-- What onSend is called with: the text, the user's id and the text of each mention, and the file.
pub record Sent : Type 0 where
  pub message : String
  pub mentions : List (String × String)
  pub attachment : Option File

pub record Composer : Type 0 where
  pub value : String
  pub cursor_position : ℕ
  pub current_mentions : List (String × String)
  pub selected_file : Option File
  pub is_uploading : Bool
  pub upload_error : Option String
  pub mentions : Mentions

abbrev pub make : Composer
make = record {
  value = "";
  cursor_position = 0;
  current_mentions = [];
  selected_file = none;
  is_uploading = false;
  upload_error = none;
  mentions = agentunited.Web.Mentions.make;
}

unfoldable pub handle_value_change : String → ℕ → Composer → Composer
handle_value_change new_value cursor c = record c {
  value = new_value;
  cursor_position = cursor;
  mentions = handle_input_change true new_value cursor c.mentions;
}

abbrev pub max_size : ℕ
max_size = 10 * 1024 * 1024

unfoldable pub handle_file_select : Option File → Composer → Composer
handle_file_select none c = record c { upload_error = none }
handle_file_select (some f) c =
    if leb f.size max_size
    then record c { upload_error = none; selected_file = some f }
    else record c { upload_error = some "File size must be less than 10MB" }

unfoldable pub handle_remove_file : Composer → Composer
handle_remove_file c = record c { selected_file = none; upload_error = none }

-- onMentionSelected
unfoldable pub add_mention : Option Mention → Composer → Composer
add_mention none c = c
add_mention (some m) c = record c {
  current_mentions = c.current_mentions ++ (m.user_id, m.display) ∷ [];
}

unfoldable pub handle_mention_select : Member → Composer → Composer
unfolding add_mention
handle_mention_select m c =
    let picked = select_mention m c.value c.cursor_position c.mentions in
    let noted = add_mention picked.1.selected c in
    record noted {
      value = picked.1.new_value;
      cursor_position = picked.1.new_cursor;
      mentions = picked.0;
    }

unfoldable pub handle_cursor_change : ℕ → Composer → Composer
handle_cursor_change cursor c = record c {
  cursor_position = cursor;
  mentions = handle_input_change true c.value cursor c.mentions;
}

unfoldable pub insert_mention : ℕ → Composer → Composer
insert_mention cursor c =
    let new_value = take_text cursor c.value +++ ("@" +++ drop_text cursor c.value) in
    record c {
      value = new_value;
      cursor_position = cursor + 1;
      mentions = handle_input_change true new_value (cursor + 1) c.mentions;
    }

-- How onSend ends: well, with an Error and its message, or with any other exception.
pub data Ending : Type 0 where
  succeeds other_exception : Ending
  error : String → Ending

-- handleSubmit behind its await.
unfoldable pub settle : Ending → Composer → Composer
settle succeeds c = record c {
  value = "";
  current_mentions = [];
  selected_file = none;
  is_uploading = false;
}
settle (error why) c = record c { upload_error = some why; is_uploading = false }
settle other_exception c = record c {
  upload_error = some "Failed to send message";
  is_uploading = false;
}

module _ (trim lower : String → String) (members : List Member) where
  abbrev pub has_content : Composer → Bool
  has_content c = not (str_eq (trim c.value) "") || is_some c.selected_file

  unfoldable pub can_send : Composer → Bool
  can_send c = has_content c && not c.is_uploading

  -- handleSubmit up to its await, with the call of onSend.
  unfoldable pub handle_submit : Composer → Composer × Option Sent
  handle_submit c =
      if has_content c
      then (
        record c { is_uploading = true; upload_error = none },
        some (record {
          message = c.value;
          mentions = c.current_mentions;
          attachment = c.selected_file;
        }),
      )
      else (c, none)

  -- A completed mention goes through handleValueChange, which reads the selection that the textarea
  -- still has, before the cursor is set behind the mention.
  abbrev pub complete : ℕ → Mentions → Completed → Composer → Composer
  unfolding add_mention handle_value_change
  complete selection after done c =
      let noted = add_mention done.selected (record c { mentions = after }) in
      record (handle_value_change done.new_value selection noted) {
        cursor_position = done.new_cursor;
      }

  abbrev pub submits : Key → Bool → Bool
  submits enter shift = not shift
  submits _ shift = false

  unfoldable pub handle_textarea_key_down : Key → Bool → ℕ → Composer → Composer × Option Sent
  unfolding handle_submit
  handle_textarea_key_down key shift selection c =
      let taken =
        agentunited.Web.Mentions.handle_key_down lower members key c.value c.cursor_position
          c.mentions in
      if taken.1
      then (elim taken.2 [
        | none ↦ (record c { mentions = taken.0 }, none)
        | some done ↦ (complete selection taken.0 done c, none)
      ])
      else if submits key shift
      then handle_submit c
      else (c, none)

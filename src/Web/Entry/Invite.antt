-- ===== src/Web/Entry/Invite.antt =====
-- apps/web/src/pages/InviteAcceptPage.tsx. `trim` is String.prototype.trim; `payload_of` decodes the
-- payload of a token, where none stands for an exception; `text_of` is String(). The address of the
-- server, which is read of the URL first, is Web/Config's. A text is its characters.
use Prim.Native.String.{count}
use agentunited.Prelude.{
  String, Bool, true, false, not, ◌&&◌, ◌||◌, Option, none, some, str_eq, ltb, leb, if◌then◌else◌,
}
use agentunited.Prelude.Dict.{insert}
use agentunited.Prelude.Js.{Value, get, truthy}
use agentunited.Web.Services.Invites.{Answer, accepted, refused, error_text}
use agentunited.Web.Entry.{Storage, Route, chat_first_login, chat_dm}

pub record InviteInfo : Type 0 where
  pub email : String
  pub display_name : Option String
  pub inviter : String

pub record InvitePage : Type 0 where
  pub invite_info : Option InviteInfo
  pub display_name : String
  pub password : String
  pub confirm_password : String
  pub loading : Bool
  pub submitting : Bool
  pub error : Option String
  pub display_name_error : Option String
  pub password_error : Option String
  pub confirm_error : Option String

abbrev pub make : InvitePage
make = record {
  invite_info = none;
  display_name = "";
  password = "";
  confirm_password = "";
  loading = true;
  submitting = false;
  error = none;
  display_name_error = none;
  password_error = none;
  confirm_error = none;
}

-- !token
abbrev pub is_missing : Option String → Bool
is_missing none = true
is_missing (some token) = str_eq token ""

-- The effect on the token, up to its await.
unfoldable pub mount : Option String → InvitePage → InvitePage
mount token p =
    if is_missing token
    then record p { error = some "Invalid invite link. Check the URL."; loading = false }
    else p

abbrev pub or_empty : Option String → String
or_empty none = ""
or_empty (some name) = name

module _ (trim : String → String) where
  unfoldable pub info_loaded : Answer InviteInfo → InvitePage → InvitePage
  info_loaded (accepted info) p = record p {
    invite_info = some info;
    display_name = trim (or_empty info.display_name);
    error = none;
    loading = false;
  }
  info_loaded (refused why) p = record p { error = some (error_text why); loading = false }

  unfoldable pub handle_display_name_change : String → InvitePage → InvitePage
  handle_display_name_change next p = record p {
    display_name = next;
    display_name_error =
        if str_eq (trim next) ""
        then some "Display name is required"
        else if ltb 50 (count (trim next))
        then some "Display name must be 50 characters or less"
        else none;
  }

  unfoldable pub is_valid_display_name : InvitePage → Bool
  is_valid_display_name p =
      leb 1 (count (trim p.display_name)) && leb (count (trim p.display_name)) 50

  unfoldable pub can_submit : InvitePage → Bool
  unfolding is_valid_display_name
  can_submit p =
      is_valid_display_name p
      && leb 12 (count p.password)
      && str_eq p.password p.confirm_password
      && not p.submitting

  abbrev pub accept : String → InvitePage → InvitePage × Option (String × String × String)
  accept token p =
      if str_eq (trim p.display_name) "" || ltb 50 (count (trim p.display_name))
      then (record p { display_name_error = some "Display name is required (1–50 chars)" }, none)
      else (
        record p { submitting = true; error = none },
        some (token, p.password, trim p.display_name),
      )

  -- handleSubmit up to its await: the page, and the token, the password and the name that are sent.
  unfoldable pub start_accept :
      Option String → InvitePage → InvitePage × Option (String × String × String)
  unfolding can_submit
  start_accept none p = (p, none)
  start_accept (some token) p =
      if not (can_submit p) || str_eq token "" then (p, none) else accept token p

unfoldable pub handle_password_change : String → InvitePage → InvitePage
handle_password_change next p = record p {
  password = next;
  password_error =
      if ltb 0 (count next) && ltb (count next) 12
      then some "Password must be at least 12 characters"
      else none;
}

unfoldable pub handle_confirm_change : String → InvitePage → InvitePage
handle_confirm_change next p = record p {
  confirm_password = next;
  confirm_error =
      if ltb 0 (count next) && not (str_eq next p.password)
      then some "Passwords do not match"
      else none;
}

-- What acceptInvite answers.
pub record Accepted : Type 0 where
  pub jwt_token : String
  pub dm_channel_id : Option String

abbrev pub put_if : (Value → String) → String → Value → Storage → Storage
put_if text_of key value s = if truthy value then insert key (text_of value) s else s

-- The identity that the payload of the token tells.
abbrev pub remember : (Value → String) → Option Value → Storage → Storage
remember text_of none s = s
remember text_of (some payload) s =
    put_if text_of "user-email" (get "email" payload)
      (put_if text_of "user-id" (get "user_id" payload) s)

abbrev pub route_of : Option String → Route
route_of none = chat_first_login
route_of (some id) = if str_eq id "" then chat_first_login else chat_dm id

-- handleSubmit behind its await.
unfoldable pub end_accept :
    (Value → String)
    → (String → Option Value)
    → Answer Accepted
    → InvitePage
    → Storage
    → InvitePage × Storage × Option Route
end_accept text_of payload_of (refused why) p s =
    (record p { error = some (error_text why); submitting = false }, s, none)
end_accept text_of payload_of (accepted answer) p s = (
  record p { submitting = false },
  remember text_of (payload_of answer.jwt_token) (insert "auth-token" answer.jwt_token s),
  some (route_of answer.dm_channel_id),
)

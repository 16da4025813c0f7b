-- ===== src/Web/Entry/Tests.antt =====
-- An invite is accepted, and the forms at their limits.
use agentunited.Prelude.{String, true, false, Option, none, some, List, [], ◌∷◌, All, ◌≡◌, refl}
use agentunited.Prelude.Dict.{insert}
use agentunited.Prelude.Js.{Value, obj, field, no_fields, str}
use agentunited.Web.Services.Invites.{accepted}
use agentunited.Web.Entry.{end_login, chat, idle, start_forgot}
use agentunited.Web.Entry.Invite.{
  InvitePage, InviteInfo, Accepted, make, mount, is_valid_display_name,
}
use agentunited.Web.Entry.Reset as reset
use agentunited.Web.Entry.Entering.{
  Event, loads, types, confirms, submits, ends, run, IsAcceptable, run-AreAcceptable,
}

abbrev trim : String → String
trim s = s

abbrev text_of : Value → String
text_of (str s) = s
text_of _ = ""

abbrev payload_of : String → Option Value
payload_of s = some (obj (field "user_id" (str "u7") no_fields))

abbrev info : InviteInfo
info = record { email = "a@b.c"; display_name = some "Ada"; inviter = "bot" }

abbrev answer : Accepted
answer = record { jwt_token = "x.y.z"; dm_channel_id = some "d1" }

abbrev events : List Event
events =
    loads (accepted info)
    ∷ types "abcdefghijkl"
    ∷ submits
    ∷ confirms "abcdefghijkl"
    ∷ submits
    ∷ submits
    ∷ ends (accepted answer)
    ∷ []

run-AreAcceptable_example :
    All IsAcceptable (run trim text_of payload_of (some "t") events (make, [])).2
run-AreAcceptable_example = run-AreAcceptable trim text_of payload_of (some "t") events make []

abbrev filled : InvitePage
filled = record make { display_name = "Ada"; password = "short" }

valid : is_valid_display_name trim filled ≡ true
unfolding is_valid_display_name
valid = refl

abbrev typed : reset.Reset
typed = record reset.make { password = "abcdefgh"; confirm = "abcdefgh" }

expired : (mount none make).error ≡ some "Invalid invite link. Check the URL."
unfolding mount
expired = refl

-- Who logs in keeps the id that was stored before, where the answer has none.
kept_id :
    end_login text_of "b@c.d"
      (some (obj (field "token" (str "t") no_fields)))
      (("user-id", "u7") ∷ [])
    ≡ (
      record { is_loading = false; error = "" },
      ("user-id", "u7") ∷ ("auth-token", "t") ∷ ("user-email", "b@c.d") ∷ [],
      some chat,
    )
unfolding end_login insert
kept_id = refl

nothing_sent : start_forgot (record { email = ""; state = idle }) ≡ none
unfolding start_forgot
nothing_sent = refl

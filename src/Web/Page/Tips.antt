-- ===== src/Web/Page/Tips.antt =====
-- The toasts of apps/web/src/pages/ChatPage.tsx with their timers, the tip of the agents' guide, and
-- what the page says of the conversation that is shown.
pub mod Timed
use Prim.Native.String
use agentunited.Prelude.{
  ℕ, ◌-◌, ◌≤◌, String, Bool, true, false, not, ◌&&◌, Option, none, some, List, [], ◌∷◌, ◌≡◌, refl,
  ◌⊎◌, inl, inr, arith, leb, any, find, str_eq, eq_iff, if◌then◌else◌, is_some, Bool-cases,
  Option-cases,
}
use agentunited.Prelude.Dict.{Dict, lookup, insert, lookup-insert}
use agentunited.Web.Chat.{Channel, AuthorType, agent, human}
use agentunited.Web.Page.State.{DirectMessage, Member, Page}

-- A toast, and what is left of its timer in milliseconds.
pub record Toast : Type 0 where
  pub text : Option String
  pub left : Option ℕ

abbrev pub no_toast : Toast
no_toast = record { text = none; left = none }

abbrev pub is_shown : Option String → Bool
is_shown none = false
is_shown (some t) = not (str_eq t "")

abbrev pub same_text : Option String → Option String → Bool
same_text none none = true
same_text (some a) (some b) = str_eq a b
same_text _ _ = false

-- A setter with the effect behind it, which runs when the text is another one: it clears the timer
-- and sets one of `lasting` milliseconds, if there is a text.
unfoldable pub set_toast : ℕ → Option String → Toast → Toast
set_toast lasting text t =
    if same_text t.text text
    then t
    else record { text = text; left = if is_shown text then some lasting else none }

-- Time passes; the timer that is due hides the toast.
unfoldable pub wait : ℕ → Toast → Toast
wait time t = elim t.left [
  | none ↦ t
  | some left ↦ if leb left time then no_toast else record t { left = some (left - time) }
]

abbrev pub startup_lasting : ℕ
startup_lasting = 3000

abbrev pub warning_lasting : ℕ
warning_lasting = 5000

pub data Event : Type 0 where
  sets : Option String → Event
  waits : ℕ → Event

unfoldable pub run : ℕ → List Event → Toast → Toast
run lasting [] t = t
run lasting (sets text ∷ es) t = run lasting es (set_toast lasting text t)
run lasting (waits time ∷ es) t = run lasting es (wait time t)

-- getItem(…) === '1'
abbrev is_one : Option String → Bool
is_one none = false
is_one (some v) = str_eq v "1"

-- The tip on the first render: what is left in sessionStorage, and whether the tip is shown.
unfoldable pub guide_tip : Dict String → Dict String → Dict String × Bool
guide_tip session local =
    if is_one (lookup "au:plan-upgraded" session)
      && not (is_one (lookup "au:agent-guide-dismissed" local))
      && not (is_one (lookup "au:agent-guide-tip-shown" session))
    then (insert "au:agent-guide-tip-shown" "1" session, true)
    else (session, false)

abbrev pub selected_channel : Page → Option Channel
selected_channel s = find (λ (c : Channel). str_eq c.id s.selected_channel_id) s.channels

-- `labelled` are the direct messages under the names that they are shown with.
abbrev pub selected_dm : List DirectMessage → Page → Option DirectMessage
selected_dm labelled s = find (λ (d : DirectMessage). str_eq d.id s.selected_dm_id) labelled

abbrev pub is_viewing_dm : Page → Bool
is_viewing_dm s = not (str_eq s.selected_dm_id "")

abbrev pub active_conversation_id : Page → String
active_conversation_id s = if is_viewing_dm s then s.selected_dm_id else s.selected_channel_id

abbrev pub is_agent : AuthorType → Bool
is_agent agent = true
is_agent human = false

unfoldable pub has_agent_participant : List DirectMessage → Page → Bool
has_agent_participant labelled s =
    if is_viewing_dm s
    then elim (selected_dm labelled s) [ none ↦ false | some d ↦ is_agent d.dm_type ]
    else any (λ (m : Member). is_agent m.member_type) s.channel_members

-- a?.name || fallback
abbrev name_or : Option String → String → String
name_or none fallback = fallback
name_or (some name) fallback = if str_eq name "" then fallback else name

abbrev dm_name : Option DirectMessage → Option String
dm_name none = none
dm_name (some d) = some d.name

abbrev channel_name : Option Channel → Option String
channel_name none = none
channel_name (some c) = some c.name

unfoldable pub active_conversation_name : List DirectMessage → Page → String
active_conversation_name labelled s =
    if is_viewing_dm s
    then name_or (dm_name (selected_dm labelled s)) "Direct Message"
    else name_or (channel_name (selected_channel s)) "unknown"

-- The key `/`: whether it moves the focus to the input. `is_typing` is where the focus is.
unfoldable pub slash_focuses : Bool → String → Page → Bool
slash_focuses is_typing key s =
    str_eq key "/"
    && not s.is_searching
    && not s.show_create_channel
    && not s.show_new_dm
    && not is_typing

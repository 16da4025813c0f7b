-- ===== src/Web/Page/Reply.antt =====
-- The effect of ChatPage that shows that an agent has not replied: the ref of the pending message,
-- the timer of 30 seconds with the id that it has captured, and the indicator, beside the values
-- that the effect depends on. Current and Indicator hold the proofs.
pub mod Current
pub mod Indicator
use agentunited.Prelude.{
  String, Bool, true, false, not, ◌&&◌, Option, none, some, List, [], ◌∷◌, ◌++◌, str_eq, eq_iff,
  eq_refl, if◌then◌else◌, All, ◌≡◌, refl, ◌≢◌, is_some, inl, inr, arith, Option-cases, Bool-cases,
}
use agentunited.Web.Chat.{Message, AuthorType, agent, human}

pub record Watch : Type 0 where
  pub active_conversation_id : String
  pub has_agent_participant : Bool
  pub messages : List Message
  pub pending_human_message_id : Option String
  pub no_reply_timer : Option String
  pub show_agent_no_reply_indicator : Bool

abbrev pub start : Watch
start = record {
  active_conversation_id = "";
  has_agent_participant = false;
  messages = [];
  pending_human_message_id = none;
  no_reply_timer = none;
  show_agent_no_reply_indicator = false;
}

abbrev pub last : List Message → Option Message
last [] = none
last (m ∷ []) = some m
last (m ∷ (n ∷ ms)) = last (n ∷ ms)

abbrev pub is_human : AuthorType → Bool
is_human human = true
is_human agent = false

-- pendingHumanMessageIdRef.current && latestMessage.id !== pendingHumanMessageIdRef.current
abbrev pub outdated : Option String → String → Bool
outdated none id = false
outdated (some p) id = not (str_eq p "") && not (str_eq id p)

-- Any message behind the pending one clears it.
unfoldable pub clear_outdated : Message → Watch → Watch
clear_outdated m w =
    let old = outdated w.pending_human_message_id m.id in
    record w {
      pending_human_message_id = if old then none else w.pending_human_message_id;
      show_agent_no_reply_indicator = if old then false else w.show_agent_no_reply_indicator;
    }

-- A message of the user's own is waited for.
unfoldable pub watch_own : Message → Watch → Watch
watch_own m w =
    if is_human m.author_type && m.is_own_message
    then record w {
      pending_human_message_id = some m.id;
      show_agent_no_reply_indicator = false;
      no_reply_timer = some m.id;
    }
    else w

unfoldable pub stop_watch : Watch → Watch
stop_watch w = record w { pending_human_message_id = none; show_agent_no_reply_indicator = false }

abbrev pub is_watched : String → Bool → Bool
is_watched active agent_here = not (str_eq active "") && agent_here

-- The effect, when one of the three values has changed; it clears the timer first.
pub changed : String → Bool → List Message → Watch → Watch
unfolding clear_outdated watch_own stop_watch
changed active agent_here ms w =
    let w' = record w {
      active_conversation_id = active;
      has_agent_participant = agent_here;
      messages = ms;
      no_reply_timer = none;
    } in
    if is_watched active agent_here
    then elim (last ms) [ none ↦ stop_watch w' | some m ↦ watch_own m (clear_outdated m w') ]
    else stop_watch w'

abbrev pub is_pending : String → Option String → Bool
is_pending id none = false
is_pending id (some p) = str_eq p id

-- The callback of the timer, which has captured the id.
unfoldable pub fire : Option String → Watch → Watch
fire none w = w
fire (some id) w = record w {
  no_reply_timer = none;
  show_agent_no_reply_indicator =
      if is_pending id w.pending_human_message_id then true else w.show_agent_no_reply_indicator;
}

pub timer_fired : Watch → Watch
unfolding fire
timer_fired w = fire w.no_reply_timer w

-- ===== src/Web/Page/Reply/Indicator.antt =====
-- When the indicator is shown.
use agentunited.Prelude.{
  String, Bool, true, false, ◌&&◌, Option, none, some, List, [], ◌∷◌, ◌++◌, str_eq, eq_iff, eq_refl,
  if◌then◌else◌, ◌≡◌, refl, ◌≢◌, arith,
}
use agentunited.Web.Chat.{Message, human}
use agentunited.Web.Page.Reply.{
  Watch, last, is_human, outdated, clear_outdated, watch_own, is_watched, changed, timer_fired,
}

last-append_one : (ms : List Message) (m : Message) → last (ms ++ m ∷ []) ≡ some m
last-append_one [] m = refl
last-append_one (x ∷ []) m = refl
last-append_one (x ∷ (y ∷ ms)) m = last-append_one (y ∷ ms) m

named_is_watched : (active : String) → active ≢ "" → is_watched active true ≡ true
named_is_watched active named = ground (arith, eq_iff active "")

-- The state behind a message of the user's own, with the timer and the indicator.
abbrev awaiting : String → List Message → String → Option String → Bool → Watch
awaiting active ms id timer shown = record {
  active_conversation_id = active;
  has_agent_participant = true;
  messages = ms;
  pending_human_message_id = some id;
  no_reply_timer = timer;
  show_agent_no_reply_indicator = shown;
}

changed_own :
    (active : String) (ms : List Message) (m : Message) (w : Watch)
    → active ≢ ""
    → (is_human m.author_type && m.is_own_message) ≡ true
    → changed active true (ms ++ m ∷ []) w ≡ awaiting active (ms ++ m ∷ []) m.id (some m.id) false
unfolding changed
changed_own active ms m w named own =
    rw (named_is_watched active named, last-append_one ms m, watch_own, own) refl

changed_other :
    (active p : String) (ms : List Message) (n : Message) (w : Watch)
    → active ≢ ""
    → w.pending_human_message_id ≡ some p
    → outdated (some p) n.id ≡ true
    → (is_human n.author_type && n.is_own_message) ≡ false
    → changed active true (ms ++ n ∷ []) w ≡ record {
      active_conversation_id = active;
      has_agent_participant = true;
      messages = ms ++ n ∷ [];
      pending_human_message_id = none;
      no_reply_timer = none;
      show_agent_no_reply_indicator = false;
    }
unfolding changed clear_outdated watch_own
changed_other active p ms n w named pending old other =
    rw (named_is_watched active named, last-append_one ms n, pending, old, other) refl

-- A message of the user's own in a conversation with an agent hides the indicator until the timer
-- fires, which shows it; another message hides it, and if it comes before the timer fires, the
-- indicator is not shown.
pub indicator_lem :
    (active : String) (ms : List Message) (m n : Message) (w : Watch)
    → active ≢ ""
    → m.author_type ≡ human
    → m.is_own_message ≡ true
    → m.id ≢ ""
    → n.id ≢ m.id
    → n.is_own_message ≡ false
    → let waiting = changed active true (ms ++ m ∷ []) w in
      let replied = λ (v : Watch). changed active true ((ms ++ m ∷ []) ++ n ∷ []) v in
      (waiting.show_agent_no_reply_indicator ≡ false)
      × ((timer_fired waiting).show_agent_no_reply_indicator ≡ true)
      × ((timer_fired (replied waiting)).show_agent_no_reply_indicator ≡ false)
      × ((replied (timer_fired waiting)).show_agent_no_reply_indicator ≡ false)
unfolding timer_fired
indicator_lem active ms m n w named own own' id other reply =
    let mine : (is_human m.author_type && m.is_own_message) ≡ true = ground arith in
    let theirs : (is_human n.author_type && n.is_own_message) ≡ false = ground arith in
    let old : outdated (some m.id) n.id ≡ true = ground (arith, eq_iff m.id "", eq_iff n.id m.id) in
    let sent = ms ++ m ∷ [] in
    let back = λ (timer : Option String) (shown : Bool).
      changed_other active m.id sent n (awaiting active sent m.id timer shown) named refl old
        theirs in
    rw (changed_own active ms m w named mine) (
      refl,
      rw (eq_refl m.id) refl,
      rw (back (some m.id) false) refl,
      rw (back none (if str_eq m.id m.id then true else false)) refl,
    )

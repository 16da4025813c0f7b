-- ===== src/Web/Page/Reply/Current.antt =====
-- The pending message is the last one of the conversation.
use agentunited.Prelude.{
  String, Bool, true, false, ◌&&◌, Option, none, some, List, [], ◌∷◌, eq_iff, if◌then◌else◌, All,
  ◌≡◌, refl, ◌≢◌, is_some, inl, inr, arith, Option-cases, Bool-cases,
}
use agentunited.Web.Chat.{Message}
use agentunited.Web.Page.Reply.{
  Watch, last, is_human, outdated, clear_outdated, watch_own, stop_watch, is_watched, changed,
  is_pending, fire, timer_fired,
}

pub data Event : Type 0 where
  changes : String → Bool → List Message → Event
  fires : Event

pub step : Event → Watch → Watch
step (changes active agent_here ms) w = changed active agent_here ms w
step fires w = timer_fired w

pub run : List Event → Watch → Watch
run [] w = w
run (e ∷ es) w = run es (step e w)

-- Messages have ids.
abbrev pub HasIds : Event → Type 0
HasIds (changes active agent_here ms) = All (λ (m : Message). m.id ≢ "") ms
HasIds fires = Unit

abbrev pub IsLatest : Option String → Option Message → Bool → Type 0
IsLatest none latest watched = Unit
IsLatest (some p) none watched = ⊥
IsLatest (some p) (some m) watched = (m.id ≡ p) × (p ≢ "") × (watched ≡ true)

-- A pending id is that of the last message of a watched conversation, and the indicator is shown
-- only with one.
pub record IsCurrent (w : Watch) : Type 0 where
  pub pending :
      IsLatest w.pending_human_message_id
        (last w.messages)
        (is_watched w.active_conversation_id w.has_agent_participant)
  pub shown : w.show_agent_no_reply_indicator ≡ true → is_some w.pending_human_message_id ≡ true

last-id :
    (ms : List Message) (m : Message)
    → All (λ (x : Message). x.id ≢ "") ms
    → last ms ≡ some m
    → m.id ≢ ""
last-id (x ∷ []) m h e = grind (arith, h.0)
last-id (x ∷ (y ∷ ms)) m h e = last-id (y ∷ ms) m h.1 e
last-id [] m h e = cc e

-- What the effect needs of the state that it meets: a pending id is not empty.
abbrev Named : Option String → Type 0
Named none = Unit
Named (some p) = p ≢ ""

clear_pending :
    (p : Option String) (m : Message)
    → Named p
    → IsLatest (if outdated p m.id then none else p) (some m) true
clear_pending none m named = tt
clear_pending (some p) m named = ground (arith, eq_iff p "", eq_iff m.id p)

clear_shown :
    (p : Option String) (id : String) (shown : Bool)
    → (shown ≡ true → is_some p ≡ true)
    → (if outdated p id then false else shown) ≡ true
    → is_some (if outdated p id then none else p) ≡ true
clear_shown p id shown only = ground arith

-- The invariant, for an effect that has found a latest message.
clear_outdated-IsCurrent :
    (m : Message) (w : Watch)
    → last w.messages ≡ some m
    → is_watched w.active_conversation_id w.has_agent_participant ≡ true
    → (w.show_agent_no_reply_indicator ≡ true → is_some w.pending_human_message_id ≡ true)
    → Named w.pending_human_message_id
    → IsCurrent (clear_outdated m w)
unfolding clear_outdated
clear_outdated-IsCurrent m w latest watched shown named = record {
  pending = rw (latest, watched) (clear_pending w.pending_human_message_id m named);
  shown = clear_shown w.pending_human_message_id m.id w.show_agent_no_reply_indicator shown;
}

watch_own-IsCurrent :
    (m : Message) (w : Watch)
    → last w.messages ≡ some m
    → is_watched w.active_conversation_id w.has_agent_participant ≡ true
    → m.id ≢ ""
    → IsCurrent w
    → IsCurrent (watch_own m w)
unfolding watch_own
watch_own-IsCurrent m w latest watched named c =
    elim (Bool-cases (is_human m.author_type && m.is_own_message)) [
      | inl own ↦
          rw own (record { pending = rw (latest, watched) (refl, named, refl); shown = λ h. refl })
      | inr other ↦ rw other c
    ]

IsLatest-Named : (p : Option String) (o : Option Message) (b : Bool) → IsLatest p o b → Named p
IsLatest-Named none o b h = tt
IsLatest-Named (some p) (some m) b h = h.1
IsLatest-Named (some p) none b h = absurd h

changed-IsCurrent :
    (active : String) (agent_here : Bool) (ms : List Message) (w : Watch)
    → All (λ (m : Message). m.id ≢ "") ms
    → IsCurrent w
    → IsCurrent (changed active agent_here ms w)
unfolding changed stop_watch
changed-IsCurrent active agent_here ms w ids c =
    let w' : Watch = record w {
      active_conversation_id = active;
      has_agent_participant = agent_here;
      messages = ms;
      no_reply_timer = none;
    } in
    elim (Bool-cases (is_watched active agent_here)) [
      | inl watched ↦ elim (Option-cases (last ms)) [
        | inl empty ↦ rw (watched, empty) (record { pending = tt; shown = λ h. cc h })
        | inr (m, e) ↦
            let cleared = clear_outdated-IsCurrent m w' e watched c.shown (
              IsLatest-Named w.pending_human_message_id (last w.messages)
                (is_watched w.active_conversation_id w.has_agent_participant) c.pending) in
            rw (watched, e)
              (watch_own-IsCurrent m (clear_outdated m w') e watched (last-id ms m ids e) cleared)
      ]
      | inr alone ↦ rw alone (record { pending = tt; shown = λ h. cc h })
    ]

fire_shown :
    (id : String) (p : Option String) (shown : Bool)
    → (shown ≡ true → is_some p ≡ true)
    → (if is_pending id p then true else shown) ≡ true
    → is_some p ≡ true
fire_shown id none shown only h = only h
fire_shown id (some p) shown only h = refl

timer_fired-IsCurrent : (t : Option String) (w : Watch) → IsCurrent w → IsCurrent (fire t w)
unfolding fire
timer_fired-IsCurrent none w c = c
timer_fired-IsCurrent (some id) w c = record {
  pending = c.pending;
  shown = fire_shown id w.pending_human_message_id w.show_agent_no_reply_indicator c.shown;
}

step-IsCurrent : (e : Event) (w : Watch) → HasIds e → IsCurrent w → IsCurrent (step e w)
unfolding step timer_fired
step-IsCurrent (changes active agent_here ms) w ids c =
    changed-IsCurrent active agent_here ms w ids c
step-IsCurrent fires w ids c = timer_fired-IsCurrent w.no_reply_timer w c

-- Over any history the indicator is shown only while the id of the pending message is that of the
-- last message and the conversation is one with an agent, as long as messages have ids.
pub run-IsCurrent :
    (es : List Event) (w : Watch) → All HasIds es → IsCurrent w → IsCurrent (run es w)
unfolding run
run-IsCurrent [] w ids c = c
run-IsCurrent (e ∷ es) w ids c = run-IsCurrent es (step e w) ids.1 (step-IsCurrent e w ids.0 c)

-- ===== src/Desktop/App/Fresh.antt =====
-- The listener of keys reads the render that set it: which of what it reads is out of date, and how
-- keys compare with the menu.
use agentunited.Prelude.{
  ℕ, zero, suc, String, true, false, Option, none, some, List, [], ◌∷◌, ◌-◌, map, str_eq, length,
  ltb, get_elem?, if◌then◌else◌, if-either, All, ◌≡◌, refl, sym, ap, ◌∙◌, subst, arith, Bool-cases,
  eq_iff, inl, inr,
}
use Prim.Native.String.{◌++◌ as join, count}
use text.Mathlib.TextLemmas.{cons-append, length-cons}
use agentunited.Prelude.Dict.{Dict, lookup, insert}
use agentunited.Desktop.Hook.{Hook, ChannelData, MessageData, read_if, set_active_channel}
use agentunited.Desktop.Native.{handle_menu_action, register_menu_action}
use agentunited.Desktop.App.{
  App, View, view_of, is_chosen, switch_to, select, select_some, select_at, listen, hook_changed,
  handle_channel_select, handle_user_select, handle_settings_open, handle_new_channel,
  handle_new_dm, open_command_palette, close_command_palette, handle_toggle_sidebar,
  handle_previous_channel, handle_next_channel, show_keyboard_shortcuts, handle_jump_to_channel,
}
use agentunited.Desktop.App.Keys.{
  jump, KeyEvent, Callback, Shortcut, actions, hooks, own_dict, answer, handle_global_key_down,
  shortcuts, obey, menu_action, parse_int, reach,
}

-- The hook may replace its channels at any time, or store messages.
pub data Event : Type 0 where
  presses : KeyEvent → Event
  clicks : String → Option ℕ → Event
  chooses writes_to : String → Event
  closes : Event
  receives : Hook → Event
  stores : Dict (List MessageData) → Event

unfoldable pub step : Event → App → App
unfolding handle_global_key_down menu_action handle_channel_select handle_user_select
    close_command_palette hook_changed
step (presses e) a = handle_global_key_down e a
step (clicks name index) a = menu_action name index a
step (chooses id) a = handle_channel_select id a
step (writes_to user) a = handle_user_select user a
step closes a = close_command_palette a
step (receives hook) a = hook_changed true hook a
step (stores messages) a = hook_changed false (record a.hook { messages = messages }) a

unfoldable pub run : List Event → App → App
unfolding step
run [] a = a
run (e ∷ es) a = run es (step e a)

abbrev pub AreNamed : List ChannelData → Type 0
AreNamed = All (λ (ch : ChannelData). str_eq ch.id "" ≡ false)

-- The ids of channels are not empty.
abbrev pub IsNamed : Event → Type 0
IsNamed (chooses id) = str_eq id "" ≡ false
IsNamed (receives hook) = AreNamed hook.channels
IsNamed _ = Unit

-- The listener has the present channels and the present choice of one.
abbrev pub IsFresh : App → Type 0
IsFresh a =
    (a.listening.channels ≡ a.hook.channels)
    × (a.listening.active_channel ≡ a.hook.active_channel)
    × AreNamed a.hook.channels

id-read_if : (id : String) (ch : ChannelData) → (read_if id ch).id ≡ ch.id
unfolding read_if
id-read_if id ch =
    if-either (λ (c : ChannelData). c.id ≡ ch.id) (str_eq ch.id id) (λ same. refl) (λ other. refl)

AreNamed-read_if :
    (id : String) (chs : List ChannelData) → AreNamed chs → AreNamed (map (read_if id) chs)
AreNamed-read_if id [] named = tt
AreNamed-read_if id (ch ∷ chs) named =
    (ap (λ x. str_eq x "") (id-read_if id ch) ∙ named.0, AreNamed-read_if id chs named.1)

switch_to-IsFresh :
    (id : String) (a : App) → str_eq id "" ≡ false → IsFresh a → IsFresh (switch_to id a)
unfolding switch_to listen set_active_channel
switch_to-IsFresh id a full (chans, active, named) =
    rw full (refl, refl, AreNamed-read_if id a.hook.channels named)

select-IsFresh : (id : String) (a : App) → str_eq id "" ≡ false → IsFresh a → IsFresh (select id a)
unfolding select
select-IsFresh id a full fresh =
    if-either IsFresh (is_chosen a.hook.active_channel id) (λ same. fresh)
      (λ other. switch_to-IsFresh id a full fresh)

select_some-IsFresh :
    (o : Option ChannelData) (a : App)
    → ((ch : ChannelData) → o ≡ some ch → str_eq ch.id "" ≡ false)
    → IsFresh a
    → IsFresh (select_some o a)
unfolding select
select_some-IsFresh none a named fresh = fresh
select_some-IsFresh (some ch) a named fresh = select-IsFresh ch.id a (named ch refl) fresh

named-at :
    (chs : List ChannelData) (i : ℕ) (ch : ChannelData)
    → AreNamed chs
    → get_elem? chs i ≡ some ch
    → str_eq ch.id "" ≡ false
named-at [] i ch named at = ground arith
named-at (c ∷ chs) zero ch named at =
    ap (λ o. elim o [ none ↦ false | some x ↦ str_eq x.id "" ]) (sym at) ∙ named.0
named-at (c ∷ chs) (suc i) ch named at = named-at chs i ch named.1 at

select_at-IsFresh :
    (i : ℕ) (chs : List ChannelData) (a : App)
    → AreNamed chs
    → IsFresh a
    → IsFresh (select_at i chs a)
unfolding select
select_at-IsFresh i chs a named fresh =
    select_some-IsFresh (get_elem? chs i) a (λ ch at. named-at chs i ch named at) fresh

jump-IsFresh :
    (i : ℕ) (seen : View) (a : App)
    → AreNamed seen.channels
    → IsFresh a
    → IsFresh (handle_jump_to_channel i seen a)
unfolding handle_jump_to_channel
jump-IsFresh i seen a named fresh =
    if-either IsFresh (ltb i (length seen.channels))
      (λ inside. select_at-IsFresh i seen.channels a named fresh) (λ outside. fresh)

previous-IsFresh :
    (seen : View) (a : App)
    → AreNamed seen.channels
    → IsFresh a
    → IsFresh (handle_previous_channel seen a)
unfolding handle_previous_channel
previous-IsFresh seen a named fresh = select_at-IsFresh _ seen.channels a named fresh

next-IsFresh :
    (seen : View) (a : App)
    → AreNamed seen.channels
    → IsFresh a
    → IsFresh (handle_next_channel seen a)
unfolding handle_next_channel
next-IsFresh seen a named fresh = select_at-IsFresh _ seen.channels a named fresh

-- A handler that keeps the listener fresh.
abbrev pub Keeps : (App → App) → Type 0
Keeps act = (a : App) → IsFresh a → IsFresh (act a)

obey-IsFresh :
    (tests : List Shortcut) → All (λ (s : Shortcut). Keeps s.1) tests → Keeps (obey tests)
unfolding obey
obey-IsFresh [] kept a fresh = fresh
obey-IsFresh ((test, act) ∷ rest) kept a fresh =
    obey-IsFresh rest kept.1 (if test then act a else a)
      (if-either IsFresh test (λ acts. kept.0 a fresh) (λ stays. fresh))

press-IsFresh : (e : KeyEvent) → Keeps (handle_global_key_down e)
unfolding handle_global_key_down shortcuts handle_settings_open handle_new_channel handle_new_dm
    open_command_palette handle_toggle_sidebar show_keyboard_shortcuts
press-IsFresh e a fresh =
    let seen = a.listening in
    let named : AreNamed seen.channels = subst AreNamed (sym fresh.0) fresh.2 in
    let index = parse_int 0 e.key - 1 in
    obey-IsFresh (shortcuts e seen)
      (
        λ b f. f,
        (
          λ b f. f,
          (
            λ b f. f,
            (
              λ b f. f,
              (
                λ b f. f,
                (
                  λ b f. previous-IsFresh seen b named f,
                  (
                    λ b f. next-IsFresh seen b named f,
                    (λ b f. jump-IsFresh index seen b named f, (λ b f. f, tt)),
                  ),
                ),
              ),
            ),
          ),
        ),
      )
      a fresh

-- What the handlers of the menu keep.
abbrev Kept : Callback → Type 0
Kept c = (index : Option ℕ) (a : App) → IsFresh a → IsFresh (c index (view_of a) a)

jump-Kept : Kept jump
unfolding jump
jump-Kept none a fresh = fresh
jump-Kept (some index) a fresh = jump-IsFresh index (view_of a) a fresh.2 fresh

reach-IsFresh :
    (cs : List (String × Callback)) (name : String) (index : Option ℕ)
    → All (λ (c : String × Callback). Kept c.1) cs
    → Keeps (reach (map own_dict cs) name index)
unfolding reach own_dict register_menu_action handle_menu_action lookup insert answer
reach-IsFresh [] name index kept a fresh = fresh
reach-IsFresh ((own, c) ∷ cs) name index kept a fresh = reach-IsFresh cs name index kept.1 _ (
    if-either (λ o. IsFresh (answer o index a)) (str_eq own name) (λ called. kept.0 index a fresh)
      (λ warned. fresh))

actions-Kept : All (λ (c : String × Callback). Kept c.1) actions
unfolding actions handle_settings_open handle_new_channel handle_new_dm open_command_palette
    handle_toggle_sidebar show_keyboard_shortcuts
actions-Kept = (
  λ i a f. f,
  (
    λ i a f. f,
    (
      λ i a f. f,
      (
        λ i a f. f,
        (
          λ i a f. f,
          (
            jump-Kept,
            (
              λ i a f. previous-IsFresh (view_of a) a f.2 f,
              (λ i a f. next-IsFresh (view_of a) a f.2 f, (λ i a f. f, tt)),
            ),
          ),
        ),
      ),
    ),
  ),
)

click-IsFresh : (name : String) (index : Option ℕ) → Keeps (menu_action name index)
unfolding menu_action reach hooks handle_menu_action lookup answer
click-IsFresh name index a fresh = reach-IsFresh actions name index actions-Kept a fresh

dm-named : (user : String) → str_eq (join "dm_" user) "" ≡ false
dm-named user =
    let longer : count (join "dm_" user) ≡ suc (count (join "m_" user)) =
      ap count (cons-append "d" "m_" user) ∙ length-cons "d" (join "m_" user) in
    elim (Bool-cases (str_eq (join "dm_" user) "")) [
      | inl bare ↦
          let none_left : count (join "dm_" user) ≡ 0 =
            ap count ((eq_iff (join "dm_" user) "").0 bare) in
          ground (arith, longer, none_left)
      | inr full ↦ full
    ]

step-IsFresh : (e : Event) → IsNamed e → Keeps (step e)
unfolding step handle_channel_select handle_user_select close_command_palette hook_changed listen
step-IsFresh (presses e) named a fresh = press-IsFresh e a fresh
step-IsFresh (clicks name index) named a fresh = click-IsFresh name index a fresh
step-IsFresh (chooses id) named a fresh = select-IsFresh id a named fresh
step-IsFresh (writes_to user) named a fresh = select-IsFresh _ a (dm-named user) fresh
step-IsFresh closes named a fresh = fresh
step-IsFresh (receives hook) named a fresh = (refl, refl, named)
step-IsFresh (stores messages) named a fresh = fresh

pub run-IsFresh : (es : List Event) → All IsNamed es → Keeps (run es)
unfolding run
run-IsFresh [] named a fresh = fresh
run-IsFresh (e ∷ es) named a fresh =
    run-IsFresh es named.1 (step e a) (step-IsFresh e named.0 a fresh)

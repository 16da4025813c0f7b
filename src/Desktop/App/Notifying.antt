-- ===== src/Desktop/App/Notifying.antt =====
-- apps/desktop/src/App.tsx: the effect that notifies of messages of the last five seconds, which runs
-- whenever the messages, the channels, the configuration or the connection change. `lower` is
-- toLowerCase and `time_of` the time of a timestamp, where `none` is NaN; a text is its characters.
use Prim.Native.String.{◌++◌ as join, count}
use agentunited.Prelude.{
  ℕ, ◌+◌, String, Bool, true, false, not, ◌&&◌, ◌||◌, Option, none, some, List, [], ◌∷◌, ◌++◌, map,
  keep, any, find, ltb, str_eq, if◌then◌else◌, ◌≡◌, refl, ap, ◌∙◌,
}
use agentunited.Prelude.Dict.{Dict}
use agentunited.Prelude.Text.{includes, take_text}
use agentunited.Desktop.Hook.{ChannelData, MessageData, Mention}
use agentunited.Desktop.Shell.{AppConfig, Notice}
use agentunited.Desktop.Native.{Native, allows, is_dm, show_notification}
use agentunited.Desktop.App.{App}

-- Object.values(messages).flat()
unfoldable pub all_messages : Dict (List MessageData) → List MessageData
all_messages [] = []
all_messages ((channel, ms) ∷ rest) = ms ++ all_messages rest

abbrev pub or_unknown : Option ChannelData → String
or_unknown none = "Unknown Channel"
or_unknown (some ch) = if str_eq ch.name "" then "Unknown Channel" else ch.name

-- channels.find(...)?.name || 'Unknown Channel'
unfoldable pub channel_name : String → List ChannelData → String
channel_name id channels = or_unknown (find (λ ch. str_eq ch.id id) channels)

abbrev pub in_dm : MessageData → Bool
in_dm m = is_dm (some m.channel_id)

unfoldable pub excerpt : String → String
unfolding take_text
excerpt content = join (take_text 100 content) (if ltb 100 (count content) then "..." else "")

module _ (lower : String → String) (time_of : String → Option ℕ) where
  -- now - msgTime < 5000
  abbrev pub before_limit : ℕ → Option ℕ → Bool
  before_limit now none = false
  before_limit now (some time) = ltb now (time + 5000)

  abbrev pub is_recent : ℕ → MessageData → Bool
  is_recent now m = before_limit now (time_of m.timestamp)

  unfoldable pub is_mention : MessageData → Bool
  unfolding includes
  is_mention m = any (λ (x : Mention). includes "current user" (lower x.name)) m.mentions

  unfoldable pub notice_of : List ChannelData → MessageData → Notice
  unfolding is_mention channel_name excerpt
  notice_of channels m = record {
    title = if in_dm m then m.author.name else join "#" (channel_name m.channel_id channels);
    body = join m.author.name (join ": " (excerpt m.content));
    channel_id = some m.channel_id;
    is_mention = is_mention m;
  }

  abbrev pub listed : Option Notice → List Notice
  listed none = []
  listed (some n) = n ∷ []

  -- The loop over the recent messages: what the main process is asked to show.
  unfoldable pub notify_each :
      AppConfig → Native → List ChannelData → List MessageData → List Notice
  unfolding is_mention notice_of show_notification
  notify_each c native channels [] = []
  notify_each c native channels (m ∷ ms) =
      (if is_mention m || in_dm m && c.notifications.direct_messages
        then listed (show_notification (notice_of channels m) native)
        else [])
      ++ notify_each c native channels ms

  -- The effect behind its early return.
  abbrev pub notify_under : ℕ → Option AppConfig → App → List Notice
  unfolding notify_each all_messages
  notify_under now none a = []
  notify_under now (some c) a =
      if c.notifications.enabled
      then notify_each c a.native a.hook.channels
          (keep (is_recent now) (all_messages a.hook.messages))
      else []

  unfoldable pub notify : ℕ → App → List Notice
  unfolding notify_each all_messages
  notify now a =
      if a.native.is_electron && a.hook.connected
      then notify_under now a.native.app_config a
      else []

  -- Mentions and direct messages are wanted where they are turned on; what is both, where both are.
  unfoldable pub is_wanted : AppConfig → MessageData → Bool
  is_wanted c m =
      (is_mention m || in_dm m)
      && (not (is_mention m) || c.notifications.mentions)
      && (not (in_dm m) || c.notifications.direct_messages)

  cases_of :
      (mention dm mentions direct : Bool) (n : Notice)
      → (if mention || dm && direct
          then listed
              (if not (mention && not mentions) && not (dm && not direct) then some n else none)
          else [])
        ≡ (if (mention || dm) && (not mention || mentions) && (not dm || direct)
            then n ∷ []
            else [])
  cases_of true true true true n = refl
  cases_of true true true false n = refl
  cases_of true true false true n = refl
  cases_of true true false false n = refl
  cases_of true false true direct n = refl
  cases_of true false false direct n = refl
  cases_of false true mentions true n = refl
  cases_of false true mentions false n = refl
  cases_of false false mentions direct n = refl

  abbrev passes : AppConfig → Notice → Bool
  passes c n =
      not (n.is_mention && not c.notifications.mentions)
      && not (is_dm n.channel_id && not c.notifications.direct_messages)

  show-passes :
      (c : AppConfig) (native : Native) (n : Notice)
      → native.is_electron ≡ true
      → native.app_config ≡ some c
      → c.notifications.enabled ≡ true
      → show_notification n native ≡ (if passes c n then some n else none)
  unfolding show_notification
  show-passes c native n inside held on =
      ap (λ b. if b then some n else none)
        (ap (λ b. b && allows native.app_config n) inside
          ∙ ap (λ o. allows o n) held
          ∙ ap
              (λ b.
                b
                && not (n.is_mention && not c.notifications.mentions)
                && not (is_dm n.channel_id && not c.notifications.direct_messages))
              on)

  map-kept :
      (f : MessageData → Notice) (test : Bool) (m : MessageData) (ms : List MessageData)
      → (if test then f m ∷ [] else []) ++ map f ms ≡ map f (if test then m ∷ ms else ms)
  map-kept f true m ms = refl
  map-kept f false m ms = refl

  each-wanted :
      (c : AppConfig) (native : Native) (channels : List ChannelData) (ms : List MessageData)
      → native.is_electron ≡ true
      → native.app_config ≡ some c
      → c.notifications.enabled ≡ true
      → notify_each c native channels ms ≡ map (notice_of channels) (keep (is_wanted c) ms)
  unfolding notify_each is_wanted notice_of
  each-wanted c native channels [] inside held on = refl
  each-wanted c native channels (m ∷ ms) inside held on =
      let n = notice_of channels m in
      let tried = is_mention m || in_dm m && c.notifications.direct_messages in
      ap (λ o. (if tried then listed o else []) ++ notify_each c native channels ms)
        (show-passes c native n inside held on)
      ∙ ap (λ ns. ns ++ notify_each c native channels ms)
          (cases_of (is_mention m) (in_dm m) c.notifications.mentions
            c.notifications.direct_messages n)
      ∙ ap (λ ns. (if is_wanted c m then n ∷ [] else []) ++ ns)
          (each-wanted c native channels ms inside held on)
      ∙ map-kept (notice_of channels) (is_wanted c m) m (keep (is_wanted c) ms)

  -- In the application, while connected and with notifications on, the main process is asked to show
  -- the messages of the last five seconds that are mentions or direct messages, of each kind that
  -- they are only where it is turned on, in the order of the channels.
  pub notify_lem :
      (now : ℕ) (c : AppConfig) (a : App)
      → a.native.is_electron ≡ true
      → a.hook.connected ≡ true
      → a.native.app_config ≡ some c
      → c.notifications.enabled ≡ true
      → notify now a
        ≡ map
            (notice_of a.hook.channels)
            (keep (is_wanted c) (keep (is_recent now) (all_messages a.hook.messages)))
  unfolding notify
  notify_lem now c a inside up held on =
      let recent = keep (is_recent now) (all_messages a.hook.messages) in
      ap (λ b. if b && a.hook.connected then notify_under now a.native.app_config a else []) inside
      ∙ ap (λ b. if b then notify_under now a.native.app_config a else []) up
      ∙ ap (λ o. notify_under now o a) held
      ∙ ap (λ b. if b then notify_each c a.native a.hook.channels recent else []) on
      ∙ each-wanted c a.native a.hook.channels recent inside held on

-- ===== src/Desktop/Hook/Unread.antt =====
-- The unread counts of the channel list.
use mathlib.Core.List.{map-map}
use agentunited.Prelude.{
  ℕ, ◌+◌, ◌≡◌, refl, String, Option, List, [], ◌∷◌, map, arith, str_eq, if◌then◌else◌, keep, length,
  sym, ◌∙◌, ap,
}
use agentunited.Desktop.Hook.{
  Hook, ChannelData, ApiMessage, is_active, touched, mapped_message, message_created,
}

unfoldable pub receive_all : List ApiMessage → Hook → Hook
receive_all [] s = s
receive_all (d ∷ ds) s = receive_all ds (message_created d s)

-- The messages of one channel.
abbrev pub of_channel : String → List ApiMessage → List ApiMessage
of_channel id = keep (λ d. str_eq id d.channel_id)

touch_all : Option String → List ApiMessage → ChannelData → ChannelData
touch_all active [] ch = ch
touch_all active (d ∷ ds) ch =
    touch_all active ds (touched active (mapped_message d.channel_id d) ch)

map-untouched :
    (active : Option String) (chs : List ChannelData) → map (touch_all active []) chs ≡ chs
unfolding touch_all
map-untouched active [] = refl
map-untouched active (ch ∷ chs) = ap (◌∷◌ ch) (map-untouched active chs)

channels-receive_all :
    (ds : List ApiMessage) (s : Hook)
    → (receive_all ds s).channels ≡ map (touch_all s.active_channel ds) s.channels
unfolding receive_all touch_all message_created
channels-receive_all [] s = sym (map-untouched s.active_channel s.channels)
channels-receive_all (d ∷ ds) s =
    channels-receive_all ds (message_created d s) ∙ map-map _ _ s.channels

-- The count that a channel has after messages were received while `active` was shown.
abbrev pub counted : Option String → List ApiMessage → ChannelData → ℕ
counted active ds ch = elim (of_channel ch.id ds) [
  | [] ↦ ch.unread_count
  | _ ∷ _ ↦ if is_active active ch.id then 0 else ch.unread_count + length (of_channel ch.id ds)
]

unread-touch_all :
    (active : Option String) (ds : List ApiMessage) (ch : ChannelData)
    → (touch_all active ds ch).unread_count ≡ counted active ds ch
unfolding touch_all touched mapped_message
unread-touch_all active [] ch = refl
unread-touch_all active (d ∷ ds) ch =
    ground (arith, unread-touch_all active ds (touched active (mapped_message d.channel_id d) ch))

id-touch_all :
    (active : Option String) (ds : List ApiMessage) (ch : ChannelData)
    → (touch_all active ds ch).id ≡ ch.id
unfolding touch_all touched mapped_message
id-touch_all active [] ch = refl
id-touch_all active (d ∷ ds) ch =
    ground (arith, id-touch_all active ds (touched active (mapped_message d.channel_id d) ch))

map-touch_all :
    (active : Option String) (ds : List ApiMessage) (chs : List ChannelData)
    → (map (λ ch. ch.unread_count) (map (touch_all active ds) chs) ≡ map (counted active ds) chs)
      × (map (λ ch. ch.id) (map (touch_all active ds) chs) ≡ map (λ ch. ch.id) chs)
map-touch_all active ds [] = (refl, refl)
map-touch_all active ds (ch ∷ chs) =
    let (counts, ids) = map-touch_all active ds chs in
    (cc (unread-touch_all active ds ch, counts), cc (id-touch_all active ds ch, ids))

-- However many `message.created` events arrive while one channel is shown, the channel list keeps
-- its channels and their order, every channel that is not shown counts exactly the messages that
-- arrived in it, and the shown one is at zero once a message arrived in it.
pub unread-receive_all :
    (ds : List ApiMessage) (s : Hook)
    → (map (λ ch. ch.unread_count) (receive_all ds s).channels
        ≡ map (counted s.active_channel ds) s.channels)
      × (map (λ ch. ch.id) (receive_all ds s).channels ≡ map (λ ch. ch.id) s.channels)
unread-receive_all ds s =
    rw (channels-receive_all ds s) (map-touch_all s.active_channel ds s.channels)

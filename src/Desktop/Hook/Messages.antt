-- ===== src/Desktop/Hook/Messages.antt =====
-- The message lists of the channels.
use agentunited.Prelude.{
  ◌≡◌, refl, ◌≢◌, String, some, List, [], ◌∷◌, ◌++◌, map, arith, str_eq, eq_iff, eq_refl,
  if◌then◌else◌, All, sym, ◌∙◌, ap, append-nil, append_assoc, subst, map-append,
}
use agentunited.Prelude.Dict.{get_or, lookup-insert}
use agentunited.Desktop.Hook.{
  Hook, MessageData, ApiMessage, answered, mapped_message, message_created, message_updated,
  replaced, send_message, sent_copy,
}
use agentunited.Desktop.Hook.Unread.{receive_all, of_channel}

abbrev pub messages_of : String → Hook → List MessageData
messages_of c s = get_or c [] s.messages

messages_of-created :
    (c : String) (d : ApiMessage) (s : Hook)
    → messages_of c (message_created d s) ≡ (
        if str_eq c d.channel_id
        then messages_of c s ++ mapped_message c d ∷ []
        else messages_of c s)
unfolding message_created mapped_message
messages_of-created c d s = ground (
  arith,
  eq_iff c d.channel_id,
  eq_iff d.channel_id c,
  lookup-insert d.channel_id c (messages_of d.channel_id s ++ mapped_message d.channel_id d ∷ [])
      s.messages,
)

-- The messages of a channel are those it had, followed by those that arrived for it, in the order
-- of their arrival: messages of other channels never reach it.
pub messages_of-receive_all :
    (c : String) (ds : List ApiMessage) (s : Hook)
    → messages_of c (receive_all ds s) ≡ messages_of c s ++ map (mapped_message c) (of_channel c ds)
unfolding receive_all
messages_of-receive_all c [] s = sym (append-nil _)
messages_of-receive_all c (d ∷ ds) s = ground (
  arith,
  messages_of-receive_all c ds (message_created d s),
  messages_of-created c d s,
  append_assoc (messages_of c s) (mapped_message c d ∷ [])
      (map (mapped_message c) (of_channel c ds)),
)

map-replaced :
    (d : MessageData) (ms : List MessageData)
    → (map (λ m. m.id) (map (replaced d) ms) ≡ map (λ m. m.id) ms)
      × All (λ m. m.id ≡ d.id → m ≡ d) (map (replaced d) ms)
unfolding replaced
map-replaced d [] = (refl, tt)
map-replaced d (m ∷ ms) =
    let (ids, all) = map-replaced d ms in
    (ground (arith, ids, eq_iff m.id d.id), (λ e. ground (arith, eq_iff m.id d.id), all))

messages_of-updated :
    (c : String) (d : MessageData) (s : Hook)
    → messages_of c (message_updated d s)
      ≡ (if str_eq d.channel_id c then map (replaced d) (messages_of c s) else messages_of c s)
unfolding message_updated
messages_of-updated c d s = ground (
  arith,
  eq_iff d.channel_id c,
  lookup-insert d.channel_id c (map (replaced d) (messages_of d.channel_id s)) s.messages,
)

-- `message.updated` keeps the messages of its channel and their order, puts the new text wherever
-- that message stands, and leaves every other channel alone.
pub message_updated_lem :
    (d : MessageData) (s : Hook)
    → (map (λ m. m.id) (messages_of d.channel_id (message_updated d s))
        ≡ map (λ m. m.id) (messages_of d.channel_id s))
      × All (λ m. m.id ≡ d.id → m ≡ d) (messages_of d.channel_id (message_updated d s))
      × ((c : String) → d.channel_id ≢ c → messages_of c (message_updated d s) ≡ messages_of c s)
message_updated_lem d s =
    let here : messages_of d.channel_id (message_updated d s)
        ≡ map (replaced d) (messages_of d.channel_id s) =
      ground (arith, eq_refl d.channel_id, messages_of-updated d.channel_id d s) in
    let (ids, all) = map-replaced d (messages_of d.channel_id s) in
    (
      ap (map (λ m. m.id)) here ∙ ids,
      subst (All (λ m. m.id ≡ d.id → m ≡ d)) (sym here) all,
      λ c ne. ground (arith, eq_iff d.channel_id c, messages_of-updated c d s),
    )

messages_of-sent :
    (token : String) (c content : String) (reply : ApiMessage) (s : Hook)
    → token ≢ ""
    → messages_of c (send_message (some token) c content (answered reply) s)
      ≡ messages_of c s ++ sent_copy c content reply ∷ []
unfolding send_message
messages_of-sent token c content reply s ne = ground (
  arith,
  eq_iff token "",
  eq_refl c,
  lookup-insert c c (messages_of c s ++ sent_copy c content reply ∷ []) s.messages,
)

-- A message that is sent from here stands in its channel twice: `sendMessage` adds the server's
-- answer, and the `message.created` event for the same id adds it again.
pub sent_twice :
    (token : String) (c content : String) (reply : ApiMessage) (s : Hook)
    → token ≢ ""
    → reply.channel_id ≡ c
    → map
        (λ m. m.id)
        (messages_of c
          (message_created reply (send_message (some token) c content (answered reply) s)))
      ≡ map (λ m. m.id) (messages_of c s) ++ reply.id ∷ reply.id ∷ []
unfolding mapped_message
sent_twice token c content reply s ne here =
    let s' : Hook = send_message (some token) c content (answered reply) s in
    let both : messages_of c (message_created reply s')
        ≡ messages_of c s' ++ mapped_message c reply ∷ [] =
      ground (arith, eq_iff c reply.channel_id, messages_of-created c reply s') in
    rw (both, messages_of-sent token c content reply s ne) (simp (map-append, append_assoc))

-- ===== src/Web/Chat/Mapping.antt =====
-- What the pages are shown of the server's lists.
use Prim.Native.Char.{Char}
use agentunited.Prelude.{
  ℕ, String, Bool, true, false, some, List, [], ◌∷◌, map, ◌≡◌, refl, ◌≢◌, arith, str_eq, eq_iff,
}
use agentunited.Prelude.Dict.{Dict, lookup}
use agentunited.Web.Chat.{
  ApiMessage, Message, Listing, listed, HttpResponse, ok, json, api_request, map_api_message,
  get_messages, current_user,
}

module _ (show : ℕ → String) (lower : String → String) (is_space : Char → Bool)
    (upper : Char → Char) (store : Dict String) where
  nonempty-str_eq : (user : String) → user ≢ "" → str_eq user "" ≡ false
  nonempty-str_eq user ne = ground (arith, eq_iff user "")

  stored_user :
      (user : String)
      → lookup "user-id" store ≡ some user
      → str_eq user "" ≡ false
      → current_user store ≡ user
  unfolding current_user
  stored_user user stored ne = simp (stored, ne)

  message_ids :
      (user : String) (ms : List ApiMessage)
      → map (λ (m : Message). m.id) (map (map_api_message is_space upper user) ms)
        ≡ map (λ (m : ApiMessage). m.id) ms
  unfolding map_api_message
  message_ids user [] = refl
  message_ids user (m ∷ ms) = cc (message_ids user ms)

  own_messages :
      (user : String) (ms : List ApiMessage)
      → str_eq user "" ≡ false
      → map (λ (m : Message). m.is_own_message) (map (map_api_message is_space upper user) ms)
        ≡ map (λ (m : ApiMessage). str_eq m.author_id user) ms
  unfolding map_api_message
  own_messages user [] ne = refl
  own_messages user (m ∷ ms) ne = simp (ne, own_messages user ms ne)

  -- Where the browser has a user stored, a message of a successful answer is marked as the user's
  -- own exactly if that user is its author; a list of messages keeps its order and its ids.
  pub get_messages_lem :
      (r : HttpResponse (Listing ApiMessage)) (l : Listing ApiMessage) (user : String)
      → r.ok ≡ true
      → r.status ≢ 204
      → r.body ≡ json l
      → lookup "user-id" store ≡ some user
      → user ≢ ""
      → (ms : List Message) × (get_messages show lower is_space upper store (some r) ≡ ok ms)
        × (map (λ (m : Message). m.id) ms ≡ map (λ (m : ApiMessage). m.id) (listed l))
        × (map (λ (m : Message). m.is_own_message) ms
            ≡ map (λ (m : ApiMessage). str_eq m.author_id user) (listed l))
  unfolding get_messages api_request
  get_messages_lem r l user fine full body stored ne = (
    map (map_api_message is_space upper (current_user store)) (listed l),
    ground arith,
    message_ids (current_user store) (listed l),
    rw (stored_user user stored (nonempty-str_eq user ne))
        (own_messages user (listed l) (nonempty-str_eq user ne)),
  )

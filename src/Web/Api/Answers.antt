-- ===== src/Web/Api/Answers.antt =====
-- What the answers of api.ts become.
use agentunited.Prelude.{
  ℕ, String, true, Option, none, some, List, [], ◌∷◌, map, ◌≡◌, refl, sym, ◌∙◌,
}
use agentunited.Prelude.Dict.{lookup}
use agentunited.Prelude.Js.{
  Value, Items, empty_items, item, Fields, obj, arr, truthy, no_fields, field,
}
use agentunited.Web.Chat.{HttpResponse, json}
use agentunited.Web.Services.{Outcome, returns, ◌>>=◌}
use agentunited.Web.Api.{
  Browser, Message, fetch_messages, send_message_api, map_items, map_message, message_by, author_of,
  named_author, api_fetch, checked, successful, sent_message,
}

-- An array of objects.
abbrev pub objects : List Fields → Items
objects [] = empty_items
objects (fs ∷ rest) = item (obj fs) (objects rest)

-- Every object names its author.
abbrev pub AreNamed : List Fields → Type 0
AreNamed [] = Unit
AreNamed (fs ∷ rest) = (truthy (named_author (obj fs)) ≡ true) × AreNamed rest

module _ (channel : String) (user : Option String) where
  abbrev pub message_of_object : Fields → Message
  unfolding message_by
  message_of_object fs = message_by channel user (named_author (obj fs)) (obj fs)

  map_message-named :
      (fs : Fields)
      → truthy (named_author (obj fs)) ≡ true
      → map_message channel user (obj fs) ≡ returns (message_of_object fs)
  unfolding map_message author_of message_by
  map_message-named fs named = rw (named, named) refl

  map_items-objects :
      (os : List Fields)
      → AreNamed os
      → map_items (map_message channel user) (objects os) ≡ returns (map message_of_object os)
  unfolding map_items
  map_items-objects [] named = refl
  map_items-objects (fs ∷ os) (first, later) =
      rw (map_message-named fs first, map_items-objects os later) refl

-- A successful answer with a value under a key.
abbrev pub answer : ℕ → String → Value → HttpResponse Value
answer status key v = record {
  status = status;
  ok = true;
  body = json (obj (field key v no_fields));
  error_body = none;
}

abbrev pub collect {ℓ} : {A : Type ℓ} → List (Outcome A) → Outcome (List A)
collect [] = returns []
collect (a ∷ rest) = a >>= λ first. collect rest >>= λ later. returns (first ∷ later)

module _ (show : ℕ → String) (channel text : String) (b : Browser) where
  fetched :
      (os : List Fields)
      → AreNamed os
      → (fetch_messages show channel (some (answer 200 "messages" (arr (objects os)))) b).result
        ≡ returns (map (message_of_object channel (lookup "user-id" b.storage)) os)
  unfolding fetch_messages api_fetch checked successful
  fetched os named = map_items-objects channel (lookup "user-id" b.storage) os named

  sent :
      (o : Fields)
      → truthy (named_author (obj o)) ≡ true
      → (send_message_api show channel text (some (answer 201 "message" (obj o))) b).result
        ≡ returns (message_of_object channel (lookup "user-id" b.storage) o)
  unfolding send_message_api api_fetch checked sent_message successful
  sent o named = rw named refl

  collect-sent :
      (os : List Fields)
      → AreNamed os
      → collect (
          map
            (λ o.
              (send_message_api show channel text (some (answer 201 "message" (obj o))) b).result)
            os)
        ≡ returns (map (message_of_object channel (lookup "user-id" b.storage)) os)
  collect-sent [] named = refl
  collect-sent (o ∷ os) (first, later) = rw (sent o first, collect-sent os later) refl

  -- A channel's messages that name their authors are fetched as the very messages, in their order,
  -- that sending each of them came to where the answer held the same object.
  pub fetch_messages-send_message_api :
      (os : List Fields)
      → AreNamed os
      → (fetch_messages show channel (some (answer 200 "messages" (arr (objects os)))) b).result
        ≡ collect (
            map
              (λ o.
                (send_message_api show channel text (some (answer 201 "message" (obj o))) b).result)
              os)
  fetch_messages-send_message_api os named = fetched os named ∙ sym (collect-sent os named)

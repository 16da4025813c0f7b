-- ===== src/Web/Socket/Incoming.antt =====
-- The messages that reach the callback.
use agentunited.Prelude.{
  String, Bool, true, false, Option, List, ◌≡◌, refl, All, if◌then◌else◌, Option-cases, Bool-cases,
  inl, inr,
}
use agentunited.Prelude.Js.{Value, str, get, truthy, ◌or_else◌, is_text}
use agentunited.Web.Socket.{
  Socket, Message, Effect, message, handle_server_message, on_message_event, message_of,
}

-- The fields that the screens read are there: none is empty, null, zero or undefined.
abbrev pub IsComplete : Message → Type 0
IsComplete m = (truthy m.text ≡ true) × (truthy m.author ≡ true) × (truthy m.author_id ≡ true)

abbrev pub Delivers : Effect → Type 0
Delivers (message m) = IsComplete m
Delivers _ = Unit

or_else-truthy : (a b : Value) → truthy b ≡ true → truthy (a or_else b) ≡ true
or_else-truthy a b h = elim (Bool-cases (truthy a)) [ inl e ↦ rw e e | inr e ↦ rw e h ]

message_of-IsComplete :
    (now : String) (m : Value)
    → truthy (get "text" m or_else get "content" m) ≡ true
    → IsComplete (message_of now m)
unfolding message_of
message_of-IsComplete now m h = (
  h,
  or_else-truthy (get "author_email" m) _
      (or_else-truthy (get "name" (get "author" m)) (str "Unknown") refl),
  or_else-truthy (get "author_id" m) _ (
      or_else-truthy (get "user_id" m) _
        (or_else-truthy (get "id" (get "author" m)) (str "unknown") refl)),
)

All-if :
    (b : Bool) (xs ys : List Effect)
    → (b ≡ true → All Delivers xs)
    → (b ≡ false → All Delivers ys)
    → All Delivers (if b then xs else ys)
All-if true xs ys h k = h refl
All-if false xs ys h k = k refl

handle-Delivers :
    (now : String) (v : Value) (s : Socket) → All Delivers (handle_server_message now v s)
unfolding handle_server_message
handle-Delivers now v s =
    let m = get "message" v or_else v in
    All-if (is_text "message" (get "type" v)) _ _
      (λ _.
        All-if (truthy (get "text" m or_else get "content" m)) _ _
          (λ h. All-if s.on_message _ _ (λ _. (message_of-IsComplete now m h, tt)) (λ _. tt))
          (λ _. tt))
      (λ _.
        All-if (is_text "error" (get "type" v)) _ _
          (λ _. All-if s.on_message _ _ (λ _. (tt, tt)) (λ _. tt)) (λ _. tt))

-- Whatever the server sends, every message that the callback is given has a text, an author and an
-- author id that are not empty.
pub on_message_event-Delivers :
    (decode : String → Option Value) (now text : String) (s : Socket)
    → All Delivers (on_message_event decode now text s)
unfolding on_message_event
on_message_event-Delivers decode now text s = elim (Option-cases (decode text)) [
  | inl e ↦ rw (e, on_message_event) tt
  | inr (v, e) ↦ rw (e, on_message_event) (handle-Delivers now v s)
]

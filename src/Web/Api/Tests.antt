-- ===== src/Web/Api/Tests.antt =====
-- Calls of api.ts on concrete answers.
use agentunited.Prelude.{ℕ, String, false, none, some, [], ◌∷◌, ◌≡◌, refl}
use agentunited.Prelude.Js.{
  Value, empty_items, item, Fields, obj, arr, str, null, undefined, num, no_fields, field,
}
use agentunited.Web.Chat.{HttpResponse, empty}
use agentunited.Web.Services.{fails, returns}
use agentunited.Web.Api.{Browser, fetch_channels, fetch_messages, author_of, slice_of, items_length}
use agentunited.Web.Api.Answers.{answer}
use agentunited.Web.Api.Sessions.{
  run, run-stays_out, IsSignedOut, uploads, sends, reads_channels, reads_messages,
}

abbrev show : ℕ → String
show n = "1"

abbrev signed_in : Browser
signed_in = record { storage = ("auth-token", "t") ∷ ("user-id", "u1") ∷ []; location = "/chat" }

abbrev refusal : HttpResponse Value
refusal = record { status = 401; ok = false; body = empty; error_body = none }

abbrev hello : Fields
hello =
    field "id" (str "m1") (field "author_name" (str "Ann") (field "author_id" (str "u1") no_fields))

abbrev bye : Fields
bye = field "id" (str "m2") (field "author_email" (str "b@h") no_fields)

shortened :
    author_of (obj (field "author_id" (str "0123456789") no_fields)) ≡ returns (str "01234567")
unfolding author_of slice_of
shortened = refl

nameless : author_of (obj no_fields) ≡ returns (str "User")
unfolding author_of slice_of
nameless = refl

null_item :
    (fetch_messages show "c1"
      (some (answer 200 "messages" (arr (item null empty_items))))
      signed_in).result
    ≡ fails
unfolding fetch_messages
null_item = refl

counted :
    (fetch_channels show
      (some (
        answer 200 "channels" (
          arr (
            item
              (obj (field "members" (arr (item (str "u1") empty_items)) no_fields))
              empty_items))))
      signed_in).result
    ≡ returns
        (record { id = undefined; name = undefined; topic = str ""; member_count = num 1 } ∷ [])
unfolding fetch_channels items_length
counted = refl

run-stays_out_example : IsSignedOut (
    run show
      ((reads_channels, some (answer 200 "channels" (arr empty_items)))
        ∷ (uploads "c1" "hi" 10, some refusal)
        ∷ (sends "c1" "hi", none)
        ∷ (reads_messages "c1", some refusal)
        ∷ [])
      signed_in)
run-stays_out_example =
    run-stays_out show ((reads_channels, some (answer 200 "channels" (arr empty_items))) ∷ [])
      ((sends "c1" "hi", none) ∷ (reads_messages "c1", some refusal) ∷ []) (uploads "c1" "hi" 10)
      refusal signed_in refl refl

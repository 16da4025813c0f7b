-- ===== src/Web/Socket/Tests.antt =====
-- The socket service on concrete events.
use agentunited.Prelude.{ℕ, ◌≡◌, refl, String, false, Option, none, some, [], ◌∷◌, arith}
use agentunited.Prelude.Js.{Value, str, obj, field, no_fields}
use agentunited.Web.Socket.{Socket, make, message_of, with_token}
use agentunited.Web.Socket.Retries.{opens, closes, fires, run, IsPaced, run-IsPaced}

abbrev dial : String → Option ℕ
dial url = some 1

abbrev encode : String → String
encode t = t

abbrev fresh : Socket
unfolding make
fresh = make "ws://h/ws"

tokened : with_token encode (some "t") "ws://h/ws" ≡ "ws://h/ws?token=t"
tokened = refl

abbrev event : Value
event = obj (
    field "type" (str "message") (
      field "content" (str "hi")
        (field "author" (obj (field "name" (str "Bo") no_fields)) no_fields)))

reads_old_names : (message_of "now" event).author ≡ str "Bo"
unfolding message_of
reads_old_names = refl

fresh-IsPaced : IsPaced dial encode none fresh
unfolding make
fresh-IsPaced = record {
  limit = refl;
  attempts = omega arith;
  slowest = omega arith;
  fastest = omega arith;
  pending = λ d e. cc;
}

run-IsPaced_example :
    IsPaced dial encode none
      (run dial encode none (opens ∷ closes false ∷ fires ∷ closes false ∷ []) fresh)
run-IsPaced_example =
    run-IsPaced dial encode none (opens ∷ closes false ∷ fires ∷ closes false ∷ []) fresh
      fresh-IsPaced

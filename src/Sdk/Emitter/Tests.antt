-- ===== src/Sdk/Emitter/Tests.antt =====
-- The emitter on concrete subscriptions.
use agentunited.Prelude.{ℕ, ◌≡◌, refl, String, [], ◌∷◌}
use agentunited.Prelude.Dict.{lookup, insert}
use agentunited.Sdk.Emitter.{Emitter, empty, on, off, handlers, emit, add, remove}
use agentunited.Sdk.Emitter.Laws.{IsValid, on-IsValid, handlers-on, handlers-off}

abbrev nobody : ℕ → String
nobody r = ""

empty-IsValid : IsValid nobody empty
unfolding lookup
empty-IsValid = record { owned = λ event r p. cc; fresh = λ event r p. cc }

abbrev one : Emitter
unfolding on
one = (on "message" 1 empty).0

calls_once : emit {P = String} "message" "hi" (on "message" 1 one).0 ≡ (1, "hi") ∷ []
unfolding emit handlers on add lookup insert
calls_once = refl

handlers-on_example : handlers "message" (on "message" 1 empty).0 ≡ 1 ∷ []
unfolding handlers add lookup
handlers-on_example = handlers-on nobody "message" "message" 1 empty empty-IsValid

handlers-off_example :
    handlers "message" (off (on "message" 1 empty).1 (on "message" 1 empty).0) ≡ []
unfolding on handlers add remove lookup insert
handlers-off_example =
    handlers-off _ (on "message" 1 empty).1 "message" (on "message" 1 empty).0
      (on-IsValid nobody "message" 1 empty empty-IsValid) refl

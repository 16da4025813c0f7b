-- ===== src/Desktop/Service/Tests.antt =====
-- The service on concrete histories.
use agentunited.Prelude.{
  ℕ, ◌≡◌, refl, String, true, false, Option, none, some, List, [], ◌∷◌, arith, All,
}
use agentunited.Desktop.Service.{
  ReadyState, open_state, closed, Service, make, connect, disconnect, delay_of, send_message,
}
use agentunited.Desktop.Service.Lifecycle.{
  Event, connects, opens, fails, closes, fires, run, IsBounded, run-IsBounded, IsNotice,
  run-disconnect,
}

abbrev server : String
server = "ws://localhost:8080/ws"

abbrev fresh : Service
unfolding make
fresh = make server (some "t") none none

abbrev answers : String → Option String → Option ℕ
answers url token = some 7

abbrev throws : String → Option String → Option ℕ
throws url token = none

abbrev all_open : ℕ → ReadyState
all_open h = open_state

abbrev all_closed : ℕ → ReadyState
all_closed h = closed

fifth_delay : delay_of fresh.config 5 ≡ 30000
unfolding delay_of make
fifth_delay = refl

connect_twice : (connect answers all_open (connect answers all_open fresh).0).1 ≡ []
unfolding connect make
connect_twice = refl

send_needs_open : (send_message all_closed "c" "hi" none (connect answers all_open fresh).0).1 ≡ []
unfolding connect make send_message
send_needs_open = refl

abbrev history : List Event
history = connects all_closed ∷ opens ∷ closes false ∷ fires all_closed ∷ closes false ∷ []

run-IsBounded_example : IsBounded answers 10 (run answers history fresh).0
unfolding make
run-IsBounded_example =
    run-IsBounded answers 10 history fresh (λ url token. refl)
      (record { limit = refl; attempts = omega arith; room = λ h. cc })

run-disconnect_example :
    All IsNotice
      (run answers (fails ∷ closes true ∷ []) (disconnect (connect answers all_open fresh).0).0).1
run-disconnect_example =
    (run-disconnect answers (fails ∷ closes true ∷ []) (connect answers all_open fresh).0
      (tt, (refl, tt))).1

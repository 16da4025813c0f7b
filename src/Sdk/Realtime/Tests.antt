-- ===== src/Sdk/Realtime/Tests.antt =====
-- The realtime client on concrete histories.
use agentunited.Prelude.{ℕ, Bool, true, false, ◌≡◌, refl, String, Option, none, some, [], ◌∷◌}
use agentunited.Sdk.Url.{Url}
use agentunited.Sdk.Realtime.{
  Client, Options, Promise, make, caller, waiting, resolved, connect, disconnect, on_open, settle,
  Emit, error,
}
use agentunited.Sdk.Realtime.Promises.{connects, opens, fails, closes, step, run, run-first}
use agentunited.Sdk.Realtime.Closing.{undisturbed, IsDown, disconnect_is_final}

abbrev options : Options
options = record {
  url = "https://example.org/";
  api_key = none;
  auto_reconnect = none;
  reconnect_delay_ms = none;
}

abbrev address : Url
address = record { protocol = "https:"; host = "example.org"; pathname = "/"; search_params = [] }

abbrev parse : String → Option Url
parse s = some address

abbrev dial : Url → Option ℕ
dial u = some 4

abbrev dialling : Client
unfolding make
dialling = record (make options) {
  socket = some 3;
  promises = settle 3 (waiting caller) (λ h. Promise.unused);
}

dials_and_opens :
    (run (connects parse (some dial) ∷ opens undisturbed 4 ∷ []) (make options)).0.promises 4
    ≡ resolved
unfolding run step connect on_open make
dials_and_opens = refl

-- A handler that throws at the report of an error.
abbrev disturbed : Emit → Bool
disturbed (error why) = true
disturbed _ = false

run-first_example :
    (run
        (fails disturbed 3 ∷ opens undisturbed 3 ∷ closes undisturbed 3 1006 "" 8 ∷ [])
        dialling).0.promises
      3
    ≡ resolved
unfolding make
run-first_example =
    run-first 3 caller (fails disturbed 3 ∷ []) (opens undisturbed 3)
      (closes undisturbed 3 1006 "" 8 ∷ []) resolved dialling refl (refl, tt) (tt, tt) refl (tt, tt)

disconnect_is_final_example :
    IsDown (run (closes undisturbed 3 1000 "" 8 ∷ []) (disconnect 1000 "bye" dialling).0).0
unfolding make
disconnect_is_final_example =
    (disconnect_is_final 1000 "bye" (closes undisturbed 3 1000 "" 8 ∷ []) dialling refl (tt, tt)).0

abbrev live : Client
unfolding make
live = record (make options) { socket = some 3; promises = settle 3 resolved (λ h. Promise.unused) }

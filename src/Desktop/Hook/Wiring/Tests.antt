-- ===== src/Desktop/Hook/Wiring/Tests.antt =====
-- The effect runs twice, on a service that has a listener of its own.
use agentunited.Prelude.{ℕ, arith, false, none, some, [], ◌∷◌, ◌≡◌, refl, ◌==◌}
use agentunited.Prelude.Dict.{lookup}
use agentunited.Desktop.Service.{Service}
use agentunited.Desktop.Hook.{Hook}
use agentunited.Desktop.Hook.Wiring.{Callbacks, subscribe, cleanup, get_service, initialize}
use agentunited.Desktop.Hook.Wiring.Subscribed.{
  IsNew, HasSubscribed, HasSame, rerun, rerun-subscribes,
}

abbrev service : Service
service = record {
  ws = none;
  config = record {
    url = "ws://a";
    token = none;
    reconnect_interval = 1000;
    max_reconnect_attempts = 10;
  };
  reconnect_attempts = 0;
  reconnect_timer = none;
  is_connecting = false;
  listeners = [];
  connection_listeners = 1 ∷ [];
}

abbrev hook : Hook
hook = record {
  connected = false;
  connecting = false;
  messages = [];
  channels = [];
  users = [];
  current_user = none;
  active_channel = none;
  typing_users = [];
  typing_timeouts = [];
}

-- The functions of one run, numbered from n.
abbrev run_from : ℕ → Callbacks
run_from n = record {
  to_connection = n;
  to_message_created = n;
  to_message_updated = n;
  to_channel_created = n;
  to_user_presence = n;
  to_typing_start = n;
  to_typing_stop = n;
}

is_new : (n : ℕ) → (1 == n) ≡ false → IsNew service (run_from n)
unfolding lookup
is_new n other = record {
  connection = ground arith;
  messages = λ type. (refl, (refl, (refl, (refl, (refl, (refl, tt))))));
}

rerun-subscribes_example :
    HasSubscribed service
      (run_from 3)
      (rerun (run_from 2) (run_from 3 ∷ []) (subscribe (run_from 2) service, hook)).0
    × HasSame service
        (cleanup
          (run_from 3)
          (rerun (run_from 2) (run_from 3 ∷ []) (subscribe (run_from 2) service, hook))).0
rerun-subscribes_example =
    rerun-subscribes service hook (run_from 2) (run_from 3 ∷ []) (is_new 2 refl) (is_new 3 refl, tt)

-- A new service takes the place of the old one.
replaced_service :
    initialize none (some "t") (some service) ≡ some (get_service none (some "t") none)
unfolding initialize get_service
replaced_service = refl

-- ===== src/Desktop/Hook/Wiring.antt =====
-- The effects of apps/desktop/src/hooks/useWebSocket.ts that tie the hook to the service of
-- Desktop/Service, and the one service that the module of the service keeps. A run of the effect
-- makes new functions; `Callbacks` are the identities of those of one run.
pub mod Subscribed
mod Tests
use agentunited.Prelude.{
  ℕ, String, Bool, true, false, ◌||◌, Option, none, some, List, [], ◌∷◌, str_eq, if◌then◌else◌,
}
use agentunited.Desktop.Service.{
  ReadyState, Service, Effect, make, connect, disconnect, start_typing, stop_typing, on,
  unsubscribe, on_connection_change, off_connection_change,
}
use agentunited.Desktop.Hook.{Hook, has_token}

pub record Callbacks : Type 0 where
  pub to_connection : ℕ
  pub to_message_created : ℕ
  pub to_message_updated : ℕ
  pub to_channel_created : ℕ
  pub to_user_presence : ℕ
  pub to_typing_start : ℕ
  pub to_typing_stop : ℕ

-- What the effect subscribes with `on`, in its order.
abbrev pub events : Callbacks → List (String × ℕ)
events cb =
    ("message.created", cb.to_message_created)
    ∷ ("message.updated", cb.to_message_updated)
    ∷ ("channel.created", cb.to_channel_created)
    ∷ ("user.presence", cb.to_user_presence)
    ∷ ("typing.start", cb.to_typing_start)
    ∷ ("typing.stop", cb.to_typing_stop)
    ∷ []

unfoldable pub on_all : List (String × ℕ) → Service → Service
on_all [] s = s
on_all ((type, callback) ∷ es) s = on_all es (on type callback s)

unfoldable pub unsubscribe_all : List (String × ℕ) → Service → Service
unsubscribe_all [] s = s
unsubscribe_all ((type, callback) ∷ es) s = unsubscribe_all es (unsubscribe type callback s)

-- The body of the effect.
unfoldable pub subscribe : Callbacks → Service → Service
subscribe cb s = on_all (events cb) (on_connection_change cb.to_connection s)

-- What it returns, which runs before the next one: the pending timeouts of typing are cleared too.
unfoldable pub cleanup : Callbacks → Service × Hook → Service × Hook
cleanup cb (s, h) = (
  unsubscribe_all (events cb) (off_connection_change cb.to_connection s),
  record h { typing_timeouts = [] },
)

-- The effect runs again when the active channel or the service has changed.
unfoldable pub resubscribe : Callbacks → Callbacks → Service × Hook → Service × Hook
resubscribe old new w = let (s, h) = cleanup old w in (subscribe new s, h)

-- url || 'ws://localhost:8080/ws'
abbrev pub or_local : Option String → String
or_local none = "ws://localhost:8080/ws"
or_local (some url) = if str_eq url "" then "ws://localhost:8080/ws" else url

-- getWebSocketService: the URL and the token are those of the environment, for a first service.
unfoldable pub get_service : Option String → Option String → Option Service → Service
get_service url token none = make (or_local url) token none none
get_service url token (some s) = s

-- The effect on the options: a new service takes the place of the one that there is, which is not
-- disconnected.
unfoldable pub initialize : Option String → Option String → Option Service → Option Service
initialize url token current =
    if has_token url || has_token token then some (make (or_local url) token none none) else current

module _ (dial : String → Option String → Option ℕ) (ready : ℕ → ReadyState) where
  unfoldable pub hook_connect : Service × Hook → (Service × List Effect) × Hook
  hook_connect (s, h) = (connect dial ready s, record h { connecting = true })

  -- The effect that connects on mount, if it is asked to.
  unfoldable pub auto_connect : Bool → Service × Hook → (Service × List Effect) × Hook
  unfolding hook_connect
  auto_connect wanted (s, h) = if wanted then hook_connect (s, h) else ((s, []), h)

  unfoldable pub hook_start_typing : String → Service × Hook → (Service × List Effect) × Hook
  hook_start_typing channel (s, h) = (start_typing ready channel s, h)

  unfoldable pub hook_stop_typing : String → Service × Hook → (Service × List Effect) × Hook
  hook_stop_typing channel (s, h) = (stop_typing ready channel s, h)

-- What the effect of the mount returns: the service is disconnected whether or not the effect connected it.
unfoldable pub unmount : Service × Hook → (Service × List Effect) × Hook
unmount (s, h) = (disconnect s, h)

-- ===== src/Sdk/Realtime/Promises.antt =====
-- The promises that `connect` returns, over any history of calls and events.
use agentunited.Prelude.{
  ℕ, String, Option, none, some, List, [], ◌∷◌, ◌++◌, ◌≡◌, ◌≢◌, ◌⊎◌, inl, inr, arith, All, ◌==◌,
  if◌then◌else◌, refl, ◌∙◌, sym, subst, keep, not, ◌&&◌, Bool, Option-cases,
}
use agentunited.Prelude.Js.{Value}
use agentunited.Sdk.Url.{Url, normalize_url}
use agentunited.Sdk.Realtime.{
  Client, Owner, caller, timer_callback, Promise, waiting, resolved, rejected, abandoned, Reply,
  Emit, open_event, close, failure, connect, timer_fired, on_open, on_error, on_message, on_close,
  disconnect, schedule_reconnect,
}

-- A call of `connect` or a timer that fires comes with what the platform then answers, an event of a
-- socket with the reports at which a handler throws.
pub data Event : Type 0 where
  connects : (String → Option Url) → Option (Url → Option ℕ) → Event
  fires : ℕ → (String → Option Url) → Option (Url → Option ℕ) → Event
  opens fails : (Emit → Bool) → ℕ → Event
  receives : (String → Option Value) → String → Event
  closes : (Emit → Bool) → ℕ → ℕ → String → ℕ → Event
  disconnects : ℕ → String → Event

unfoldable pub step : Event → Client → Reply
step (connects parse impl) c = connect parse impl caller c
step (fires t parse impl) c = timer_fired parse impl t c
step (opens throws h) c = on_open throws h c
step (fails throws h) c = on_error throws h c
step (receives decode text) c = on_message decode text c
step (closes throws h code reason timer) c = on_close throws h code reason timer c
step (disconnects code reason) c = disconnect code reason c

unfoldable pub run : List Event → Client → Reply
run [] c = (c, [])
run (e ∷ es) c = let (c', out) = step e c in let (d, rest) = run es c' in (d, out ++ rest)

-- No constructor call of the event gives the handle h once more.
abbrev pub Avoids : ℕ → Event → Type 0
Avoids h (connects parse (some dial)) = (u : Url) → dial u ≢ some h
Avoids h (fires t parse (some dial)) = (u : Url) → dial u ≢ some h
Avoids h _ = Unit

abbrev pub IsSettled : Promise → Type 0
IsSettled p = (p ≡ resolved) ⊎ ((p ≡ rejected) ⊎ (p ≡ abandoned))

connect-promises :
    (h : ℕ) (who : Owner) (parse : String → Option Url) (dial : Url → Option ℕ) (c : Client)
    → ((u : Url) → dial u ≢ some h)
    → (connect parse (some dial) who c).0.promises h ≡ c.promises h
unfolding connect
connect-promises h who parse dial c av = elim (Option-cases (parse c.options.url)) [
  | inl e ↦ ground arith
  | inr (u, e) ↦ ground (arith, e, av (normalize_url c.options.api_key u))
]

step-settled :
    (h : ℕ) (e : Event) (c : Client)
    → Avoids h e
    → IsSettled (c.promises h)
    → (step e c).0.promises h ≡ c.promises h
unfolding step on_open on_error on_message on_close disconnect schedule_reconnect timer_fired
step-settled h (connects parse (some dial)) c av p = connect-promises h caller parse dial c av
step-settled h (connects parse none) c av p = unfold connect in refl
step-settled h (fires t parse (some dial)) c av p =
    connect-promises h timer_callback parse dial
      (record c { timers = keep (λ x. not (t == x)) c.timers }) av
step-settled h (fires t parse none) c av p = unfold connect in refl
step-settled h (opens throws g) c av p = ground arith
step-settled h (fails throws g) c av p = ground arith
step-settled h (receives decode text) c av p = refl
step-settled h (closes throws g code reason timer) c av p = ground arith
step-settled h (disconnects code reason) c av p = refl

run-settled :
    (h : ℕ) (es : List Event) (c : Client)
    → All (Avoids h) es
    → IsSettled (c.promises h)
    → (run es c).0.promises h ≡ c.promises h
unfolding run
run-settled h [] c av p = refl
run-settled h (e ∷ es) c (a, av) p =
    let same = step-settled h e c a p in run-settled h es (step e c).0 av (ground arith) ∙ same

-- What an event of a socket makes of the promise of its `connect` while that is waiting: `none`
-- where it leaves it waiting, as an error or a close does at whose report a handler throws.
abbrev pub first_outcome : ℕ → Event → Option Promise
first_outcome h (opens throws g) =
    if h == g then some (if throws open_event then abandoned else resolved) else none
first_outcome h (fails throws g) = if h == g && not (throws failure) then some rejected else none
first_outcome h (closes throws g code reason timer) =
    if h == g && not (throws (close code reason)) then some rejected else none
first_outcome h _ = none

step-first :
    (h : ℕ) (who : Owner) (e : Event) (p : Promise) (c : Client)
    → c.promises h ≡ waiting who
    → first_outcome h e ≡ some p
    → ((step e c).0.promises h ≡ p) × IsSettled p
unfolding step on_open on_error on_close schedule_reconnect
step-first h who (opens throws g) p c w first = ground arith
step-first h who (fails throws g) p c w first = ground arith
step-first h who (closes throws g code reason timer) p c w first = ground arith
step-first h who _ p c w first = cc

step-undecided :
    (h : ℕ) (who : Owner) (e : Event) (c : Client)
    → Avoids h e
    → c.promises h ≡ waiting who
    → first_outcome h e ≡ none
    → (step e c).0.promises h ≡ waiting who
unfolding step on_open on_error on_message on_close disconnect schedule_reconnect timer_fired
step-undecided h who (connects parse (some dial)) c av w first =
    connect-promises h caller parse dial c av ∙ w
step-undecided h who (connects parse none) c av w first = unfold connect in w
step-undecided h who (fires t parse (some dial)) c av w first =
    connect-promises h timer_callback parse dial
      (record c { timers = keep (λ x. not (t == x)) c.timers }) av
    ∙ w
step-undecided h who (fires t parse none) c av w first = unfold connect in w
step-undecided h who (opens throws g) c av w first = ground arith
step-undecided h who (fails throws g) c av w first = ground arith
step-undecided h who (receives decode text) c av w first = w
step-undecided h who (closes throws g code reason timer) c av w first = ground arith
step-undecided h who (disconnects code reason) c av w first = w

-- The promise of a `connect` is settled by the first of the open, error and close events of its
-- socket, leaving out the errors and closes at whose report a handler throws, since they leave the
-- promise waiting. An open event resolves it, unless a handler of that event throws: then it is
-- never settled. The others reject it. So it stays whatever calls and events follow, as long as
-- the platform gives no other socket the same handle.
pub run-first :
    (h : ℕ) (who : Owner) (before : List Event) (e : Event) (es : List Event) (p : Promise)
    (c : Client)
    → c.promises h ≡ waiting who
    → All (λ d. first_outcome h d ≡ none) before
    → All (Avoids h) before
    → first_outcome h e ≡ some p
    → All (Avoids h) es
    → (run (before ++ e ∷ es) c).0.promises h ≡ p
unfolding run
run-first h who [] e es p c w undecided early first av =
    let (now, settled) = step-first h who e p c w first in
    run-settled h es (step e c).0 av (subst IsSettled (sym now) settled) ∙ now
run-first h who (d ∷ before) e es p c w (u, undecided) (a, early) first av =
    run-first h who before e es p (step d c).0 (step-undecided h who d c a w u) undecided early
      first av

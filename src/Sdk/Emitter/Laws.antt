-- ===== src/Sdk/Emitter/Laws.antt =====
-- What subscribing and unsubscribing do to the handlers of every event.
use agentunited.Prelude.{
  ℕ, ◌+◌, ◌<◌, ◌≡◌, String, false, none, some, List, [], ◌∷◌, ◌++◌, arith, ◌==◌, str_eq, eq_iff,
  eq_refl, if◌then◌else◌, any, Option-cases, inl, inr,
}
use agentunited.Prelude.Dict.{lookup, insert, delete, lookup-insert, lookup-delete}
use agentunited.Sdk.Emitter.{Emitter, Subscription, add, remove, on, off, handlers}

-- Every event in the Map has a Set that was made for it: `owner` names the event of a Set.
pub record IsValid (owner : ℕ → String) (e : Emitter) : Type 0 where
  pub owned : (event : String) (r : ℕ) → lookup event e.listeners ≡ some r → owner r ≡ event
  pub fresh : (event : String) (r : ℕ) → lookup event e.listeners ≡ some r → r < e.next

abbrev pub own : ℕ → String → (ℕ → String) → ℕ → String
own r event owner q = if r == q then event else owner q

-- The owners after a subscription.
abbrev pub owners : String → (ℕ → String) → Emitter → ℕ → String
owners event owner e = elim (lookup event e.listeners) [
  | none ↦ own e.next event owner
  | some r ↦ owner
]

on-owned :
    (owner : ℕ → String) (event event' : String) (h r : ℕ) (e : Emitter)
    → IsValid owner e
    → lookup event' (on event h e).0.listeners ≡ some r
    → (owners event owner e r ≡ event') × (r < (on event h e).0.next)
unfolding on
on-owned owner event event' h r e v p = elim (Option-cases (lookup event e.listeners)) [
  | inl missing ↦ ground (
    arith,
    missing,
    p,
    eq_iff event event',
    lookup-insert event event' e.next e.listeners,
    v.owned event' r,
    v.fresh event' r,
  )
  | inr (q, found) ↦ ground (
    arith,
    found,
    p,
    eq_iff event event',
    lookup-insert event event' q e.listeners,
    v.owned event' r,
    v.fresh event' r,
    v.owned event q found,
    v.fresh event q found,
  )
]

-- `on` keeps the Map and the Sets in order.
pub on-IsValid :
    (owner : ℕ → String) (event : String) (h : ℕ) (e : Emitter)
    → IsValid owner e
    → IsValid (owners event owner e) (on event h e).0
on-IsValid owner event h e v = record {
  owned = λ event' r p. (on-owned owner event event' h r e v p).0;
  fresh = λ event' r p. (on-owned owner event event' h r e v p).1;
}

-- `on` adds its handler to those of its event, unless it is one of them, and leaves the handlers
-- of every other event as they were.
pub handlers-on :
    (owner : ℕ → String) (event event' : String) (h : ℕ) (e : Emitter)
    → IsValid owner e
    → handlers event' (on event h e).0
      ≡ (if str_eq event event' then add h (handlers event e) else handlers event' e)
unfolding handlers on
handlers-on owner event event' h e v = elim (Option-cases (lookup event e.listeners)) [
  | inl missing ↦ elim (Option-cases (lookup event' e.listeners)) [
    | inl missing' ↦
        ground (arith, eq_iff event event', lookup-insert event event' e.next e.listeners)
    | inr (r, found') ↦ ground (
      arith,
      eq_iff event event',
      lookup-insert event event' e.next e.listeners,
      v.fresh event' r found',
    )
  ]
  | inr (q, found) ↦ elim (Option-cases (lookup event' e.listeners)) [
    | inl missing' ↦ ground (arith, eq_iff event event', lookup-insert event event' q e.listeners)
    | inr (r, found') ↦ ground (
      arith,
      eq_iff event event',
      lookup-insert event event' q e.listeners,
      v.owned event q found,
      v.owned event' r found',
    )
  ]
]

-- While the Map still holds the Set of a subscription, the function that `on` returned removes its
-- handler from those of the event, and leaves every other event as it was.
pub handlers-off :
    (owner : ℕ → String) (t : Subscription) (event' : String) (e : Emitter)
    → IsValid owner e
    → lookup t.event e.listeners ≡ some t.current
    → handlers event' (off t e)
      ≡ (if str_eq t.event event' then remove t.handler (handlers t.event e) else handlers event' e)
unfolding handlers off
handlers-off owner t event' e v p = elim (Option-cases (lookup event' e.listeners)) [
  | inl missing' ↦ ground (arith, eq_iff t.event event', lookup-delete t.event event' e.listeners)
  | inr (r, found') ↦ ground (
    arith,
    eq_iff t.event event',
    lookup-delete t.event event' e.listeners,
    v.owned t.event t.current p,
    v.owned event' r found',
  )
]

off-IsValid :
    (owner : ℕ → String) (t : Subscription) (e : Emitter)
    → IsValid owner e
    → IsValid owner (off t e)
unfolding off
off-IsValid owner t e v = record {
  owned = λ event r p.
      ground
        (arith, p, eq_iff t.event event, lookup-delete t.event event e.listeners, v.owned event r);
  fresh = λ event r p.
      ground
        (arith, p, eq_iff t.event event, lookup-delete t.event event e.listeners, v.fresh event r);
}

on-current :
    (event : String) (h : ℕ) (e : Emitter)
    → (lookup event (on event h e).0.listeners ≡ some (on event h e).1.current)
      × ((on event h e).1.event ≡ event)
      × ((on event h e).1.handler ≡ h)
unfolding on
on-current event h e = elim (Option-cases (lookup event e.listeners)) [
  | inl missing ↦ ground (arith, eq_refl event, lookup-insert event event e.next e.listeners)
  | inr (q, found) ↦ ground (arith, eq_refl event, lookup-insert event event q e.listeners)
]

remove-append_one : (h : ℕ) (hs : List ℕ) → any (◌==◌ h) hs ≡ false → remove h (hs ++ h ∷ []) ≡ hs
unfolding remove
remove-append_one h [] new = ground arith
remove-append_one h (x ∷ hs) new = ground (arith, remove-append_one h hs)

remove-add : (h : ℕ) (hs : List ℕ) → any (◌==◌ h) hs ≡ false → remove h (add h hs) ≡ hs
unfolding add
remove-add h hs new = rw new (remove-append_one h hs new)

-- Subscribing a handler that is new to its event and then calling the function that `on` returned
-- gives back the handlers of every event.
off-on :
    (owner : ℕ → String) (event event' : String) (h : ℕ) (e : Emitter)
    → IsValid owner e
    → any (◌==◌ h) (handlers event e) ≡ false
    → handlers event' (off (on event h e).1 (on event h e).0) ≡ handlers event' e
off-on owner event event' h e v new =
    let e' : Emitter = (on event h e).0 in
    let t : Subscription = (on event h e).1 in
    let (held, same_event, same_handler) = on-current event h e in
    let held' : lookup t.event e'.listeners ≡ some t.current = rw same_event held in
    ground (
      arith,
      eq_iff event event',
      eq_refl event,
      same_event,
      same_handler,
      handlers-off (owners event owner e) t event' e' (on-IsValid owner event h e v) held',
      handlers-on owner event event' h e v,
      handlers-on owner event event h e v,
      remove-add h (handlers event e) new,
    )

-- The function that `on` returned, called a second time after its Set was emptied, drops the
-- handlers that the event has got since then: it deletes the event, though its own handler is not
-- among them.
pub second_off_drops :
    (event : String) (h h' : ℕ) (e : Emitter)
    → lookup event e.listeners ≡ none
    → (handlers event (on event h' (off (on event h e).1 (on event h e).0)).0 ≡ h' ∷ [])
      × (handlers event
            (off (on event h e).1 (on event h' (off (on event h e).1 (on event h e).0)).0)
          ≡ [])
unfolding handlers on off add remove
second_off_drops event h h' e missing =
    let made = insert event e.next e.listeners in
    let dropped = delete event made in
    ground (
      arith,
      eq_refl event,
      lookup-insert event event e.next e.listeners,
      lookup-delete event event made,
      lookup-insert event event (e.next + 1) dropped,
      lookup-delete event event (insert event (e.next + 1) dropped),
    )

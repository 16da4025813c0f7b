-- ===== src/Sdk/Emitter.antt =====
-- TypedEmitter of packages/typescript/src/realtime.ts. A Set of handlers is an object: `on` keeps
-- the Set of its event, and the function that it returns holds on to that Set. So the Sets stand in
-- a store, and the Map from events holds references to them. A handler is the identity of a
-- function. Handlers that call `on` or the returned function while `emit` runs are left out.
pub mod Laws
mod Tests
use agentunited.Prelude.{
  ℕ, ◌+◌, String, Bool, true, false, ◌||◌, Option, none, some, List, [], ◌∷◌, ◌++◌, map, ◌==◌,
  if◌then◌else◌, any, keep, not,
}
use agentunited.Prelude.Dict.{Dict, lookup, insert, delete}

-- `sets r` is the Set at reference r, for r below `next`.
pub record Emitter : Type 0 where
  pub listeners : Dict ℕ
  pub sets : ℕ → List ℕ
  pub next : ℕ

-- What the function that `on` returns has captured.
pub record Subscription : Type 0 where
  pub event : String
  pub current : ℕ
  pub handler : ℕ

abbrev pub empty : Emitter
empty = record { listeners = []; sets = λ r. []; next = 0 }

-- Set.add and Set.delete.
unfoldable pub add : ℕ → List ℕ → List ℕ
add h hs = if any (◌==◌ h) hs then hs else hs ++ h ∷ []

unfoldable pub remove : ℕ → List ℕ → List ℕ
remove h hs = keep (λ x. not (h == x)) hs

abbrev pub write : ℕ → List ℕ → (ℕ → List ℕ) → ℕ → List ℕ
write r hs sets q = if r == q then hs else sets q

unfoldable pub on : String → ℕ → Emitter → Emitter × Subscription
on event handler e = elim (lookup event e.listeners) [
  | none ↦ (
    record {
      listeners = insert event e.next e.listeners;
      sets = write e.next (add handler []) e.sets;
      next = e.next + 1;
    },
    record { event = event; current = e.next; handler = handler },
  )
  | some r ↦ (
    record e {
      listeners = insert event r e.listeners;
      sets = write r (add handler (e.sets r)) e.sets;
    },
    record { event = event; current = r; handler = handler },
  )
]

abbrev is_empty : List ℕ → Bool
is_empty [] = true
is_empty (h ∷ hs) = false

-- A call of the function that `on` returned.
unfoldable pub off : Subscription → Emitter → Emitter
off t e =
    let left = remove t.handler (e.sets t.current) in
    record e {
      listeners = if is_empty left then delete t.event e.listeners else e.listeners;
      sets = write t.current left e.sets;
    }

-- The handlers that `emit` calls for an event, in order.
unfoldable pub handlers : String → Emitter → List ℕ
handlers event e = elim (lookup event e.listeners) [ none ↦ [] | some r ↦ e.sets r ]

unfoldable pub emit {ℓ} : {P : Type ℓ} → String → P → Emitter → List (ℕ × P)
emit event payload e = map (λ h. (h, payload)) (handlers event e)

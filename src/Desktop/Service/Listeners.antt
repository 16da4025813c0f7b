-- ===== src/Desktop/Service/Listeners.antt =====
-- Subscribing, unsubscribing and delivery.
use mathlib.Core.List.{Perm, perm_middle}
use mathlib.Core.List.Perm
use agentunited.Prelude.{
  ℕ, String, ◌≡◌, ◌≢◌, some, List, [], ◌∷◌, ◌++◌, map, arith, ◌==◌, str_eq, eq_iff, eq_refl,
  if◌then◌else◌, Bool-cases, Option-cases, subst, ap, refl, append-nil, inl, inr, any, false,
}
use agentunited.Prelude.Dict.{Dict, get_or, insert, lookup, lookup-insert}
use agentunited.Prelude.Js.{Value}
use agentunited.Desktop.Service.{
  Service, deliver, on, unsubscribe, remove_first, on_message, on_connection_change,
  off_connection_change,
}

-- The callbacks that a message of a type is delivered to.
abbrev pub callbacks : String → Service → List ℕ
callbacks type s = get_or type [] s.listeners

append-one-perm : (c : ℕ) (xs : List ℕ) → Perm (xs ++ c ∷ []) (c ∷ xs)
append-one-perm c xs =
    subst (λ ys. Perm (xs ++ c ∷ []) (c ∷ ys)) (append-nil xs) (perm_middle xs [])

remove_first-append-perm : (c : ℕ) (xs : List ℕ) → Perm (remove_first c (xs ++ c ∷ [])) xs
unfolding remove_first
remove_first-append-perm c [] = ground (arith, Perm.refl {A = ℕ} [])
remove_first-append-perm c (x ∷ xs) = elim (Bool-cases (x == c)) [
  | inl e ↦ rw e (subst (λ y. Perm (xs ++ c ∷ []) (y ∷ xs)) (ground arith) (append-one-perm c xs))
  | inr e ↦ rw e (Perm.cons x (remove_first-append-perm c xs))
]

-- A callback that is registered for a type is called last for messages of that type, and a message
-- of any other type goes to the callbacks that it went to before.
on_message-on :
    (type other : String) (callback : ℕ) (payload : Value) (s : Service)
    → (on_message (some (other, payload)) (on type callback s)).1
      ≡ map
          (deliver payload)
          (if str_eq type other then callbacks other s ++ callback ∷ [] else callbacks other s)
unfolding on on_message
on_message-on type other callback payload s = ground (
  arith,
  eq_iff type other,
  lookup-insert type other (callbacks type s ++ callback ∷ []) s.listeners,
)

callbacks-unsubscribe-on :
    (type other : String) (callback : ℕ) (s : Service)
    → callbacks other (unsubscribe type callback (on type callback s)) ≡ (
        if str_eq type other
        then remove_first callback (callbacks type s ++ callback ∷ [])
        else callbacks other s)
unfolding on unsubscribe
callbacks-unsubscribe-on type other callback s =
    let grown : List ℕ = callbacks type s ++ callback ∷ [] in
    let m : Dict (List ℕ) = insert type grown s.listeners in
    ground (
      arith,
      eq_refl type,
      lookup-insert type type grown s.listeners,
      lookup-insert type other grown s.listeners,
      lookup-insert type other (remove_first callback grown) m,
    )

-- Calling the function that `on` returned leaves the callbacks of its type as they were, up to
-- their order, and those of every other type exactly as they were.
pub unsubscribe-on :
    (type : String) (callback : ℕ) (s : Service)
    → Perm (callbacks type (unsubscribe type callback (on type callback s))) (callbacks type s)
      × ((other : String)
          → type ≢ other
          → callbacks other (unsubscribe type callback (on type callback s)) ≡ callbacks other s)
unsubscribe-on type callback s = (
  subst (λ l. Perm l (callbacks type s))
      (ground (arith, eq_refl type, callbacks-unsubscribe-on type type callback s))
      (remove_first-append-perm callback (callbacks type s)),
  λ other ne. ground (arith, eq_iff type other, callbacks-unsubscribe-on type other callback s),
)

pub callbacks-on :
    (type other : String) (callback : ℕ) (s : Service)
    → callbacks other (on type callback s)
      ≡ (if str_eq type other then callbacks other s ++ callback ∷ [] else callbacks other s)
unfolding on
callbacks-on type other callback s = ground (
  arith,
  eq_iff type other,
  lookup-insert type other (callbacks type s ++ callback ∷ []) s.listeners,
)

pub callbacks-unsubscribe :
    (type other : String) (callback : ℕ) (s : Service)
    → callbacks other (unsubscribe type callback s)
      ≡ (if str_eq type other then remove_first callback (callbacks other s) else callbacks other s)
unfolding unsubscribe remove_first
callbacks-unsubscribe type other callback s = elim (Option-cases (lookup type s.listeners)) [
  | inl e ↦ ground (arith, e, eq_iff type other)
  | inr (xs, e) ↦
      ground (
        arith,
        e,
        eq_iff type other,
        lookup-insert type other (remove_first callback xs) s.listeners,
      )
]

-- A callback that is not among the first entries is the one that goes.
pub remove_first-append :
    (c : ℕ) (xs ys : List ℕ)
    → any (λ x. x == c) xs ≡ false
    → remove_first c (xs ++ c ∷ ys) ≡ xs ++ ys
unfolding remove_first
remove_first-append c [] ys new = ground arith
remove_first-append c (x ∷ xs) ys new = elim (Bool-cases (x == c)) [
  | inl e ↦ ground (arith, e, new)
  | inr e ↦ rw e (ap (λ zs. x ∷ zs) (remove_first-append c xs ys (ground (arith, e, new))))
]

pub connection_listeners-on :
    (callback : ℕ) (s : Service)
    → ((on_connection_change callback s).connection_listeners
        ≡ s.connection_listeners ++ callback ∷ [])
      × ((on_connection_change callback s).listeners ≡ s.listeners)
unfolding on_connection_change
connection_listeners-on callback s = (refl, refl)

pub connection_listeners-off :
    (callback : ℕ) (s : Service)
    → ((off_connection_change callback s).connection_listeners
        ≡ remove_first callback s.connection_listeners)
      × ((off_connection_change callback s).listeners ≡ s.listeners)
unfolding off_connection_change
connection_listeners-off callback s = (refl, refl)

-- A subscription for messages leaves those for the connection as they are.
pub connection_listeners-on_message :
    (type : String) (callback : ℕ) (s : Service)
    → ((on type callback s).connection_listeners ≡ s.connection_listeners)
      × ((unsubscribe type callback s).connection_listeners ≡ s.connection_listeners)
unfolding on unsubscribe
connection_listeners-on_message type callback s = (refl, ground arith)

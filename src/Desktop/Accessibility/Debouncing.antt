-- ===== src/Desktop/Accessibility/Debouncing.antt =====
-- Debounced announcements and generated ids.
use Prim.Native.String
use text.Mathlib.TextLemmas.{append_cancel_left}
use agentunited.Prelude.{
  ℕ, ◌+◌, String, false, Option, none, some, List, [], ◌∷◌, str_eq, eq_refl, if◌then◌else◌, ◌≡◌,
  refl, arith,
}
use agentunited.Prelude.Dict.{Dict, lookup, insert, lookup-insert, lookup-delete}
use agentunited.Desktop.Accessibility.{debounce_announcement, debounce_fired, generate_id}

abbrev pub debounce_all : List (String × String) → Dict String → Dict String
debounce_all [] timers = timers
debounce_all ((k, m) ∷ ms) timers = debounce_all ms (debounce_announcement k m timers)

-- The last message for a key, and what was pending before.
abbrev pub last_for : String → List (String × String) → Option String → Option String
last_for key [] old = old
last_for key ((k, m) ∷ ms) old = last_for key ms (if str_eq k key then some m else old)

lookup-debounce_all :
    (key : String) (ms : List (String × String)) (timers : Dict String)
    → lookup key (debounce_all ms timers) ≡ last_for key ms (lookup key timers)
unfolding debounce_announcement
lookup-debounce_all key [] timers = refl
lookup-debounce_all key ((k, m) ∷ ms) timers =
    rw (lookup-debounce_all key ms (insert k m timers), lookup-insert k key m timers) refl

-- Of the messages that are debounced under a key, its timer announces the last one only, whatever
-- comes under other keys, and leaves the other keys' timers as they were.
pub debounce_lem :
    (key : String) (ms : List (String × String)) (timers : Dict String)
    → ((debounce_fired key (debounce_all ms timers)).0 ≡ last_for key ms (lookup key timers))
      × (lookup key (debounce_fired key (debounce_all ms timers)).1 ≡ none)
      × ((other : String)
          → str_eq key other ≡ false
          → lookup other (debounce_fired key (debounce_all ms timers)).1
            ≡ last_for other ms (lookup other timers))
unfolding debounce_fired
debounce_lem key ms timers = (
  lookup-debounce_all key ms timers,
  rw (lookup-delete key key (debounce_all ms timers), eq_refl key) refl,
  λ other ne.
      rw (lookup-delete key other (debounce_all ms timers), ne)
        (lookup-debounce_all other ms timers),
)

-- Two generated ids of one prefix are the same only if they come from the same count.
pub generate_id_unique :
    (show : ℕ → String) (prefix : String) (a b : ℕ)
    → ((m n : ℕ) → show m ≡ show n → m ≡ n)
    → (generate_id show prefix a).0 ≡ (generate_id show prefix b).0
    → a ≡ b
unfolding generate_id
generate_id_unique show prefix a b distinct same =
    let tail =
      append_cancel_left prefix (String.◌++◌ "-" (show (a + 1))) (String.◌++◌ "-" (show (b + 1)))
        same in
    omega
      (arith, distinct (a + 1) (b + 1) (append_cancel_left "-" (show (a + 1)) (show (b + 1)) tail))

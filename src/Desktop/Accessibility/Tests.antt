-- ===== src/Desktop/Accessibility/Tests.antt =====
-- Announcements, a list of three items, and a colour.
use agentunited.Prelude.{true, false, some, [], ◌∷◌, ◌++◌, ◌==◌, ◌≡◌, refl}
use agentunited.Desktop.Accessibility.{
  Reader, fresh_region, silent, polite, assertive, announce, announce_in, process_queue, speak,
  announce_new_message, announce_navigation, announce_error, init, setup_roving, Roving,
}
use agentunited.Desktop.Accessibility.Announcing.{announces, run, texts, run-spoken}

abbrev ready : Reader
ready = record silent { live_region = some fresh_region }

at_start : init true silent ≡ ready
unfolding init
at_start = refl

greeting :
    (announce_new_message true "Ann" "general" false silent).1
    ≡ ("New message in general from Ann", polite) ∷ []
unfolding announce_new_message announce announce_in process_queue speak
greeting = refl

nowhere : announce_navigation false "home" silent ≡ (silent, [])
unfolding announce_navigation announce announce_in
nowhere = refl

failing : (announce_error true "no" silent).1 ≡ ("Error: no", assertive) ∷ []
unfolding announce_error announce announce_in process_queue speak
failing = refl

run-spoken_example :
    texts (run (announces "a" polite ∷ announces "b" polite ∷ []) ready).1
      ++ (run (announces "a" polite ∷ announces "b" polite ∷ []) ready).0.announce_queue
    ≡ "a" ∷ "b" ∷ []
run-spoken_example = run-spoken (announces "a" polite ∷ announces "b" polite ∷ []) ready refl

abbrev at_first : Roving
at_first = record { tab_stop = λ j. j == 0; focused = 0 }

set_up : setup_roving 0 ≡ at_first
unfolding setup_roving
set_up = refl

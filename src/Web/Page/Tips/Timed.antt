-- ===== src/Web/Page/Tips/Timed.antt =====
-- No toast stays, and the tip is shown once.
use agentunited.Prelude.{
  ℕ, ◌≤◌, String, true, false, Option, none, some, List, [], ◌∷◌, ◌≡◌, arith, eq_refl, is_some,
}
use agentunited.Web.Page.Tips.{
  Toast, no_toast, is_shown, set_toast, wait, Event, sets, waits, run, guide_tip,
}
use agentunited.Prelude.Dict.{Dict, lookup-insert}

-- What is left of a timer.
abbrev pub remaining : Option ℕ → ℕ
remaining none = 0
remaining (some left) = left

-- A toast that is shown has a timer, which is due in time.
pub record IsTimed (lasting : ℕ) (t : Toast) : Type 0 where
  pub timed : is_shown t.text ≡ true → is_some t.left ≡ true
  pub due : remaining t.left ≤ lasting

set_toast-IsTimed :
    (lasting : ℕ) (text : Option String) (t : Toast)
    → IsTimed lasting t
    → IsTimed lasting (set_toast lasting text t)
unfolding set_toast
set_toast-IsTimed lasting text t v = ground (arith, v.timed, v.due)

wait-IsTimed : (lasting time : ℕ) (t : Toast) → IsTimed lasting t → IsTimed lasting (wait time t)
unfolding wait
wait-IsTimed lasting time t v = ground (arith, v.timed, v.due)

run-IsTimed :
    (lasting : ℕ) (es : List Event) (t : Toast)
    → IsTimed lasting t
    → IsTimed lasting (run lasting es t)
unfolding run
run-IsTimed lasting [] t v = v
run-IsTimed lasting (sets text ∷ es) t v =
    run-IsTimed lasting es (set_toast lasting text t) (set_toast-IsTimed lasting text t v)
run-IsTimed lasting (waits time ∷ es) t v =
    run-IsTimed lasting es (wait time t) (wait-IsTimed lasting time t v)

-- However often a toast was set and whatever time has passed in between, none is shown any more
-- once the time that a toast lasts has passed without another text.
pub run-goes_away :
    (lasting : ℕ) (es : List Event) → is_shown (wait lasting (run lasting es no_toast)).text ≡ false
unfolding wait
run-goes_away lasting es =
    let v =
      run-IsTimed lasting es no_toast (record { timed = λ h. ground arith; due = ground arith }) in
    ground (arith, v.timed, v.due)

-- The tip is shown once in a session: the page that shows it has written that it did, so that no
-- later page of the session shows it again, whatever has been dismissed since.
guide_tip-once :
    (session local later : Dict String)
    → (guide_tip session local).1 ≡ true
    → (guide_tip (guide_tip session local).0 later).1 ≡ false
unfolding guide_tip
guide_tip-once session local later shown = ground (
  arith,
  shown,
  eq_refl "1",
  lookup-insert "au:agent-guide-tip-shown" "au:agent-guide-tip-shown" "1" session,
  lookup-insert "au:agent-guide-tip-shown" "au:plan-upgraded" "1" session,
)

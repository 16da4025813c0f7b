-- ===== src/Web/Keys/Targets.antt =====
-- Which keys are rotated and revoked.
use agentunited.Prelude.{
  ℕ, zero, suc, String, Bool, true, false, not, ◌&&◌, Option, none, some, List, [], ◌∷◌, ◌++◌, All,
  All-append, str_eq, if◌then◌else◌, if-either, ◌≡◌, ap, ◌∙◌,
}
use agentunited.Web.Forms.{Result, failed, answered, call_at, without}
use agentunited.Web.Keys.{
  Tab, Call, Answer, Values, ApiKeyItem, After, nothing, created, rotated, revoked, get_api_keys,
  create_api_key, rotate_api_key, revoke_api_key, load_keys, keys_loaded, continue, key_created,
  key_rotated, key_revoked, rotated_key, finish,
}
use agentunited.Web.Keys.Handling.{
  submit, choose_rotate, choose_revoke, cancel_rotate, cancel_revoke, set_overlap, type_confirm,
  on_rotate_key, rotate, on_revoke_key, revoke, is_confirmed, close_secret_modal, answer, end_call,
  creation_of, begun, mount,
}

pub data Event : Type 0 where
  mounts submits cancels_rotate cancels_revoke rotates revokes closes_secret : Event
  chooses_rotate chooses_revoke : ApiKeyItem → Event
  types : String → Event
  sets : ℕ → Event
  ends : String → ((c : Call) → Answer c) → ℕ → Event

abbrev pub is_active : ApiKeyItem → Bool
is_active key = str_eq key.status "active"

abbrev pub IsTarget : Option ApiKeyItem → Type 0
IsTarget none = Unit
IsTarget (some key) = is_active key ≡ true

-- A call that rotates or revokes is for an active key.
abbrev pub IsFor : Call → Type 0
IsFor (rotate_api_key key overlap) = is_active key ≡ true
IsFor (revoke_api_key key) = is_active key ≡ true
IsFor _ = Unit

abbrev pub AreActive : Tab → Type 0
AreActive t = IsTarget t.rotate_target × IsTarget t.revoke_target × All IsFor t.calls

begun-AreActive : (c : Call) (t : Tab) → IsFor c → AreActive t → AreActive (begun c t)
begun-AreActive c t fits (rotating, revoking, calls) =
    (rotating, revoking, All-append IsFor t.calls (c ∷ []) calls (fits, tt))

load-AreActive : (after : After) (t : Tab) → AreActive t → AreActive (load_keys after t)
unfolding load_keys
load-AreActive after t (rotating, revoking, calls) =
    (rotating, revoking, All-append IsFor t.calls (get_api_keys after ∷ []) calls (tt, tt))

loaded-AreActive :
    (r : Result (List ApiKeyItem)) (t : Tab) → AreActive t → AreActive (keys_loaded r t)
unfolding keys_loaded
loaded-AreActive (failed message) t fits = fits
loaded-AreActive (answered items) t fits = fits

continue-AreActive : (after : After) (t : Tab) → AreActive t → AreActive (continue after t)
unfolding continue
continue-AreActive nothing t fits = fits
continue-AreActive created t fits = fits
continue-AreActive rotated t fits = fits
continue-AreActive revoked t fits = fits

created-AreActive : (r : Result _) (t : Tab) → AreActive t → AreActive (key_created r t)
unfolding key_created
created-AreActive (failed message) t fits = fits
created-AreActive (answered key) t fits =
    load-AreActive created (record t { created_key = some key; is_create_open = false }) fits

rotated-AreActive :
    (now : String) (key : ApiKeyItem) (r : Result _) (t : Tab)
    → AreActive t
    → AreActive (key_rotated now key r t)
unfolding key_rotated
rotated-AreActive now key (failed message) t fits = fits
rotated-AreActive now key (answered new) t (rotating, revoking, calls) =
    load-AreActive rotated
      (record t { created_key = some (rotated_key now key new); rotate_target = none })
      (tt, revoking, calls)

revoked-AreActive : (r : Result (Unit {0})) (t : Tab) → AreActive t → AreActive (key_revoked r t)
unfolding key_revoked
revoked-AreActive (failed message) t fits = fits
revoked-AreActive (answered done) t (rotating, revoking, calls) =
    load-AreActive revoked (record t { revoke_target = none; revoke_confirm_text = "" })
      (rotating, tt, calls)

finish-AreActive :
    (now : String) (c : Call) (r : Answer c) (t : Tab) → AreActive t → AreActive (finish now c r t)
unfolding finish
finish-AreActive now (get_api_keys after) r t fits =
    continue-AreActive after (keys_loaded r t) (loaded-AreActive r t fits)
finish-AreActive now (create_api_key creation) r t fits = created-AreActive r t fits
finish-AreActive now (rotate_api_key key overlap) r t fits = rotated-AreActive now key r t fits
finish-AreActive now (revoke_api_key key) r t fits = revoked-AreActive r t fits

All-without : (i : ℕ) (cs : List Call) → All IsFor cs → All IsFor (without i cs)
All-without i [] fits = tt
All-without zero (c ∷ cs) fits = fits.1
All-without (suc i) (c ∷ cs) fits = (fits.0, All-without i cs fits.1)

end-AreActive :
    (now : String) (service : (c : Call) → Answer c) (o : Option Call) (t : Tab)
    → AreActive t
    → AreActive (end_call now service o t)
unfolding end_call
end-AreActive now service none t fits = fits
end-AreActive now service (some c) t fits = finish-AreActive now c (service c) t fits

rotate-AreActive :
    (o : Option ApiKeyItem) (t : Tab) → IsTarget o → AreActive t → AreActive (rotate o t)
rotate-AreActive none t target fits = fits
rotate-AreActive (some key) t target fits =
    if-either AreActive t.is_submitting (λ waits. fits)
      (λ goes. begun-AreActive (rotate_api_key key t.overlap_seconds) t target fits)

revoke-AreActive :
    (o : Option ApiKeyItem) (t : Tab) → IsTarget o → AreActive t → AreActive (revoke o t)
revoke-AreActive none t target fits = fits
revoke-AreActive (some key) t target fits =
    if-either AreActive (is_confirmed t key && not t.is_submitting)
      (λ goes. begun-AreActive (revoke_api_key key) t target fits) (λ waits. fits)

module _ (iso : String → String) (valid : Values → Bool) where
  unfoldable pub step : Event → Tab → Tab
  unfolding mount submit cancel_rotate cancel_revoke on_rotate_key on_revoke_key close_secret_modal
      choose_rotate choose_revoke type_confirm set_overlap answer
  step mounts t = mount t
  step submits t = submit iso valid t
  step cancels_rotate t = cancel_rotate t
  step cancels_revoke t = cancel_revoke t
  step rotates t = on_rotate_key t
  step revokes t = on_revoke_key t
  step closes_secret t = close_secret_modal t
  step (chooses_rotate key) t = choose_rotate key t
  step (chooses_revoke key) t = choose_revoke key t
  step (types value) t = type_confirm value t
  step (sets seconds) t = set_overlap seconds t
  step (ends now service i) t = answer now service i t

  unfoldable pub run : List Event → Tab → Tab
  unfolding step
  run [] t = t
  run (e ∷ es) t = run es (step e t)

  step-AreActive : (e : Event) (t : Tab) → AreActive t → AreActive (step e t)
  unfolding step mount submit cancel_rotate cancel_revoke on_rotate_key on_revoke_key
      close_secret_modal choose_rotate choose_revoke type_confirm set_overlap answer
  step-AreActive mounts t fits = load-AreActive nothing t fits
  step-AreActive submits t fits =
      if-either AreActive (t.is_create_open && not t.is_submitting && valid t.form)
        (λ goes. begun-AreActive (create_api_key (creation_of iso t.form)) t tt fits)
        (λ stays. fits)
  step-AreActive cancels_rotate t (rotating, revoking, calls) = (tt, revoking, calls)
  step-AreActive cancels_revoke t (rotating, revoking, calls) = (rotating, tt, calls)
  step-AreActive rotates t fits = rotate-AreActive t.rotate_target t fits.0 fits
  step-AreActive revokes t fits = revoke-AreActive t.revoke_target t fits.1 fits
  step-AreActive closes_secret t fits = fits
  step-AreActive (chooses_rotate key) t (rotating, revoking, calls) =
      if-either AreActive (is_active key) (λ active. (active, revoking, calls))
        (λ other. (rotating, revoking, calls))
  step-AreActive (chooses_revoke key) t (rotating, revoking, calls) =
      if-either AreActive (is_active key) (λ active. (rotating, active, calls))
        (λ other. (rotating, revoking, calls))
  step-AreActive (types value) t fits = fits
  step-AreActive (sets seconds) t fits = fits
  step-AreActive (ends now service i) t (rotating, revoking, calls) =
      end-AreActive now service (call_at i t.calls) (record t { calls = without i t.calls })
        (rotating, revoking, All-without i t.calls calls)

  -- Over any events, only keys that were listed as active are rotated or revoked, or chosen for it.
  pub run-AreActive : (es : List Event) (t : Tab) → AreActive t → AreActive (run es t)
  unfolding run
  run-AreActive [] t fits = fits
  run-AreActive (e ∷ es) t fits = run-AreActive es (step e t) (step-AreActive e t fits)

-- After a label was typed and the revocation cancelled, an active key of this label that is chosen
-- next is revoked by one press of Revoke: nothing is typed to confirm it.
pub cancelled_text_confirms :
    (key : ApiKeyItem) (label : String) (t : Tab)
    → is_active key ≡ true
    → str_eq label key.label ≡ true
    → t.is_submitting ≡ false
    → (on_revoke_key (choose_revoke key (cancel_revoke (type_confirm label t)))).calls
      ≡ t.calls ++ revoke_api_key key ∷ []
unfolding on_revoke_key choose_revoke cancel_revoke type_confirm
cancelled_text_confirms key label t active same free =
    let chosen = record t { revoke_target = some key; revoke_confirm_text = label } in
    let armed : choose_revoke key (cancel_revoke (type_confirm label t)) ≡ chosen =
      ap (λ b. if b then chosen else cancel_revoke (type_confirm label t)) active in
    let goes : is_confirmed chosen key && not chosen.is_submitting ≡ true =
      ap (λ b. b && not t.is_submitting) same ∙ ap not free in
    ap (λ (u : Tab). (on_revoke_key u).calls) armed
    ∙ ap (λ b. (if b then begun (revoke_api_key key) chosen else chosen).calls) goes

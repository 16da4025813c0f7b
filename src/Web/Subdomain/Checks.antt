-- ===== src/Web/Subdomain/Checks.antt =====
-- Answers of checks that arrive after the name was changed.
use agentunited.Prelude.{
  ℕ, suc, ◌≤◌, String, Bool, true, false, Option, none, some, str_eq, ◌==◌, ◌≡◌, eq_iff, refl,
  arith,
}
use agentunited.Web.Subdomain.{
  Claim, set_input, name_changed, checked, validate_subdomain, answered, start_claim, available,
  idle, timer_fired,
}

module _ (normalize : String → String) where
  -- Once the name was changed to another one that is valid, the answers of the checks before it
  -- change nothing, and the next check that is sent is for the new name.
  pub older_answers_ignored :
      (c : Claim) (text : String) (id : ℕ) (result : Option Bool)
      → str_eq (normalize text) (normalize c.input) ≡ false
      → str_eq (normalize text) "" ≡ false
      → validate_subdomain normalize (normalize text) ≡ none
      → id ≤ c.request_id
      → (answered id result (set_input normalize text c) ≡ set_input normalize text c)
        × ((timer_fired (set_input normalize text c)).1 ≡ some (suc c.request_id, normalize text))
  unfolding answered set_input name_changed checked timer_fired
  older_answers_ignored c text id result other given valid older =
      let late : (id == suc c.request_id) ≡ false = ground arith in
      rw (other, given, valid) (rw late refl, refl)

  emptied :
      (c : Claim) (text : String)
      → str_eq (normalize text) (normalize c.input) ≡ false
      → normalize text ≡ ""
      → set_input normalize text c ≡ record c {
        input = text;
        claim_error = none;
        check_state = idle;
        validation_error = none;
        timer = none;
      }
  unfolding set_input name_changed
  emptied c text other bare =
      let empty_name : str_eq (normalize text) "" ≡ true = (eq_iff (normalize text) "").1 bare in
      rw (other, empty_name) refl

  -- An answer that arrives after the input was emptied counts for the empty input: the form shows it
  -- as available, and claiming sends the empty name.
  pub empty_name_claimed :
      (c : Claim) (text : String)
      → str_eq (normalize text) (normalize c.input) ≡ false
      → normalize text ≡ ""
      → c.claiming ≡ false
      → let late = answered c.request_id (some true) (set_input normalize text c) in
        (late.check_state ≡ available) × ((start_claim normalize late).1 ≡ some "")
  unfolding answered start_claim
  empty_name_claimed c text other bare free =
      let same : (c.request_id == c.request_id) ≡ true = ground arith in
      rw (emptied c text other bare) (rw (same, free, bare) (refl, refl))

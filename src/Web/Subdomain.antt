-- ===== src/Web/Subdomain.antt =====
-- apps/web/src/components/billing/SubdomainClaimSection.tsx: checking and claiming a subdomain, on the
-- team plan with the form open. `normalize` is toLowerCase and trim. A check's answer carries the
-- number of its request. Copying the address and the markup are left out.
pub mod Checks
mod Tests
use Prim.Native.Char.{code}
use Prim.Native.String.{[], ◌∷◌, count}
use agentunited.Prelude.{
  ℕ, suc, String, Bool, true, false, ◌&&◌, ◌||◌, Option, none, some, List, [], ◌∷◌, any, ltb, leb,
  ◌==◌, str_eq, if◌then◌else◌,
}
use agentunited.Prelude.Text.{includes}

abbrev pub reserved_names : List String
reserved_names =
    "www" ∷ "api" ∷ "app" ∷ "mail" ∷ "relay" ∷ "admin" ∷ "status" ∷ "support" ∷ "docs" ∷ "blog" ∷ []

-- What is wrong with a name; the texts are left out.
pub data Problem : Type 0 where
  too_short too_long malformed reserved_name : Problem

abbrev pub is_alnum : ℕ → Bool
is_alnum k = (leb b'a' k && leb k b'z') || (leb b'0' k && leb k b'9')

-- ([a-z0-9-]*[a-z0-9])?$
unfoldable pub ends_well : String → Bool
ends_well [] = true
ends_well (c ∷ s) =
    let later = ends_well s in
    if str_eq s "" then is_alnum (code c) else (is_alnum (code c) || (code c == b'-')) && later

unfoldable pub is_name : String → Bool
unfolding ends_well
is_name [] = false
is_name (c ∷ s) = is_alnum (code c) && ends_well s

module _ (normalize : String → String) where
  unfoldable pub validate_subdomain : String → Option Problem
  unfolding is_name
  validate_subdomain value =
      let name = normalize value in
      if ltb (count name) 3
      then some too_short
      else if ltb 30 (count name)
      then some too_long
      else if is_name name
      then (if any (str_eq name) reserved_names then some reserved_name else none)
      else some malformed

pub data CheckState : Type 0 where
  idle checking available taken reserved invalid : CheckState

-- `timer` holds the number and the name of the check that waits to be sent.
pub record Claim : Type 0 where
  pub input : String
  pub check_state : CheckState
  pub validation_error : Option Problem
  pub request_id : ℕ
  pub timer : Option (ℕ × String)
  pub claiming : Bool
  pub claim_error : Option String

abbrev pub make : Claim
make = record {
  input = "";
  check_state = idle;
  validation_error = none;
  request_id = 0;
  timer = none;
  claiming = false;
  claim_error = none;
}

abbrev state_of : Problem → CheckState
state_of reserved_name = reserved
state_of _ = invalid

-- The effect on a name that is not empty, by what validateSubdomain says of it.
unfoldable pub checked : Option Problem → String → Claim → Claim
checked (some problem) name c = record c {
  validation_error = some problem;
  check_state = state_of problem;
  timer = none;
}
checked none name c = record c {
  validation_error = none;
  check_state = checking;
  request_id = suc c.request_id;
  timer = some (suc c.request_id, name);
}

module _ (normalize : String → String) where
  -- The effect, which clears the timer of the effect before it.
  unfoldable pub name_changed : Claim → Claim
  unfolding checked validate_subdomain
  name_changed c =
      let name = normalize c.input in
      if str_eq name ""
      then record c { check_state = idle; validation_error = none; timer = none }
      else checked (validate_subdomain normalize name) name c

  -- A change of the input, whose text the form makes lowercase.
  unfoldable pub set_input : String → Claim → Claim
  unfolding name_changed
  set_input text c =
      let next = record c { input = text; claim_error = none } in
      if str_eq (normalize text) (normalize c.input) then next else name_changed next

  -- The call of claimSubdomain, with its name.
  unfoldable pub start_claim : Claim → Claim × Option String
  start_claim c = elim c.check_state [
    | available ↦
        (if c.claiming
          then (c, none)
          else (record c { claiming = true; claim_error = none }, some (normalize c.input)))
    | _ ↦ (c, none)
  ]

-- The timer's callback up to its await, with the check that it sends.
unfoldable pub timer_fired : Claim → Claim × Option (ℕ × String)
timer_fired c = (record c { timer = none }, c.timer)

-- The answer of a check: `none` is a check that fails.
unfoldable pub answered : ℕ → Option Bool → Claim → Claim
answered id result c =
    if id == c.request_id
    then record c {
      check_state = elim result [ none ↦ idle | some free ↦ if free then available else taken ];
    }
    else c

-- The end of claimSubdomain: `some` text is the lowercase message of an exception, empty where it
-- is no Error.
unfoldable pub end_claim : Option String → Claim → Claim
unfolding includes
end_claim none c = record c { input = ""; check_state = idle; claiming = false }
end_claim (some why) c = record c {
  claiming = false;
  claim_error = some (
      if includes "taken" why || includes "already" why || includes "409" why
      then "That subdomain is already taken."
      else "Failed to claim subdomain. Try again.");
}

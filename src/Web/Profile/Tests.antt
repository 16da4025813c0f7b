-- ===== src/Web/Profile/Tests.antt =====
-- A profile is loaded, changed and saved, and the plan changed.
use agentunited.Prelude.{String, true, false, none, some, ◌≡◌, refl}
use agentunited.Prelude.Text.{take_text}
use agentunited.Web.Forms.{failed, answered}
use agentunited.Web.Profile.{
  Profile, MeProfile, Update, make, me_loaded, handle_avatar_file, start_password,
  get_password_strength, has, weak, good, strong, initials_for, initials,
}
use agentunited.Web.Profile.Billing.{
  Billing, free, pro, team, redirect_of, tab_changed, load_billing, billing_loaded, start_checkout,
  end_checkout, show_upgrade_prompt,
}
use agentunited.Web.Profile.Saving.{kept_or}

abbrev trim : String → String
trim s = s

abbrev me : MeProfile
me = record { email = some "a@b.c"; display_name = some "Ada"; avatar_url = none }

abbrev edited : Profile
edited = record make { profile = some me; display_name = "Ada L"; loading = false }

-- A server that keeps what is left out.
abbrev server : Update → MeProfile → MeProfile
server u old = record old {
  display_name = kept_or u.display_name old.display_name;
  avatar_url = kept_or u.avatar_url old.avatar_url;
}

abbrev cleared : Profile
cleared = record edited { display_name = "" }

loaded : (me_loaded (answered me) make).display_name ≡ "Ada"
unfolding me_loaded
loaded = refl

avatars :
    ((handle_avatar_file 5242880 "image/png" make).1 ≡ true)
    × ((handle_avatar_file 5242881 "image/png" make).1 ≡ false)
    × ((handle_avatar_file 10 "image/gif" make).1 ≡ false)
unfolding handle_avatar_file
avatars = (refl, refl, refl)

strengths :
    (get_password_strength "short1!" ≡ weak)
    × (get_password_strength "abcdefghijkl" ≡ good)
    × (get_password_strength "abcdefghij1!" ≡ strong)
unfolding get_password_strength has
strengths = (refl, refl, refl)

ada : initials_for trim trim none "Ada Lovelace King" ≡ "AL"
unfolding initials_for initials take_text
ada = refl

short_password :
    (start_password (record make { new_password = "abc"; confirm_password = "abc" })).1 ≡ none
unfolding start_password
short_password = refl

abbrev billing : Billing
billing = record {
  active = false;
  billing_status = none;
  billing_loading = true;
  billing_error = none;
  checkout_loading_plan = none;
  portal_loading = false;
  billing_action_error = none;
  billing_redirect_status = redirect_of none (some "true");
}

-- A failed load is not tried again while the tab stays; coming back to it tries again.
reload :
    let b = billing_loaded (failed none) (tab_changed true billing).0 in
    (b.billing_error ≡ some "Unable to load billing info. Try refreshing.")
    × ((tab_changed true b).1 ≡ true)
unfolding billing_loaded tab_changed load_billing
reload = (refl, refl)

paid :
    ((end_checkout (answered "https://pay") (start_checkout "https://x" pro billing).0).1
      ≡ some "https://pay")
    × ((start_checkout "https://x" team (start_checkout "https://x" pro billing).0).1 ≡ none)
unfolding end_checkout start_checkout
paid = (refl, refl)

prompted :
    (show_upgrade_prompt (some (record { plan = free; entity_count = 3; entity_limit = 3 })) ≡ true)
    × (show_upgrade_prompt (some (record { plan = team; entity_count = 3; entity_limit = 3 }))
        ≡ false)
unfolding show_upgrade_prompt
prompted = (refl, refl)

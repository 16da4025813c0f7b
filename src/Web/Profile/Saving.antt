-- ===== src/Web/Profile/Saving.antt =====
-- What saving the profile sends, and what the page shows behind it.
use agentunited.Prelude.{
  String, Bool, true, false, not, ◌&&◌, ◌||◌, Option, none, some, str_eq, eq_iff, if◌then◌else◌,
  if-either, ◌≡◌, refl, sym, ap, ◌∙◌,
}
use agentunited.Web.Forms.{answered}
use agentunited.Web.Profile.{
  Profile, MeProfile, Update, profile_dirty, start_profile, profile_updated, name_in, or_empty,
  or_undefined, update_of,
}

or_empty-or_undefined : (value : String) → or_empty (or_undefined value) ≡ value
or_empty-or_undefined value =
    if-either (λ o. or_empty o ≡ value) (str_eq value "") (λ bare. sym ((eq_iff value "").0 bare))
      (λ full. refl)

-- What the server has of a part behind an update, which leaves alone what was left out.
abbrev pub kept_or : Option String → Option String → Option String
kept_or none old = old
kept_or (some new) old = some new

-- A text that is emptied, where the server has one.
abbrev pub is_cleared : String → Option String → Bool
is_cleared text old = str_eq text "" && not (str_eq (or_empty old) "")

-- A text that is another one than the server's.
abbrev is_changed : String → Option String → Bool
is_changed text old = not (str_eq text (or_empty old))

-- A save with its answer, where `server` makes the new profile of what is sent and the old one.
abbrev pub finished :
    (Update → MeProfile → MeProfile) → MeProfile → Profile × Option Update → Profile
finished server old (p, none) = p
finished server old (p, some u) = profile_updated (answered (server u old)) p

abbrev pub saved :
    (String → String) → (Update → MeProfile → MeProfile) → MeProfile → Profile → Profile
saved trim server old p = finished server old (start_profile trim p)

differs : (a b : String) (rest : Bool) → str_eq a b ≡ false → not (str_eq a b) || rest ≡ true
differs a b rest h = ap (λ x. not x || rest) h

abbrev update_with : String → String → Update
update_with name avatar = record {
  display_name = or_undefined name;
  avatar_url = or_undefined avatar;
}

abbrev second : Profile × Option Update → Option Update
second r = r.1

-- A name that is cleared is left out of what is sent: where nothing is being saved, the save goes
-- out without a name, and where the server answers with the name as it was, the page has the same to
-- save again.
pub cleared_name_stays :
    (trim : String → String) (p : Profile) (me : MeProfile)
    → trim p.display_name ≡ ""
    → str_eq "" (name_in p.profile) ≡ false
    → name_in (some me) ≡ name_in p.profile
    → p.saving_profile ≡ false
    → ((start_profile trim p).1
        ≡ some (record { display_name = none; avatar_url = or_undefined (trim p.avatar_url) }))
      × (profile_dirty trim (profile_updated (answered me) p) ≡ true)
unfolding start_profile profile_dirty profile_updated
cleared_name_stays trim p me bare named kept free =
    let dirty : profile_dirty trim p ≡ true =
      differs (trim p.display_name) (name_in p.profile) _
        (ap (λ t. str_eq t (name_in p.profile)) bare ∙ named) in
    let goes : profile_dirty trim p && not p.saving_profile ≡ true =
      ap (λ b. b && not p.saving_profile) dirty ∙ ap not free in
    let going = record p { saving_profile = true; profile_error = none } in
    let unnamed : update_of trim p
        ≡ record { display_name = none; avatar_url = or_undefined (trim p.avatar_url) } =
      ap (λ t. update_with t (trim p.avatar_url)) bare in
    let sent : (start_profile trim p).1 ≡ some (update_of trim p) =
      ap (λ b. second (if b then (going, some (update_of trim p)) else (p, none))) goes in
    (
      sent ∙ ap some unnamed,
      differs (trim p.display_name) (or_empty me.display_name) _
          (ap (λ t. str_eq t (or_empty me.display_name)) bare ∙ ap (str_eq "") kept ∙ named),
    )

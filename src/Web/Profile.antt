-- ===== src/Web/Profile.antt =====
-- apps/web/src/pages/UserSettingsPage.tsx: the profile, the password and the billing of the user. Calls
-- of the services are split at their awaits; setters are applied at once. `trim` is
-- String.prototype.trim and `upper` toUpperCase; a text is its characters. The dates, the classes of
-- the markup and the markup itself are left out.
pub mod Billing
pub mod Saving
mod Tests
use Prim.Native.Char.{Char, code}
use Prim.Native.String.{count, [], ◌∷◌}
use agentunited.Prelude.Text.{take_text}
use agentunited.Prelude.{
  ℕ, ◌*◌, String, Bool, true, false, not, ◌&&◌, ◌||◌, Option, none, some, ltb, leb, ◌==◌, str_eq,
  if◌then◌else◌,
}
use agentunited.Web.Forms.{Result, failed, answered, message_of}

pub data SettingsTab : Type 0 where
  profile_tab password_tab billing_tab : SettingsTab

pub record MeProfile : Type 0 where
  pub email : Option String
  pub display_name : Option String
  pub avatar_url : Option String

pub record Profile : Type 0 where
  pub profile : Option MeProfile
  pub loading : Bool
  pub load_error : Option String
  pub display_name : String
  pub avatar_url : String
  pub saving_profile : Bool
  pub profile_error : Option String
  pub profile_saved : Bool
  pub current_password : String
  pub new_password : String
  pub confirm_password : String
  pub saving_password : Bool
  pub password_error : Option String
  pub password_saved : Bool

abbrev pub make : Profile
make = record {
  profile = none;
  loading = true;
  load_error = none;
  display_name = "";
  avatar_url = "";
  saving_profile = false;
  profile_error = none;
  profile_saved = false;
  current_password = "";
  new_password = "";
  confirm_password = "";
  saving_password = false;
  password_error = none;
  password_saved = false;
}

-- value || ''
abbrev pub or_empty : Option String → String
or_empty none = ""
or_empty (some value) = value

abbrev pub name_in : Option MeProfile → String
name_in none = ""
name_in (some me) = or_empty me.display_name

abbrev pub avatar_in : Option MeProfile → String
avatar_in none = ""
avatar_in (some me) = or_empty me.avatar_url

-- loadMe behind its await.
unfoldable pub me_loaded : Result MeProfile → Profile → Profile
me_loaded (failed message) p = record p {
  load_error = some (message_of "Could not load profile. Try again." message);
  loading = false;
}
me_loaded (answered me) p = record p {
  profile = some me;
  display_name = or_empty me.display_name;
  avatar_url = or_empty me.avatar_url;
  loading = false;
}

-- The formats that an avatar may have.
abbrev pub is_image : String → Bool
is_image kind = str_eq kind "image/jpeg" || str_eq kind "image/png" || str_eq kind "image/webp"

-- handleAvatarFile for a file of this size and type: whether it is read.
unfoldable pub handle_avatar_file : ℕ → String → Profile → Profile × Bool
handle_avatar_file size kind p =
    if ltb (5 * 1024 * 1024) size
    then (record p { profile_error = some "Avatar must be 5MB or smaller" }, false)
    else if not (is_image kind)
    then (record p { profile_error = some "Avatar must be JPG, PNG, or WebP" }, false)
    else (p, true)

-- The reader's onload.
unfoldable pub avatar_read : String → Profile → Profile
avatar_read url p = record p { avatar_url = url; profile_error = none }

-- What updateMe is called with; `none` leaves a part out.
pub record Update : Type 0 where
  pub display_name : Option String
  pub avatar_url : Option String

abbrev pub or_undefined : String → Option String
or_undefined value = if str_eq value "" then none else some value

module _ (trim : String → String) where
  unfoldable pub profile_dirty : Profile → Bool
  profile_dirty p =
      not (str_eq (trim p.display_name) (name_in p.profile))
      || not (str_eq (trim p.avatar_url) (avatar_in p.profile))

  abbrev pub update_of : Profile → Update
  update_of p = record {
    display_name = or_undefined (trim p.display_name);
    avatar_url = or_undefined (trim p.avatar_url);
  }

  -- saveProfile up to its await, with its button.
  unfoldable pub start_profile : Profile → Profile × Option Update
  unfolding profile_dirty
  start_profile p =
      if profile_dirty p && not p.saving_profile
      then (record p { saving_profile = true; profile_error = none }, some (update_of p))
      else (p, none)

-- saveProfile behind its await.
unfoldable pub profile_updated : Result MeProfile → Profile → Profile
profile_updated (failed message) p = record p {
  profile_error = some (message_of "Failed to save profile" message);
  saving_profile = false;
}
profile_updated (answered me) p = record p {
  profile = some me;
  profile_saved = true;
  saving_profile = false;
}

-- Three seconds behind a save.
unfoldable pub profile_timer : Profile → Profile
profile_timer p = record p { profile_saved = false }

unfoldable pub password_timer : Profile → Profile
password_timer p = record p { password_saved = false }

-- savePassword up to its await, with its button: the current and the new password that are sent.
unfoldable pub start_password : Profile → Profile × Option (String × String)
start_password p =
    if p.saving_password
    then (p, none)
    else if ltb (count p.new_password) 12
    then (record p { password_error = some "Password must be at least 12 characters" }, none)
    else if not (str_eq p.new_password p.confirm_password)
    then (record p { password_error = some "Passwords do not match" }, none)
    else (
      record p { saving_password = true; password_error = none },
      some (p.current_password, p.new_password),
    )

-- savePassword behind its await.
unfoldable pub password_updated : Result (Unit {0}) → Profile → Profile
password_updated (failed message) p = record p {
  password_error = some (message_of "Failed to update password" message);
  saving_password = false;
}
password_updated (answered done) p = record p {
  current_password = "";
  new_password = "";
  confirm_password = "";
  password_saved = true;
  saving_password = false;
}

unfoldable pub set_display_name : String → Profile → Profile
set_display_name value p = record p { display_name = value }

unfoldable pub set_current_password : String → Profile → Profile
set_current_password value p = record p { current_password = value }

unfoldable pub set_new_password : String → Profile → Profile
set_new_password value p = record p { new_password = value }

unfoldable pub set_confirm_password : String → Profile → Profile
set_confirm_password value p = record p { confirm_password = value }

pub data Strength : Type 0 where
  weak good strong : Strength

abbrev pub is_digit : Char → Bool
is_digit c = leb b'0' (code c) && leb (code c) b'9'

-- [^A-Za-z0-9]
abbrev pub is_symbol : Char → Bool
is_symbol c = not (
    (leb b'a' (code c) && leb (code c) b'z')
    || (leb b'A' (code c) && leb (code c) b'Z')
    || is_digit c)

unfoldable pub has : (Char → Bool) → String → Bool
has test [] = false
has test (c ∷ s) = let later = has test s in test c || later

unfoldable pub get_password_strength : String → Strength
unfolding has
get_password_strength password =
    if ltb (count password) 12
    then weak
    else if has is_digit password && has is_symbol password
    then strong
    else good

-- The first character of each word; `starts` is whether a word starts here.
unfoldable pub initials : Bool → String → String
initials starts [] = []
initials starts (c ∷ s) =
    let behind = initials true s in
    let inside = initials false s in
    if code c == b' ' then behind else if starts then c ∷ inside else inside

-- a || b || 'U'
abbrev pub source_of : Option String → String → String
source_of email name =
    if not (str_eq name "")
    then name
    else if str_eq (or_empty email) ""
    then "U"
    else or_empty email

unfoldable pub initials_for :
    (String → String) → (String → String) → Option String → String → String
unfolding initials take_text
initials_for trim upper email name =
    upper (take_text 2 (initials true (trim (source_of email name))))

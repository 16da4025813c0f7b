-- ===== src/Web/Members.antt =====
-- apps/web/src/components/chat/MemberListPanel.tsx: the members of a channel and their order. What
-- Math.random says of a member, whether it is online, is an argument; `name_first` is whether
-- localeCompare of two names is negative. The sort is the stable one of Array.prototype.sort. When a
-- member was last seen and the markup are left out.
pub mod Order
mod Tests
use Prim.Native.String.{count}
use agentunited.Prelude.{
  ℕ, ◌+◌, ◌/◌, String, Bool, true, false, not, ◌&&◌, ◌||◌, Option, none, some, List, [], ◌∷◌, map,
  keep, length, ltb, str_eq, if◌then◌else◌,
}
use agentunited.Prelude.Text.{includes, before}
use agentunited.Web.Forms.{Result, failed, answered, message_of}

pub data Kind : Type 0 where
  agent human : Kind

pub data Role : Type 0 where
  owner admin member : Role

pub record Member : Type 0 where
  pub id : String
  pub name : String
  pub email : String
  pub kind : Kind
  pub role : Role
  pub online : Bool

-- A member as the server sends it.
pub record ApiMember : Type 0 where
  pub id : String
  pub email : String
  pub name : String
  pub display_name : String
  pub kind : String
  pub role : String

abbrev pub or_text : String → String → String
or_text a b = if str_eq a "" then b else a

unfoldable pub kind_of : ApiMember → Kind
unfolding includes
kind_of m =
    if str_eq m.kind ""
    then (if includes "@agentunited.local" m.email then agent else human)
    else if str_eq m.kind "agent"
    then agent
    else human

abbrev pub role_of : String → Role
role_of role = if str_eq role "owner" then owner else if str_eq role "admin" then admin else member

-- member.display_name || member.name || member.email.split('@')[0] || member.email
unfoldable pub resolved_name : ApiMember → String
unfolding before
resolved_name m = or_text m.display_name (or_text m.name (or_text (before b'@' m.email) m.email))

unfoldable pub member_of : (String → Bool) → ApiMember → Member
unfolding kind_of resolved_name
member_of online m = record {
  id = m.id;
  name = resolved_name m;
  email = m.email;
  kind = kind_of m;
  role = role_of m.role;
  online = online m.id;
}

abbrev pub role_order : Role → ℕ
role_order owner = 0
role_order admin = 1
role_order member = 2

-- The comparison is negative: online ones first, then by role, then by name.
abbrev pub by_role : (String → String → Bool) → Member → Member → Bool
by_role name_first a b =
    if ltb (role_order a.role) (role_order b.role)
    then true
    else if ltb (role_order b.role) (role_order a.role)
    then false
    else name_first a.name b.name

abbrev pub comes_first : (String → String → Bool) → Member → Member → Bool
comes_first name_first a b =
    let within = by_role name_first a b in
    if a.online then (if b.online then within else true) else if b.online then false else within

-- A member is put behind those that it does not come before.
unfoldable pub insert_member : (Member → Member → Bool) → Member → List Member → List Member
insert_member first m [] = m ∷ []
insert_member first m (x ∷ xs) =
    let later = x ∷ insert_member first m xs in if first m x then m ∷ x ∷ xs else later

unfoldable pub insert_all : (Member → Member → Bool) → List Member → List Member → List Member
unfolding insert_member
insert_all first done [] = done
insert_all first done (m ∷ ms) = insert_all first (insert_member first m done) ms

unfoldable pub sort : (Member → Member → Bool) → List Member → List Member
unfolding insert_all
sort first ms = insert_all first [] ms

pub record Panel : Type 0 where
  pub members : List Member
  pub is_loading : Bool
  pub error : Option String

abbrev pub make : Panel
make = record { members = []; is_loading = false; error = none }

-- The effect on the channel, up to its await: whether the members are asked for.
unfoldable pub opened : Bool → String → Panel → Panel × Bool
opened is_open channel p =
    if not is_open || str_eq channel ""
    then (p, false)
    else (record p { is_loading = true; error = none }, true)

unfoldable pub members_loaded :
    (String → String → Bool) → (String → Bool) → Result (List ApiMember) → Panel → Panel
unfolding sort member_of
members_loaded name_first online (failed message) p = record p {
  error = some (message_of "Failed to load members" message);
  is_loading = false;
}
members_loaded name_first online (answered ms) p = record p {
  members = sort (comes_first name_first) (map (member_of online) ms);
  is_loading = false;
}

unfoldable pub online_count : Panel → ℕ
online_count p = length (keep (λ (m : Member). m.online) p.members)

-- How long ago a member was seen, by the minutes since.
pub data Seen : Type 0 where
  just_now : Seen
  minutes_ago hours_ago days_ago : ℕ → Seen

unfoldable pub format_last_seen : ℕ → Seen
format_last_seen minutes =
    if ltb minutes 1
    then just_now
    else if ltb minutes 60
    then minutes_ago minutes
    else if ltb minutes 1440
    then hours_ago (minutes / 60)
    else days_ago (minutes / 1440)

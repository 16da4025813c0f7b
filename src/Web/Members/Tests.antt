-- ===== src/Web/Members/Tests.antt =====
-- Three members of a channel.
use agentunited.Prelude.{String, Bool, false, [], ◌∷◌, any, map, str_eq, ◌≡◌, refl}
use agentunited.Prelude.Text.{includes, before, strip_prefix}
use agentunited.Web.Forms.{answered}
use agentunited.Web.Members.{
  Member, ApiMember, Panel, make, members_loaded, member_of, kind_of, resolved_name, agent,
  format_last_seen, minutes_ago, hours_ago, days_ago, opened,
}
use agentunited.Web.Members.Order.{IsRanked, members_loaded_lem}

abbrev api : String → String → ApiMember
api id role = record {
  id = id;
  email = "bot@agentunited.local";
  name = "";
  display_name = "";
  kind = "";
  role = role;
}

abbrev online : String → Bool
online id = str_eq id "2"

abbrev name_first : String → String → Bool
name_first a b = false

abbrev loaded : Panel
loaded = members_loaded name_first online (answered (api "1" "owner" ∷ api "2" "" ∷ [])) make

members_loaded_lem_example :
    IsRanked loaded.members
    × ((test : Member → Bool)
        → any test loaded.members
          ≡ any test (map (member_of online) (api "1" "owner" ∷ api "2" "" ∷ [])))
members_loaded_lem_example =
    members_loaded_lem name_first online (api "1" "owner" ∷ api "2" "" ∷ []) make

named : (kind_of (api "1" "") ≡ agent) × (resolved_name (api "1" "") ≡ "bot")
unfolding kind_of resolved_name includes before strip_prefix
named = (refl, refl)

ages :
    (format_last_seen 59 ≡ minutes_ago 59)
    × (format_last_seen 120 ≡ hours_ago 2)
    × (format_last_seen 2880 ≡ days_ago 2)
unfolding format_last_seen
ages = (refl, refl, refl)

closed : (opened false "c" make).1 ≡ false
unfolding opened
closed = refl

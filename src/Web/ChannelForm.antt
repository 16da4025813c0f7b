-- ===== src/Web/ChannelForm.antt =====
-- apps/web/src/components/chat/CreateChannelModal.tsx: the form of a new channel and the name that it
-- makes of what is typed. `lower` is toLowerCase and `trim` String.prototype.trim. The focus and the
-- markup are left out. A text is its characters.
pub mod Slug
pub mod Slugs
pub mod Choosing
mod Tests
use Prim.Native.String.{count, ◌++◌ as join}
use agentunited.Prelude.{
  String, Bool, true, false, not, ◌||◌, Option, none, some, List, [], ◌∷◌, ◌++◌, map, any, keep,
  str_eq, ltb, if◌then◌else◌,
}
use agentunited.Prelude.Text.{includes}
use agentunited.Web.Forms.{Result, failed, answered, message_of}
use agentunited.Web.ChannelForm.Slug.{slugify}

pub record AgentOption : Type 0 where
  pub id : String
  pub name : String
  pub display_name : String
  pub email : String

pub record ChannelForm : Type 0 where
  pub name : String
  pub description : String
  pub search : String
  pub selected_agents : List AgentOption
  pub agents : List AgentOption
  pub agents_loading : Bool
  pub creating : Bool
  pub error : Option String

abbrev pub make : ChannelForm
make = record {
  name = "";
  description = "";
  search = "";
  selected_agents = [];
  agents = [];
  agents_loading = false;
  creating = false;
  error = none;
}

-- The effect of opening, up to its await; the agents that were loaded before are kept.
unfoldable pub opened : ChannelForm → ChannelForm
opened f = record f {
  name = "";
  description = "";
  search = "";
  selected_agents = [];
  error = none;
  agents_loading = true;
}

unfoldable pub agents_loaded : Result (List AgentOption) → ChannelForm → ChannelForm
agents_loaded (failed message) f = record f { agents = []; agents_loading = false }
agents_loaded (answered agents) f = record f { agents = agents; agents_loading = false }

unfoldable pub is_selected : String → ChannelForm → Bool
is_selected id f = any (λ (a : AgentOption). str_eq a.id id) f.selected_agents

unfoldable pub toggle_agent : AgentOption → ChannelForm → ChannelForm
unfolding is_selected
toggle_agent agent f = record f {
  selected_agents =
      if is_selected agent.id f
      then keep (λ (a : AgentOption). not (str_eq a.id agent.id)) f.selected_agents
      else f.selected_agents ++ agent ∷ [];
}

module _ (lower trim : String → String) where
  abbrev pub haystack : AgentOption → String
  haystack a = lower (join a.display_name (join " " (join a.name (join " " a.email))))

  unfoldable pub filtered_agents : ChannelForm → List AgentOption
  unfolding includes
  filtered_agents f =
      let query = lower (trim f.search) in
      if str_eq query "" then f.agents else keep (λ a. includes query (haystack a)) f.agents

  -- handleSubmit up to its await.
  unfoldable pub start_submit : ChannelForm → ChannelForm × Option (String × String × List String)
  unfolding slugify
  start_submit f =
      let slug = slugify lower f.name in
      if str_eq slug "" || ltb (count slug) 2 || ltb 80 (count slug)
      then (
        record f {
          error =
              some
                "Channel name must be 2–80 chars and use lowercase letters, numbers, and hyphens.";
        },
        none,
      )
      else (
        record f { creating = true; error = none },
        some (slug, trim f.description, map (λ (a : AgentOption). a.id) f.selected_agents),
      )

-- handleSubmit behind its await, and whether the form is closed.
unfoldable pub end_submit : Result (Unit {0}) → ChannelForm → ChannelForm × Bool
end_submit (failed message) f = (
  record f { error = some (message_of "Failed to create channel" message); creating = false },
  false,
)
end_submit (answered done) f = (record f { creating = false }, true)

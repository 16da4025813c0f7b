-- ===== src/Web/NewDm.antt =====
-- apps/web/src/components/chat/NewDMModal.tsx: the people with whom a conversation can be started. `lower`
-- is toLowerCase and `trim` String.prototype.trim; `by_name` sorts by name, as the sort with
-- localeCompare does; `short` drops the word agent at the end of a name. All people are offline. The
-- markup is left out.
pub mod Others
mod Tests
use agentunited.Prelude.{
  ℕ, String, Bool, true, false, not, ◌&&◌, ◌||◌, Option, none, some, List, [], ◌∷◌, map, keep,
  str_eq, if◌then◌else◌,
}
use agentunited.Prelude.Text.{includes, before}
use agentunited.Web.Forms.{Result, failed, answered, message_of}

pub record User : Type 0 where
  pub id : String
  pub name : String
  pub email : String
  pub is_agent : Bool

pub record ApiUser : Type 0 where
  pub id : String
  pub email : String
  pub display_name : String
  pub kind : String

pub record Modal : Type 0 where
  pub search_query : String
  pub users : List User
  pub filtered_users : List User
  pub is_loading : Bool
  pub is_creating : Bool
  pub error : Option String

abbrev pub make : Modal
make = record {
  search_query = "";
  users = [];
  filtered_users = [];
  is_loading = false;
  is_creating = false;
  error = none;
}

module _ (lower trim short : String → String) (by_name : List User → List User) where
  -- user.display_name || (user.email ? user.email.split('@')[0] : 'Unknown')
  abbrev pub base_name : ApiUser → String
  unfolding before
  base_name u =
      if not (str_eq u.display_name "")
      then u.display_name
      else if str_eq u.email ""
      then "Unknown"
      else before b'@' u.email

  unfoldable pub user_of : ApiUser → User
  unfolding before
  user_of u =
      let agent = str_eq u.kind "agent" in
      record {
        id = u.id;
        name = if agent then short (base_name u) else base_name u;
        email = u.email;
        is_agent = agent;
      }

  -- u.id !== localStorage.getItem('user-id')
  abbrev pub is_other : Option String → User → Bool
  is_other none u = true
  is_other (some me) u = not (str_eq u.id me)

  abbrev pub has_query : String → User → Bool
  unfolding includes
  has_query query u =
      includes (lower query) (lower u.name) || includes (lower query) (lower u.email)

  -- The effect on the query and the users.
  unfoldable pub filter_changed : Modal → Modal
  unfolding includes
  filter_changed m = record m {
    filtered_users =
        if str_eq (trim m.search_query) ""
        then by_name m.users
        else keep (has_query m.search_query) m.users;
  }

  unfoldable pub opened : Modal → Modal
  opened m = record m { is_loading = true; error = none }

  -- loadUsers behind its await, with the effect that follows; `me` is the stored id.
  unfoldable pub users_loaded : Option String → Result (List ApiUser) → Modal → Modal
  unfolding user_of filter_changed
  users_loaded me (failed message) m = record m {
    error = some (message_of "Failed to load users" message);
    is_loading = false;
  }
  users_loaded me (answered us) m =
      filter_changed (record m { users = keep (is_other me) (map user_of us); is_loading = false })

  unfoldable pub set_search_query : String → Modal → Modal
  unfolding filter_changed
  set_search_query query m = filter_changed (record m { search_query = query })

  -- handleCreateDM up to its await: the user with whom a conversation is started.
  unfoldable pub start_create : String → Modal → Modal × Option String
  start_create user m = (record m { is_creating = true; error = none }, some user)

  unfoldable pub only : List User → Modal → Modal × Option String
  unfolding start_create
  only (u ∷ []) m = start_create u.id m
  only _ m = (m, none)

  -- handleSearchKeyDown
  unfoldable pub handle_search_key_down : String → Modal → Modal × Option String
  unfolding only
  handle_search_key_down key m = if str_eq key "Enter" then only m.filtered_users m else (m, none)

  -- handleCreateDM behind its await, and the conversation that is opened behind the closed form.
  unfoldable pub end_create : Result String → Modal → Modal × Option String
  end_create (failed message) m = (
    record m {
      error = some (message_of "Failed to start conversation" message);
      is_creating = false;
    },
    none,
  )
  end_create (answered dm) m = (record m { is_creating = false }, some dm)

-- ===== src/Desktop/Palette.antt =====
-- apps/desktop/src/components/CommandPalette.tsx: the entries of the palette for a query, and moving
-- through them. `lower` is toLowerCase. Icons, avatars, focus, scrolling and the markup are left out.
pub mod Matching
pub mod Moving
mod Tests
use Prim.Native.String.{◌++◌ as ◌+++◌}
use agentunited.Prelude.{
  ℕ, ◌+◌, ◌-◌, String, Bool, true, false, not, ◌&&◌, ◌||◌, Option, none, some, List, [], ◌∷◌, ◌++◌,
  map, keep, take, length, get_elem?, ltb, ◌==◌, str_eq, if◌then◌else◌,
}
use agentunited.Prelude.Text.{includes}
use agentunited.Desktop.Hook.{ChannelData, UserData, Kind, agent, human}

pub data Target : Type 0 where
  new_channel new_dm settings : Target
  channel user : String → Target

pub record CommandPaletteItem : Type 0 where
  pub id : String
  pub title : String
  pub subtitle : String
  pub target : Target

-- The callbacks that an item's action calls; every action ends with onClose.
pub data Effect : Type 0 where
  picks : Target → Effect
  on_close : Effect

abbrev pub action : CommandPaletteItem → List Effect
action i = picks i.target ∷ on_close ∷ []

abbrev pub actions : List CommandPaletteItem
actions =
    record {
      id = "action-new-channel";
      title = "Create new channel";
      subtitle = "Start a new channel for team collaboration";
      target = new_channel;
    }
    ∷ record {
      id = "action-new-dm";
      title = "Start direct message";
      subtitle = "Send a private message to someone";
      target = new_dm;
    }
    ∷ record {
      id = "action-settings";
      title = "Open settings";
      subtitle = "Configure your app preferences";
      target = settings;
    }
    ∷ []

abbrev pub topic_or : Option String → String
topic_or none = "No topic set"
topic_or (some t) = if str_eq t "" then "No topic set" else t

abbrev pub channel_item : ChannelData → CommandPaletteItem
channel_item c = record {
  id = "channel-" +++ c.id;
  title = "#" +++ c.name;
  subtitle = topic_or c.topic;
  target = channel c.id;
}

abbrev kind_text : Kind → String
kind_text agent = "🤖 Agent"
kind_text human = "👤 Human"

abbrev pub user_item : UserData → CommandPaletteItem
user_item u = record {
  id = "user-" +++ u.id;
  title = u.name;
  subtitle = kind_text u.kind;
  target = user u.id;
}

module _ (lower : String → String) where
  -- a.toLowerCase().includes(query.toLowerCase())
  unfoldable pub has : String → String → Bool
  unfolding includes
  has query text = includes (lower query) (lower text)

  abbrev pub topic_has : String → Option String → Bool
  topic_has query none = false
  topic_has query (some t) = has query t

  unfoldable pub channel_matches : String → ChannelData → Bool
  unfolding has
  channel_matches query c = str_eq query "" || (has query c.name || topic_has query c.topic)

  unfoldable pub user_matches : String → UserData → Bool
  unfolding has
  user_matches query u = str_eq query "" || has query u.name

  unfoldable pub item_matches : String → CommandPaletteItem → Bool
  unfolding has
  item_matches query i = has query i.title || has query i.subtitle

  unfoldable pub items : String → List ChannelData → List UserData → List CommandPaletteItem
  unfolding channel_matches user_matches item_matches
  items query channels users =
      let all_items =
        actions
        ++ map channel_item (keep (channel_matches query) channels)
        ++ map user_item (keep (user_matches query) users) in
      if str_eq query "" then take 50 all_items else keep (item_matches query) all_items

-- `none` stands for the index -1.
pub record Palette : Type 0 where
  pub query : String
  pub selected_index : Option ℕ

abbrev pub opened : Palette
opened = record { query = ""; selected_index = some 0 }

pub data Key : Type 0 where
  arrow_down arrow_up enter escape other : Key

abbrev pub next_index : ℕ → Option ℕ → Option ℕ
next_index n none = some 0
next_index n (some i) = if ltb (i + 1) n then some (i + 1) else some 0

abbrev last_index : ℕ → Option ℕ
last_index n = if n == 0 then none else some (n - 1)

abbrev pub previous_index : ℕ → Option ℕ → Option ℕ
previous_index n none = last_index n
previous_index n (some i) = if ltb 0 i then some (i - 1) else last_index n

abbrev pub at : Option ℕ → List CommandPaletteItem → Option CommandPaletteItem
at none shown = none
at (some i) shown = get_elem? shown i

abbrev run_action : Option CommandPaletteItem → List Effect
run_action none = []
run_action (some i) = action i

-- handleKeyDown, with the items that are shown.
unfoldable pub handle_key_down : Key → List CommandPaletteItem → Palette → Palette × List Effect
handle_key_down arrow_down shown p =
    (record p { selected_index = next_index (length shown) p.selected_index }, [])
handle_key_down arrow_up shown p =
    (record p { selected_index = previous_index (length shown) p.selected_index }, [])
handle_key_down enter shown p = (p, run_action (at p.selected_index shown))
handle_key_down escape shown p = (p, on_close ∷ [])
handle_key_down other shown p = (p, [])

-- The input's change, and the effect that follows new items.
unfoldable pub set_query : String → Palette → Palette
set_query query p = record { query = query; selected_index = some 0 }

-- The channels or the users changed.
unfoldable pub items_changed : Palette → Palette
items_changed p = record p { selected_index = some 0 }

-- The mouse enters the entry at an index.
unfoldable pub hover : ℕ → Palette → Palette
hover i p = record p { selected_index = some i }

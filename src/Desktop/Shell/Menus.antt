-- ===== src/Desktop/Shell/Menus.antt =====
-- The application's menu and the menu of the dock, in apps/desktop/src/main.ts: createAppMenu and
-- createDockMenu, whose items act on the window by messages. Roles are Electron's.
use agentunited.Prelude.{ℕ, String, Option, none, some, List, [], ◌∷◌, if◌then◌else◌}
use agentunited.Desktop.Shell.{Platform, is_darwin, Window}

pub data Action : Type 0 where
  role : String → Action
  -- The message 'menu-action' to the window, with its data.
  action : String → Option ℕ → Action
  open_external : String → Action
  quit_app toggle_dev_tools : Action

-- An item has a label, an accelerator and what it does.
pub data Item : Type 0 where
  separator : Item
  item : String → Option String → Action → Item

abbrev pub Menu : Type 0
Menu = String × List Item

abbrev pub agent_united_menu : Menu
agent_united_menu = (
  "Agent United",
  item "About Agent United" none (role "about")
      ∷ separator
      ∷ item "Preferences..." (some "Cmd+,") (action "preferences" none)
      ∷ separator
      ∷ item "Hide Agent United" (some "Cmd+H") (role "hide")
      ∷ item "Hide Others" (some "Cmd+Shift+H") (role "hideOthers")
      ∷ item "Show All" none (role "unhide")
      ∷ separator
      ∷ item "Quit Agent United" (some "Cmd+Q") quit_app
      ∷ [],
)

abbrev pub file_menu : Menu
file_menu = (
  "File",
  item "New Channel" (some "Cmd+Shift+N") (action "new-channel" none)
      ∷ item "New Direct Message" (some "Cmd+Shift+D") (action "new-dm" none)
      ∷ separator
      ∷ item "Close Window" (some "Cmd+W") (role "close")
      ∷ [],
)

abbrev pub edit_menu : Menu
edit_menu = (
  "Edit",
  item "Undo" (some "Cmd+Z") (role "undo")
      ∷ item "Redo" (some "Cmd+Shift+Z") (role "redo")
      ∷ separator
      ∷ item "Cut" (some "Cmd+X") (role "cut")
      ∷ item "Copy" (some "Cmd+C") (role "copy")
      ∷ item "Paste" (some "Cmd+V") (role "paste")
      ∷ item "Select All" (some "Cmd+A") (role "selectAll")
      ∷ [],
)

abbrev pub view_menu : Menu
view_menu = (
  "View",
  item "Command Palette" (some "Cmd+K") (action "command-palette" none)
      ∷ separator
      ∷ item "Toggle Sidebar" (some "Cmd+Shift+S") (action "toggle-sidebar" none)
      ∷ separator
      ∷ item "Zoom In" (some "Cmd+Plus") (role "zoomIn")
      ∷ item "Zoom Out" (some "Cmd+-") (role "zoomOut")
      ∷ item "Reset Zoom" (some "Cmd+0") (role "resetZoom")
      ∷ separator
      ∷ item "Toggle Full Screen" (some "Cmd+Ctrl+F") (role "togglefullscreen")
      ∷ item "Toggle Developer Tools" (some "Cmd+Option+I") toggle_dev_tools
      ∷ [],
)

abbrev pub navigate_menu : Menu
navigate_menu = (
  "Navigate",
  item "Previous Channel" (some "Cmd+[") (action "previous-channel" none)
      ∷ item "Next Channel" (some "Cmd+]") (action "next-channel" none)
      ∷ separator
      ∷ item "Jump to Channel 1" (some "Cmd+1") (action "jump-to-channel" (some 0))
      ∷ item "Jump to Channel 2" (some "Cmd+2") (action "jump-to-channel" (some 1))
      ∷ item "Jump to Channel 3" (some "Cmd+3") (action "jump-to-channel" (some 2))
      ∷ item "Jump to Channel 4" (some "Cmd+4") (action "jump-to-channel" (some 3))
      ∷ item "Jump to Channel 5" (some "Cmd+5") (action "jump-to-channel" (some 4))
      ∷ [],
)

abbrev pub window_menu : Menu
window_menu = (
  "Window",
  item "Minimize" (some "Cmd+M") (role "minimize")
      ∷ item "Bring All to Front" none (role "front")
      ∷ [],
)

abbrev pub help_menu : Menu
help_menu = (
  "Help",
  item "Agent United Help" none (open_external "https://docs.agentunited.com")
      ∷ item "Keyboard Shortcuts" (some "Cmd+/") (action "keyboard-shortcuts" none)
      ∷ separator
      ∷ item "Report Issue" none (open_external "https://github.com/agentunited/agentunited/issues")
      ∷ item "View License" none
          (open_external "https://github.com/agentunited/agentunited/blob/main/LICENSE")
      ∷ [],
)

abbrev pub template : List Menu
template =
    agent_united_menu ∷ file_menu ∷ edit_menu ∷ view_menu ∷ navigate_menu ∷ window_menu ∷ help_menu
    ∷ []

unfoldable pub create_app_menu : Platform → List Menu
create_app_menu platform = if is_darwin platform then template else []

-- What an item of the dock's menu does to a window that is there: it shows the window and sends it
-- the message.
abbrev pub dock_template : List Item
dock_template =
    item "New Channel" none (action "new-channel" none)
    ∷ item "New Direct Message" none (action "new-dm" none)
    ∷ separator
    ∷ item "Preferences..." none (action "preferences" none)
    ∷ []

unfoldable pub create_dock_menu : Platform → Option (List Item)
create_dock_menu platform = if is_darwin platform then some dock_template else none

-- What a click does to the window and to the rest of the system.
pub data Effect : Type 0 where
  by_role open_url : String → Effect
  menu_action : String → Option ℕ → Effect
  show_window quit dev_tools : Effect

-- mainWindow?.
abbrev pub in_window : Option Window → Effect → List Effect
in_window none e = []
in_window (some w) e = e ∷ []

unfoldable pub click : Option Window → Item → List Effect
click window separator = []
click window (item label key (role r)) = by_role r ∷ []
click window (item label key (action name index)) = in_window window (menu_action name index)
click window (item label key (open_external url)) = open_url url ∷ []
click window (item label key quit_app) = quit ∷ []
click window (item label key toggle_dev_tools) = in_window window dev_tools

unfoldable pub dock_click : Option Window → Item → List Effect
unfolding click
dock_click none i = []
dock_click (some w) i = show_window ∷ click (some w) i

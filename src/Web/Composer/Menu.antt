-- ===== src/Web/Composer/Menu.antt =====
-- The menu of mentions behind a completed mention.
use Prim.Native.String.{count, ◌++◌ as ◌+++◌}
use agentunited.Prelude.{ℕ, String, true, false, none, some, List, ◌≡◌, refl, get_elem?}
use agentunited.Web.Mentions.{Member, Mentions, enter, all_word, filtered_members, handle_key_down}
use agentunited.Web.Mentions.Completing.{typed, shown_lem}
use agentunited.Web.Composer.{Composer, handle_cursor_change, handle_textarea_key_down}
use agentunited.Web.Composer.Sending.{moves_cursor, presses, step, enabled, handle}

-- The menu for a word behind the @ at position i.
abbrev pub menu : String → ℕ → Mentions
menu name i = record {
  mention_query = name;
  selected_member_index = some 0;
  is_showing_mentions = true;
  current_mention_start = some i;
}

module _ (trim lower : String → String) (members : List Member) where
  moved :
      (c : Composer) (a name rest : String)
      → all_word name ≡ true
      → c.is_uploading ≡ false
      → c.value ≡ typed a name +++ rest
      → (step trim lower members (moves_cursor (count (typed a name))) c).0
        ≡ record c { cursor_position = count (typed a name); mentions = menu name (count a) }
  unfolding step enabled handle handle_cursor_change
  moved c a name rest word idle text = rw (idle, text, shown_lem a name rest c.mentions word) refl

  takes :
      (s : Composer) (m : Member) (name : String) (i selection : ℕ)
      → s.is_uploading ≡ false
      → s.mentions ≡ menu name i
      → get_elem? (filtered_members lower members (menu name i)) 0 ≡ some m
      → (step trim lower members (presses enter false selection) s).1 ≡ none
  unfolding step enabled handle handle_textarea_key_down handle_key_down
  takes s m name i selection idle shows found = rw (idle, shows, found) refl

  -- With the cursor behind @ and a name that is one word, as completing a mention leaves it, the
  -- menu is shown again; while the menu has an entry for the name, Enter sends nothing.
  pub enter_completes_again :
      (c : Composer) (m : Member) (a name rest : String) (selection : ℕ)
      → all_word name ≡ true
      → c.is_uploading ≡ false
      → c.value ≡ typed a name +++ rest
      → get_elem? (filtered_members lower members (menu name (count a))) 0 ≡ some m
      → let behind = (step trim lower members (moves_cursor (count (typed a name))) c).0 in
        (behind.mentions.is_showing_mentions ≡ true)
        × ((step trim lower members (presses enter false selection) behind).1 ≡ none)
  enter_completes_again c m a name rest selection word idle text found =
      rw (moved c a name rest word idle text) (
        refl,
        takes (record c { cursor_position = count (typed a name); mentions = menu name (count a) })
            m name (count a) selection idle refl found,
      )

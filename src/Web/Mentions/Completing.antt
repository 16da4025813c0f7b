-- ===== src/Web/Mentions/Completing.antt =====
-- Typing and completing one mention, and moving through the menu.
use Prim.Native.String.{[], ◌∷◌, count}
use Prim.Native.String
use text.Mathlib.TextLemmas.{length-cons, cons-append, nil-append, append_assoc}
use agentunited.Prelude.{
  ℕ, ◌+◌, ◌<◌, String, Bool, List, length, ltb, true, false, Option, none, some, ◌≡◌, refl, arith,
}
use agentunited.Prelude.Text.{take_text, take-append, drop-append}
use agentunited.Web.Mentions.{
  Key, arrow_down, arrow_up, handle_key_down, filtered_members, Member, Mentions, Completed,
  all_word, trigger, handle_input_change, select_mention, last_index, below, above,
}

at_is_no_word : (a q : String) → all_word (String.◌++◌ a ("@" ∷ q)) ≡ false
unfolding all_word
at_is_no_word [] q = rw (nil-append ("@" ∷ q)) refl
at_is_no_word (c ∷ a) q = rw (cons-append c a ("@" ∷ q), at_is_no_word a q) (ground arith)

-- The first match is at the last @, if only a word follows it.
trigger-append :
    (a q : String) → all_word q ≡ true → trigger (String.◌++◌ a ("@" ∷ q)) ≡ some (count a, q)
unfolding trigger
trigger-append [] q word = rw (nil-append ("@" ∷ q), word) refl
trigger-append (c ∷ a) q word =
    rw (cons-append c a ("@" ∷ q), length-cons c a, at_is_no_word a q, trigger-append a q word)
      (ground arith)

-- The text before the cursor, and the state and the result when it is typed and a member is picked.
abbrev pub typed : String → String → String
typed a q = String.◌++◌ a ("@" ∷ q)

abbrev pub shown : String → String → String → Mentions → Mentions
shown a q rest s = handle_input_change true (String.◌++◌ (typed a q) rest) (count (typed a q)) s

abbrev pub selecting : Member → String → String → String → Mentions → Mentions × Completed
selecting m a q rest s =
    select_mention m (String.◌++◌ (typed a q) rest) (count (typed a q)) (shown a q rest s)

-- The text with the name in it.
abbrev pub completed : Member → String → String → Completed
completed m a rest = record {
  new_value = String.◌++◌ (String.◌++◌ a (String.◌++◌ "@" m.name)) rest;
  new_cursor = count a + count (String.◌++◌ "@" m.name);
  selected = some (record {
    user_id = m.id;
    display = m.name;
    start_index = count a;
    end_index = count a + count (String.◌++◌ "@" m.name);
  });
}

pub shown_lem :
    (a q rest : String) (s : Mentions)
    → all_word q ≡ true
    → shown a q rest s ≡ record {
      mention_query = q;
      selected_member_index = some 0;
      is_showing_mentions = true;
      current_mention_start = some (count a);
    }
unfolding handle_input_change
shown_lem a q rest s word =
    rw (shown, handle_input_change, take-append (typed a q) rest, trigger-append a q word) refl

take_typed : (a q rest : String) → take_text (count a) (String.◌++◌ (typed a q) rest) ≡ a
take_typed a q rest =
    rw (append_assoc a ("@" ∷ q) rest) (take-append a (String.◌++◌ ("@" ∷ q) rest))

-- Where the text before the cursor ends in @ and a word, the menu is shown for that word, and
-- selecting a member replaces the @ and the word by @ and the member's name, leaves the text on
-- both sides, puts the cursor behind the name and hides the menu.
pub select_completes :
    (m : Member) (a q rest : String) (s : Mentions)
    → all_word q ≡ true
    → ((shown a q rest s).is_showing_mentions ≡ true)
      × ((shown a q rest s).mention_query ≡ q)
      × ((selecting m a q rest s).1 ≡ completed m a rest)
      × ((selecting m a q rest s).0.is_showing_mentions ≡ false)
unfolding select_mention
select_completes m a q rest s word =
    rw (shown_lem a q rest s word, take_typed a q rest, drop-append (typed a q) rest)
      (refl, refl, refl, refl)

abbrev pub in_menu : ℕ → Option ℕ → Bool
in_menu n none = false
in_menu n (some i) = ltb i n

arrows :
    (n i : ℕ)
    → i < n
    → (in_menu n (below n (some i)) ≡ true)
      × (in_menu n (above n (some i)) ≡ true)
      × (above n (below n (some i)) ≡ some i)
      × (below n (above n (some i)) ≡ some i)
unfolding below above last_index
arrows n i inside = (ground arith, ground arith, ground arith, ground arith)

module _ (lower : String → String) (members : List Member) (value : String) (cursor : ℕ) where
  abbrev pub press : Key → Mentions → Mentions
  press key s = (handle_key_down lower members key value cursor s).0

  abbrev pub menu_size : Mentions → ℕ
  menu_size s = length (filtered_members lower members s)

  -- While the menu is shown and an entry of it is selected, each of ArrowDown and ArrowUp selects an
  -- entry of the menu, and each undoes the other.
  pub arrows_lem :
      (s : Mentions) (i : ℕ)
      → s.is_showing_mentions ≡ true
      → s.selected_member_index ≡ some i
      → i < menu_size s
      → (in_menu (menu_size s) (press arrow_down s).selected_member_index ≡ true)
        × (in_menu (menu_size s) (press arrow_up s).selected_member_index ≡ true)
        × ((press arrow_up (press arrow_down s)).selected_member_index ≡ some i)
        × ((press arrow_down (press arrow_up s)).selected_member_index ≡ some i)
  unfolding handle_key_down filtered_members
  arrows_lem s i showing selected inside = rw (showing, selected) (arrows (menu_size s) i inside)

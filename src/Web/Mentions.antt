-- ===== src/Web/Mentions.antt =====
-- apps/web/src/hooks/useMentions.tsx: completing @mentions while a text is typed, and finding them in
-- a text. `lower` is toLowerCase. A text's positions count its characters; `none` stands for the
-- index -1. The position of the menu on the page and the markup of mentions are left out.
pub mod Spans
pub mod Completing
mod Tests
use Prim.Native.Char.{code}
use Prim.Native.String.{[], ◌∷◌, count}
use Prim.Native.String
use agentunited.Prelude.{
  ℕ, ◌+◌, ◌-◌, String, Bool, true, false, ◌||◌, ◌&&◌, Option, none, some, List, [], ◌∷◌, ◌==◌, ltb,
  str_eq, if◌then◌else◌, not, find, keep, take, length, get_elem?,
}
use agentunited.Prelude.Text.{includes, is_word, take_text, drop_text}

pub data MemberType : Type 0 where
  agent human : MemberType

pub record Member : Type 0 where
  pub id : String
  pub name : String
  pub email : String
  pub member_type : MemberType
  pub online : Option Bool

pub record Mention : Type 0 where
  pub user_id : String
  pub display : String
  pub start_index : ℕ
  pub end_index : ℕ

pub record Mentions : Type 0 where
  pub mention_query : String
  pub selected_member_index : Option ℕ
  pub is_showing_mentions : Bool
  pub current_mention_start : Option ℕ

pub make : Mentions
make = record {
  mention_query = "";
  selected_member_index = some 0;
  is_showing_mentions = false;
  current_mention_start = none;
}

-- \w* at the start of a text.
unfoldable pub word_of : String → String
word_of [] = []
word_of (c ∷ s) = let rest = word_of s in if is_word c then c ∷ rest else []

unfoldable pub all_word : String → Bool
all_word [] = true
all_word (c ∷ s) = is_word c && all_word s

-- The first match of /@(\w*)$/, with its position.
unfoldable pub trigger : String → Option (ℕ × String)
unfolding all_word
trigger [] = none
trigger (c ∷ s) =
    let later = trigger s in
    if code c == b'@' && all_word s
    then some (0, s)
    else elim later [ none ↦ none | some (i, q) ↦ some (i + 1, q) ]

-- The matches of /@(\w+)/g from position i on: the characters of a match behind its @ start none.
unfoldable pub matches : ℕ → String → List (ℕ × String)
unfolding word_of
matches i [] = []
matches i (c ∷ s) =
    let later = matches (i + 1) s in
    if code c == b'@' && not (str_eq (word_of s) "") then (i, word_of s) ∷ later else later

-- The push of parseMentions, for the member that it found.
abbrev pub push_mention : ℕ → String → Option Member → List Mention → List Mention
push_mention i display none later = later
push_mention i display (some m) later =
    record {
      user_id = m.id;
      display = m.name;
      start_index = i;
      end_index = i + (count display + 1);
    }
    ∷ later

module _ (lower : String → String) (members : List Member) where
  unfoldable pub member_named : String → Option Member
  member_named display = find (λ (m : Member). str_eq (lower m.name) (lower display)) members

  -- The mentions that the matches make.
  unfoldable pub mentions_of : List (ℕ × String) → List Mention
  unfolding member_named
  mentions_of [] = []
  mentions_of ((i, display) ∷ found) =
      push_mention i display (member_named display) (mentions_of found)

  unfoldable pub parse_mentions : String → List Mention
  unfolding mentions_of matches
  parse_mentions text = mentions_of (matches 0 text)

  unfoldable pub filtered_members : Mentions → List Member
  filtered_members s = take 5 (
      keep
        (λ (m : Member).
          includes (lower s.mention_query) (lower m.name)
          || includes (lower s.mention_query) (lower m.email))
        members)

-- The state behind Escape, behind a selection, and where the text has no trigger.
unfoldable pub hidden : Mentions → Mentions
hidden s = record s {
  mention_query = "";
  is_showing_mentions = false;
  current_mention_start = none;
}

-- `mounted` says that the input's element exists.
unfoldable pub handle_input_change : Bool → String → ℕ → Mentions → Mentions
unfolding trigger hidden
handle_input_change mounted value cursor s =
    elim (if mounted then trigger (take_text cursor value) else none) [
      | none ↦ hidden s
      | some (i, query) ↦ record {
        mention_query = query;
        selected_member_index = some 0;
        is_showing_mentions = true;
        current_mention_start = some i;
      }
    ]

-- The value and the cursor that the input gets.
pub record Completed : Type 0 where
  pub new_value : String
  pub new_cursor : ℕ
  pub selected : Option Mention

unfoldable pub select_mention : Member → String → ℕ → Mentions → Mentions × Completed
unfolding hidden
select_mention m value cursor s = elim s.current_mention_start [
  | none ↦ (s, record { new_value = value; new_cursor = cursor; selected = none })
  | some i ↦
      (let text = String.◌++◌ "@" m.name in
        (
          hidden s,
          record {
            new_value = String.◌++◌ (String.◌++◌ (take_text i value) text) (drop_text cursor value);
            new_cursor = i + count text;
            selected = some (record {
              user_id = m.id;
              display = m.name;
              start_index = i;
              end_index = i + count text;
            });
          },
        ))
]

pub data Key : Type 0 where
  arrow_down arrow_up enter tab escape other : Key

-- The selected index behind ArrowDown and ArrowUp in a menu of n members.
unfoldable pub below : ℕ → Option ℕ → Option ℕ
below n none = some 0
below n (some i) = if ltb (i + 1) n then some (i + 1) else some 0

unfoldable pub last_index : ℕ → Option ℕ
last_index n = if n == 0 then none else some (n - 1)

unfoldable pub above : ℕ → Option ℕ → Option ℕ
unfolding last_index
above n none = last_index n
above n (some i) = if ltb 0 i then some (i - 1) else last_index n

abbrev picked : {A : Type 0} → Option ℕ → List A → Option A
picked none xs = none
picked (some i) xs = get_elem? xs i

-- The result of the handler says that it took the key; Enter and Tab may complete a mention.
unfoldable pub handle_key_down :
    (String → String)
    → List Member
    → Key
    → String
    → ℕ
    → Mentions
    → Mentions × Bool × Option Completed
unfolding filtered_members below above select_mention hidden
handle_key_down lower members key value cursor s =
    let found = filtered_members lower members s in
    let complete : Mentions × Bool × Option Completed =
      elim (picked s.selected_member_index found) [
        | none ↦ (s, false, none)
        | some m ↦
            ((select_mention m value cursor s).0, true, some (select_mention m value cursor s).1)
      ] in
    if s.is_showing_mentions
    then elim key [
      | arrow_down ↦ (
        record s { selected_member_index = below (length found) s.selected_member_index },
        true,
        none,
      )
      | arrow_up ↦ (
        record s { selected_member_index = above (length found) s.selected_member_index },
        true,
        none,
      )
      | enter ↦ complete
      | tab ↦ complete
      | escape ↦ (hidden s, true, none)
      | other ↦ (s, false, none)
    ]
    else (s, false, none)

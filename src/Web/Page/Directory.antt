-- ===== src/Web/Page/Directory.antt =====
-- What the directories of ChatPage hold, and what they make of a message.
use Prim.Native.Char.{Char}
use Prim.Native.String.{[], ◌∷◌}
use agentunited.Prelude.{
  String, Bool, false, ◌||◌, Option, none, some, List, [], ◌∷◌, map, str_eq, if◌then◌else◌, ◌≡◌,
  refl, ◌≢◌, arith, eq_iff, Bool-cases, inl, inr,
}
use text.Mathlib.TextLemmas.{cons-ne-nil}
use agentunited.Prelude.Text.{before, includes}
use agentunited.Prelude.Dict.{Dict, lookup, lookup-insert}
use agentunited.Web.Chat.{Message, AuthorType}
use agentunited.Web.Live.Names.{get_display_name, capitalized, spaced, trim_start, trim_end}
use agentunited.Web.Page.{ApiUser, Entry, entry_of, enter_user, directory_of, or_none, write}
use agentunited.Web.Page.Names.{renamed, display_message, preferred_name, name_of, trim}

-- A user is found under the id and under the email.
abbrev pub goes_by : String → ApiUser → Bool
goes_by key u = str_eq u.id key || str_eq (or_none u.email) key

-- The last of the users that go by a key, and what was there before them.
abbrev pub last_named : String → List ApiUser → Option Entry → Option Entry
last_named key [] old = old
last_named key (u ∷ us) old = last_named key us (if goes_by key u then some (entry_of u) else old)

lookup-write :
    (key other : String) (e : Entry) (d : Dict Entry)
    → other ≢ ""
    → lookup other (write key e d) ≡ (if str_eq key other then some e else lookup other d)
lookup-write key other e d named =
    ground (arith, eq_iff key "", eq_iff key other, eq_iff other "", lookup-insert key other e d)

lookup-enter_user :
    (key : String) (u : ApiUser) (d : Dict Entry)
    → key ≢ ""
    → lookup key (enter_user u d) ≡ (if goes_by key u then some (entry_of u) else lookup key d)
unfolding enter_user
lookup-enter_user key u d named = ground (
  arith,
  lookup-write (or_none u.email) key (entry_of u) (write u.id (entry_of u) d) named,
  lookup-write u.id key (entry_of u) d named,
)

-- A key of the directory of users holds the entry of the last user that goes by it.
pub lookup-directory_of :
    (key : String) (us : List ApiUser) (d : Dict Entry)
    → key ≢ ""
    → lookup key (directory_of us d) ≡ last_named key us (lookup key d)
unfolding directory_of
lookup-directory_of key [] d named = refl
lookup-directory_of key (u ∷ us) d named =
    rw (lookup-directory_of key us (enter_user u d) named, lookup-enter_user key u d named) refl

cons_ne : (c : Char) (s : String) → str_eq (c ∷ s) "" ≡ false
cons_ne c s = elim (Bool-cases (str_eq (c ∷ s) "")) [
  | inl e ↦ absurd (cons-ne-nil c s ((eq_iff (c ∷ s) "").0 e))
  | inr e ↦ e
]

-- All of a message but its author's name.
abbrev pub but_author : Message → String × String × String × AuthorType × String × String × Bool
but_author m =
    (m.id, m.channel_id, m.author_id, m.author_type, m.text, m.timestamp, m.is_own_message)

renamed_rest : (o : Option String) (m : Message) → but_author (renamed o m) ≡ but_author m
renamed_rest none m = refl
renamed_rest (some n) m = elim (Bool-cases (str_eq n "")) [ inl e ↦ rw e refl | inr e ↦ rw e refl ]

module _ (is_space : Char → Bool) (upper : Char → Char) (lower : String → String) where
  capitalized_ne :
      (inside : Bool) (s : String)
      → str_eq s "" ≡ false
      → str_eq (capitalized is_space upper inside s) "" ≡ false
  unfolding capitalized
  capitalized_ne inside [] h = cc h
  capitalized_ne inside (c ∷ s) h = cons_ne _ _

  get_display_name_ne : (input : String) → str_eq (get_display_name is_space upper input) "" ≡ false
  unfolding get_display_name
  get_display_name_ne input =
      let cleaned =
        trim_end is_space upper (trim_start is_space upper (spaced false (before b'@' input))) in
      elim (Bool-cases (str_eq input "")) [
        | inl e ↦ rw e refl
        | inr named ↦ elim (Bool-cases (includes "@" input)) [
          | inl e ↦ elim (Bool-cases (str_eq cleaned "")) [
            | inl blank ↦ rw (named, e, blank) refl
            | inr full ↦ rw (named, e, full) (capitalized_ne false cleaned full)
          ]
          | inr e ↦ rw (named, e) named
        ]
      ]

  -- Showing messages changes nothing but their authors: not their number, order, ids or texts.
  pub display_messages-id :
      (users : Dict Entry) (members : Dict String) (ms : List Message)
      → map but_author (map (display_message is_space upper lower users members) ms)
        ≡ map but_author ms
  unfolding display_message
  display_messages-id users members [] = refl
  display_messages-id users members (m ∷ ms) = cc (
    renamed_rest (preferred_name is_space upper lower users members (m.author_id ∷ m.author ∷ []))
        m,
    display_messages-id users members ms,
  )

  -- A message whose author's id is in the directory of users with a name shows that name, whatever
  -- name it came with.
  pub display_message-known :
      (users : Dict Entry) (members : Dict String) (m : Message) (e : Entry)
      → m.author_id ≢ ""
      → lookup (trim is_space upper lower m.author_id) users ≡ some e
      → e.display ≢ ""
      → display_message is_space upper lower users members m
        ≡ record m { author = get_display_name is_space upper e.display }
  unfolding display_message preferred_name name_of
  display_message-known users members m e named known shown =
      let id_named : str_eq m.author_id "" ≡ false = ground (arith, eq_iff m.author_id "") in
      let display_named : str_eq e.display "" ≡ false = ground (arith, eq_iff e.display "") in
      rw
        (
          id_named,
          known,
          display_named,
          get_display_name_ne e.display,
          get_display_name_ne e.display,
        )
        refl

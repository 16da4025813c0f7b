-- ===== src/Web/Page/Names.antt =====
-- The names that ChatPage shows over messages: channelMemberDirectory and displayMessages.
use Prim.Native.Char.{Char}
use agentunited.Prelude.{String, Bool, Option, none, some, List, [], ◌∷◌, str_eq, if◌then◌else◌}
use agentunited.Prelude.Dict.{Dict, lookup, insert}
use agentunited.Prelude.Text.{before}
use agentunited.Web.Chat.{Message}
use agentunited.Web.Live.Names.{get_display_name, trim_start, trim_end}
use agentunited.Web.Page.State.{Entry, Member}

-- The branches of the source that set the author all set it to the name that was found.
abbrev pub renamed : Option String → Message → Message
renamed none m = m
renamed (some n) m = if str_eq n "" then m else record m { author = n }

module _ (is_space : Char → Bool) (upper : Char → Char) (lower : String → String) where
  -- One round of the loop over the members.
  unfoldable pub enter_member : Member → Dict String → Dict String
  unfolding insert before get_display_name
  enter_member m d =
      let shown = get_display_name is_space upper m.name in
      let local = before b'@' m.email in
      let by_email = insert (lower m.email) shown (insert m.email shown (insert m.id shown d)) in
      if str_eq local "" then by_email else insert (lower local) shown (insert local shown by_email)

  unfoldable pub channel_member_directory : List Member → Dict String → Dict String
  unfolding enter_member
  channel_member_directory [] d = d
  channel_member_directory (m ∷ ms) d = channel_member_directory ms (enter_member m d)

  unfoldable pub trim : String → String
  unfolding trim_start trim_end
  trim text = trim_end is_space upper (trim_start is_space upper text)

  -- The display name of a directory's entry, "" where there is no entry.
  abbrev display_at : String → Dict Entry → Option String
  display_at key users = elim (lookup key users) [ none ↦ none | some e ↦ some e.display ]

  -- a || b for entries, which are objects.
  abbrev or_entry : Option String → Option String → Option String
  or_entry none b = b
  or_entry (some a) b = some a

  abbrev not_empty : Option String → Option String → Option String
  not_empty none b = b
  not_empty (some a) b = if str_eq a "" then b else some a

  abbrev shown_as : Option String → Option String
  shown_as none = none
  shown_as (some d) = if str_eq d "" then none else some (get_display_name is_space upper d)

  -- One round of the loop over the candidates; the third alternative of the source is the second.
  unfoldable pub name_of : Dict Entry → Dict String → String → Option String
  name_of users members raw =
      let candidate = trim raw in
      not_empty
        (shown_as (or_entry (display_at candidate users) (display_at (lower candidate) users)))
        (not_empty (not_empty (lookup candidate members) (lookup (lower candidate) members)) none)

  unfoldable pub preferred_name : Dict Entry → Dict String → List String → Option String
  unfolding name_of
  preferred_name users members [] = none
  preferred_name users members (raw ∷ rest) =
      let later = preferred_name users members rest in
      if str_eq raw ""
      then later
      else elim (name_of users members raw) [ none ↦ later | some n ↦ some n ]

  unfoldable pub display_message : Dict Entry → Dict String → Message → Message
  unfolding preferred_name
  display_message users members m =
      renamed (preferred_name users members (m.author_id ∷ m.author ∷ [])) m

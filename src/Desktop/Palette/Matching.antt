-- ===== src/Desktop/Palette/Matching.antt =====
-- What a query finds.
use Prim.Native.Char.{Char}
use Prim.Native.String.{◌++◌ as ◌+++◌, [], ◌∷◌}
use text.Mathlib.TextLemmas.{cons-append, nil-append}
use agentunited.Prelude.{
  String, Bool, true, false, Option, none, some, List, [], ◌∷◌, ◌++◌, map, keep, str_eq, if-either,
  ◌≡◌, ◌≢◌, refl, arith, ap, ◌∙◌, Bool-cases, inl, inr, eq_iff,
}
use agentunited.Prelude.Text.{includes, strip_prefix}
use agentunited.Desktop.Hook.{ChannelData, UserData}
use agentunited.Desktop.Palette.{
  CommandPaletteItem, actions, channel_item, user_item, has, topic_has, channel_matches,
  user_matches, item_matches, items, topic_or,
}

keep-append {ℓ} :
    {A : Type ℓ} (p : A → Bool) (xs ys : List A) → keep p (xs ++ ys) ≡ keep p xs ++ keep p ys
keep-append p [] ys = refl
keep-append p (x ∷ xs) ys = elim (Bool-cases (p x)) [
  | inl e ↦ rw (e, keep-append p xs ys) refl
  | inr e ↦ rw (e, keep-append p xs ys) refl
]

-- A second test that every kept element passes keeps them all.
keep-map {ℓ κ} :
    {A : Type ℓ} {B : Type κ} (p : A → Bool) (q : B → Bool) (f : A → B)
    → ((x : A) → p x ≡ true → q (f x) ≡ true)
    → (xs : List A) → keep q (map f (keep p xs)) ≡ map f (keep p xs)
keep-map p q f passes [] = refl
keep-map p q f passes (x ∷ xs) = elim (Bool-cases (p x)) [
  | inl e ↦ rw (e, passes x e, keep-map p q f passes xs) refl
  | inr e ↦ rw (e, keep-map p q f passes xs) refl
]

includes-cons :
    (piece s : String) (c : Char) → includes piece s ≡ true → includes piece (c ∷ s) ≡ true
unfolding includes
includes-cons piece s c inside = ground arith

behind_hash : (piece s : String) → includes piece s ≡ true → includes piece ("#" +++ s) ≡ true
behind_hash piece s inside = rw (cons-append _ "" s, nil-append s) (includes-cons piece s _ inside)

nowhere : (piece : String) → piece ≢ "" → includes piece "" ≡ false
unfolding includes strip_prefix
nowhere [] some_piece = absurd (some_piece refl)
nowhere (c ∷ piece) some_piece = refl

-- What toLowerCase does to a text that is empty, is not empty or begins with #.
pub record Lowers (lower : String → String) : Type 0 where
  pub of_empty : lower "" ≡ ""
  pub of_hash : (s : String) → lower ("#" +++ s) ≡ "#" +++ lower s
  pub of_some : (s : String) → s ≢ "" → lower s ≢ ""

module _ (lower : String → String) (lowers : Lowers lower) (query : String)
    (asked : query ≢ "") where
  nothing_in_empty : has lower query "" ≡ false
  unfolding has includes strip_prefix
  nothing_in_empty = rw lowers.of_empty (nowhere (lower query) (lowers.of_some query asked))

  has-hash : (name : String) → has lower query name ≡ true → has lower query ("#" +++ name) ≡ true
  unfolding has
  has-hash name found = rw (lowers.of_hash name) (behind_hash (lower query) (lower name) found)

  topic_shows :
      (o : Option String) → topic_has lower query o ≡ true → has lower query (topic_or o) ≡ true
  topic_shows none found = ground arith
  topic_shows (some t) found = elim (Bool-cases (str_eq t "")) [
    | inl bare ↦ ground (arith, nothing_in_empty, eq_iff t "")
    | inr given ↦ rw given found
  ]

  channel_passes :
      (c : ChannelData)
      → channel_matches lower query c ≡ true
      → item_matches lower query (channel_item c) ≡ true
  unfolding channel_matches item_matches
  channel_passes c found =
      let by_name = has-hash c.name in
      let by_topic = topic_shows c.topic in ground (arith, by_name, by_topic, eq_iff query "")

  user_passes :
      (u : UserData)
      → user_matches lower query u ≡ true
      → item_matches lower query (user_item u) ≡ true
  unfolding user_matches item_matches
  user_passes u found = ground (arith, eq_iff query "")

  filtered :
      (front : List CommandPaletteItem) (channels : List ChannelData) (users : List UserData)
      → keep (item_matches lower query) (
          front
          ++ map channel_item (keep (channel_matches lower query) channels)
          ++ map user_item (keep (user_matches lower query) users))
        ≡ keep (item_matches lower query) front
          ++ map channel_item (keep (channel_matches lower query) channels)
          ++ map user_item (keep (user_matches lower query) users)
  filtered front channels users =
      let found = map channel_item (keep (channel_matches lower query) channels) in
      let people = map user_item (keep (user_matches lower query) users) in
      keep-append (item_matches lower query) (front ++ found) people
      ∙ ap (λ is. is ++ keep (item_matches lower query) people)
          (keep-append (item_matches lower query) front found)
      ∙ ap
          (λ is.
            keep (item_matches lower query) front ++ is ++ keep (item_matches lower query) people)
          (keep-map (channel_matches lower query) (item_matches lower query) channel_item
            channel_passes channels)
      ∙ ap (λ is. keep (item_matches lower query) front ++ found ++ is)
          (keep-map (user_matches lower query) (item_matches lower query) user_item user_passes
            users)

  -- For a query, the palette shows the actions whose title or subtitle has the query, then the
  -- channels whose name or topic has it, then the users whose name has it.
  pub items_lem :
      (channels : List ChannelData) (users : List UserData)
      → items lower query channels users
        ≡ keep (item_matches lower query) actions
          ++ map channel_item (keep (channel_matches lower query) channels)
          ++ map user_item (keep (user_matches lower query) users)
  unfolding items
  items_lem channels users =
      if-either
        (λ shown.
          shown
          ≡ keep (item_matches lower query) actions
            ++ map channel_item (keep (channel_matches lower query) channels)
            ++ map user_item (keep (user_matches lower query) users))
        (str_eq query "") (λ bare. absurd (asked ((eq_iff query "").0 bare)))
        (λ given. filtered actions channels users)

-- ===== src/Desktop/Palette/Moving.antt =====
-- Moving through the entries of the palette.
use agentunited.Prelude.{
  ℕ, ◌<◌, String, Bool, true, Option, none, some, List, [], ◌∷◌, ◌||◌, ◌&&◌, if-either, length, ltb,
  ◌==◌, ◌≡◌, arith, if◌then◌else◌,
}
use agentunited.Desktop.Hook.{ChannelData, UserData}
use agentunited.Desktop.Palette.{
  Palette, Key, arrow_down, arrow_up, enter, escape, other, CommandPaletteItem, handle_key_down,
  set_query, items_changed, hover, items, next_index, previous_index,
}

-- The mouse can enter an entry that is shown.
pub data Event : Type 0 where
  presses : Key → Event
  types : String → Event
  receives : List ChannelData → List UserData → Event
  enters : ℕ → Event

-- The palette with the channels and the users that it is given.
pub record View : Type 0 where
  pub palette : Palette
  pub channels : List ChannelData
  pub users : List UserData

module _ (lower : String → String) where
  abbrev pub shown : View → List CommandPaletteItem
  shown v = items lower v.palette.query v.channels v.users

  unfoldable pub step : Event → View → View
  unfolding handle_key_down set_query items_changed hover
  step (presses key) v = record v { palette = (handle_key_down key (shown v) v.palette).0 }
  step (types query) v = record v { palette = set_query query v.palette }
  step (receives channels users) v = record {
    palette = items_changed v.palette;
    channels = channels;
    users = users;
  }
  step (enters i) v =
      if ltb i (length (shown v)) then record v { palette = hover i v.palette } else v

  unfoldable pub run : List Event → View → View
  unfolding step
  run [] v = v
  run (e ∷ es) v = run es (step e v)

-- The index of one of n entries; where there is none, 0 or -1.
abbrev pub in_list : ℕ → Option ℕ → Bool
in_list n none = n == 0
in_list n (some i) = ltb i n || (n == 0) && (i == 0)

next-in_list : (n : ℕ) (o : Option ℕ) → in_list n (next_index n o) ≡ true
next-in_list n none = ground arith
next-in_list n (some i) = ground arith

previous-in_list :
    (n : ℕ) (o : Option ℕ) → in_list n o ≡ true → in_list n (previous_index n o) ≡ true
previous-in_list n none here = ground arith
previous-in_list n (some i) here = ground arith

zero-in_list : (n : ℕ) → in_list n (some 0) ≡ true
zero-in_list n = ground arith

module _ (lower : String → String) where
  abbrev pub IsOnEntry : View → Type 0
  IsOnEntry v = in_list (length (shown lower v)) v.palette.selected_index ≡ true

  key-IsOnEntry : (key : Key) (v : View) → IsOnEntry v → IsOnEntry (step lower (presses key) v)
  unfolding step handle_key_down
  key-IsOnEntry arrow_down v on = next-in_list (length (shown lower v)) v.palette.selected_index
  key-IsOnEntry arrow_up v on =
      previous-in_list (length (shown lower v)) v.palette.selected_index on
  key-IsOnEntry enter v on = on
  key-IsOnEntry escape v on = on
  key-IsOnEntry other v on = on

  step-IsOnEntry : (e : Event) (v : View) → IsOnEntry v → IsOnEntry (step lower e v)
  unfolding step set_query items_changed hover
  step-IsOnEntry (presses key) v on = key-IsOnEntry key v on
  step-IsOnEntry (types query) v on = zero-in_list (length (items lower query v.channels v.users))
  step-IsOnEntry (receives channels users) v on =
      zero-in_list (length (items lower v.palette.query channels users))
  step-IsOnEntry (enters i) v on =
      if-either IsOnEntry (ltb i (length (shown lower v))) (λ inside. ground arith) (λ outside. on)

  -- While the user types, moves and hovers and the lists change, the selected index is that of an
  -- entry that is shown; where none is shown, it is 0 or -1.
  pub run-IsOnEntry : (es : List Event) (v : View) → IsOnEntry v → IsOnEntry (run lower es v)
  unfolding run
  run-IsOnEntry [] v on = on
  run-IsOnEntry (e ∷ es) v on = run-IsOnEntry es (step lower e v) (step-IsOnEntry e v on)

  -- On an entry, Enter runs its action, and ArrowDown and ArrowUp undo each other.
  pub keys_lem :
      (v : View) (i : ℕ)
      → v.palette.selected_index ≡ some i
      → i < length (shown lower v)
      → ((step lower (presses arrow_up) (step lower (presses arrow_down) v)).palette.selected_index
          ≡ some i)
        × ((step lower
              (presses arrow_down)
              (step lower (presses arrow_up) v)).palette.selected_index
            ≡ some i)
  unfolding step handle_key_down
  keys_lem v i here inside = rw here (ground arith, ground arith)

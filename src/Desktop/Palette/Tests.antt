-- ===== src/Desktop/Palette/Tests.antt =====
-- The palette with one channel and one user.
use agentunited.Prelude.{String, none, some, [], ◌∷◌, ◌++◌, ◌≡◌, refl, arith, eq_iff, map, keep}
use agentunited.Prelude.Text.{includes, strip_prefix}
use agentunited.Desktop.Hook.{ChannelData, UserData, human, online}
use agentunited.Desktop.Palette.{
  actions, channel_item, user_item, item_matches, channel_matches, user_matches, items, opened,
  arrow_up, enter, handle_key_down, picks, on_close, channel,
}
use agentunited.Desktop.Palette.Matching.{items_lem, Lowers}
use agentunited.Desktop.Palette.Moving.{
  View, presses, types, receives, enters, run, run-IsOnEntry, IsOnEntry,
}

abbrev same : String → String
same text = text

abbrev same-Lowers : Lowers same
same-Lowers = record { of_empty = refl; of_hash = λ s. refl; of_some = λ s given. given }

abbrev general : ChannelData
general = record {
  id = "c1";
  name = "general";
  topic = some "news";
  last_message = none;
  unread_count = 0;
}

abbrev ann : UserData
ann = record { id = "u1"; name = "ann"; kind = human; status = online }

abbrev view : View
view = record { palette = opened; channels = general ∷ []; users = ann ∷ [] }

found_by_topic : items same "news" (general ∷ []) (ann ∷ []) ≡ channel_item general ∷ []
unfolding items includes strip_prefix
found_by_topic = refl

entered :
    (handle_key_down enter (channel_item general ∷ []) opened).1
    ≡ picks (channel "c1") ∷ on_close ∷ []
unfolding handle_key_down
entered = refl

items_lem_example :
    items same "news" (general ∷ []) (ann ∷ [])
    ≡ keep (item_matches same "news") actions
      ++ map channel_item (keep (channel_matches same "news") (general ∷ []))
      ++ map user_item (keep (user_matches same "news") (ann ∷ []))
items_lem_example =
    items_lem same same-Lowers "news" (ground (arith, eq_iff "news" "")) (general ∷ []) (ann ∷ [])

run-IsOnEntry_example : IsOnEntry same (
    run same
      (presses arrow_up ∷ types "news" ∷ enters 3 ∷ receives [] [] ∷ presses arrow_up ∷ [])
      view)
unfolding items
run-IsOnEntry_example =
    run-IsOnEntry same
      (presses arrow_up ∷ types "news" ∷ enters 3 ∷ receives [] [] ∷ presses arrow_up ∷ []) view
      refl

-- ===== src/Web/Page/Selection.antt =====
-- Which conversation the page shows, over its handlers and what arrives.
use agentunited.Prelude.{
  ℕ, suc, ◌<◌, ◌≤◌, All, eq_refl, String, Bool, true, false, List, [], ◌∷◌, keep, any, length, ltb,
  str_eq, eq_iff, ◌≡◌, refl, ◌≢◌, ◌⊎◌, arith,
}
use agentunited.Web.Chat.{Channel}
use agentunited.Web.Page.{
  Page, Fetched, answered, failed, Captured, first_render, nothing_selected, load_channels,
  load_dms, handle_select_channel, handle_dm_select, handle_create_channel,
  handle_search_result_click, handle_channel_update, handle_channel_delete, handle_dm_created,
  route_changed, starter_dm_created, Kind, mark_conversation_read, is_other, Kind,
}

-- What changes the selection or the two lists.
pub data Event : Type 0 where
  loads_channels loads_dms : Captured → Fetched (List Channel) → Event
  selects_channel selects_dm clicks_result deletes routes : String → Event
  creates : (String → Bool) → List String → Fetched Channel → Event
  created_dm : String → Fetched (List Channel) → Event
  starts : Fetched Channel → Event
  updates : Channel → Event
  reads : Kind → String → Bool → Event

-- A deleted channel has an id, and what loads finds something selected or named by the address.
abbrev pub IsNamed : Event → Type 0
IsNamed (loads_channels c f) = nothing_selected c ≡ false
IsNamed (loads_dms c f) = nothing_selected c ≡ false
IsNamed (deletes id) = id ≢ ""
IsNamed _ = Unit

abbrev pub IsExclusive : Page → Type 0
IsExclusive s = (s.selected_channel_id ≡ "") ⊎ (s.selected_dm_id ≡ "")

delete-IsExclusive :
    (id : String) (s : Page) → id ≢ "" → IsExclusive s → IsExclusive (handle_channel_delete id s)
unfolding handle_channel_delete
delete-IsExclusive id s named e =
    ground (arith, eq_iff s.selected_channel_id id, eq_iff s.selected_channel_id "")

module _ (lower : String → String) (show : ℕ → String) where
  pub step : Event → Page → Page
  step (loads_channels c f) s = load_channels c f s
  step (loads_dms c f) s = load_dms lower c f s
  step (selects_channel id) s = (handle_select_channel id s).0
  step (selects_dm id) s = (handle_dm_select id s).0
  step (clicks_result id) s = handle_search_result_click id s
  step (deletes id) s = handle_channel_delete id s
  step (routes id) s = route_changed id s
  step (creates invited agents f) s = handle_create_channel show invited agents f s
  step (created_dm id f) s = handle_dm_created lower id f s
  step (starts f) s = (starter_dm_created f s).0
  step (updates c) s = handle_channel_update c s
  step (reads k id done) s = mark_conversation_read k id done s

  pub run : List Event → Page → Page
  run [] s = s
  run (e ∷ es) s = run es (step e s)

  step-IsExclusive : (e : Event) (s : Page) → IsNamed e → IsExclusive s → IsExclusive (step e s)
  unfolding step load_channels load_dms handle_select_channel handle_dm_select
      handle_search_result_click route_changed handle_create_channel handle_dm_created
      starter_dm_created handle_channel_update mark_conversation_read
  step-IsExclusive (deletes id) s n e = delete-IsExclusive id s n e
  step-IsExclusive (loads_channels c (answered [])) s n e = e
  step-IsExclusive (loads_channels c (answered (x ∷ xs))) s n e = rw n e
  step-IsExclusive (loads_channels c (failed why)) s n e = e
  step-IsExclusive (loads_dms c (answered [])) s n e = e
  step-IsExclusive (loads_dms c (answered (x ∷ xs))) s n e = rw n e
  step-IsExclusive (loads_dms c (failed why)) s n e = e
  step-IsExclusive (created_dm id f) s n e = ground arith
  step-IsExclusive (creates invited agents f) s n e = ground arith
  step-IsExclusive (reads k id done) s n e = ground arith
  step-IsExclusive ev s n e = ground arith

  -- A channel and a direct conversation are never both selected, over any history of the handlers
  -- and of answers, as long as the lists are loaded with something selected or named by the address
  -- and the ids of deleted channels are not empty.
  pub run-IsExclusive :
      (es : List Event) (s : Page) → All IsNamed es → IsExclusive s → IsExclusive (run es s)
  unfolding run
  run-IsExclusive [] s n e = e
  run-IsExclusive (ev ∷ es) s n e = run-IsExclusive es (step ev s) n.1 (step-IsExclusive ev s n.0 e)

-- Where the page is opened without a conversation and both lists have entries, loading selects the
-- first channel and the first direct conversation as well, in whichever order the answers arrive.
pub both_loads_select :
    (lower : String → String) (c d : Channel) (cs ds : List Channel) (s : Page)
    → let opened = first_render "" in
      let channels_first =
        load_dms lower opened (answered (d ∷ ds)) (load_channels opened (answered (c ∷ cs)) s) in
      let dms_first =
        load_channels opened (answered (c ∷ cs)) (load_dms lower opened (answered (d ∷ ds)) s) in
      (channels_first.selected_channel_id ≡ c.id)
      × (channels_first.selected_dm_id ≡ d.id)
      × (dms_first.selected_channel_id ≡ c.id)
      × (dms_first.selected_dm_id ≡ d.id)
unfolding load_channels load_dms
both_loads_select lower c d cs ds s = (refl, refl, refl, refl)

kept_le : (id : String) (cs : List Channel) → length (keep (is_other id) cs) ≤ length cs
kept_le id [] = omega arith
kept_le id (c ∷ cs) = let rest = kept_le id cs in ground arith

kept_fewer :
    (id : String) (cs : List Channel)
    → any (λ (c : Channel). str_eq c.id id) cs ≡ true
    → length (keep (is_other id) cs) < length cs
kept_fewer id [] h = cc h
kept_fewer id (c ∷ cs) h =
    let later = kept_fewer id cs in let most = kept_le id cs in ground (arith, later, most)

-- Deleting the selected channel takes it off the list and selects the first of those that are left.
pub delete_selects_first :
    (s : Page) (c : Channel) (cs : List Channel)
    → any (λ (x : Channel). str_eq x.id s.selected_channel_id) s.channels ≡ true
    → keep (is_other s.selected_channel_id) s.channels ≡ c ∷ cs
    → ((handle_channel_delete s.selected_channel_id s).channels ≡ c ∷ cs)
      × ((handle_channel_delete s.selected_channel_id s).selected_channel_id ≡ c.id)
unfolding handle_channel_delete
delete_selects_first s c cs selected left =
    let fewer = kept_fewer s.selected_channel_id s.channels selected in
    let more : suc (length cs) < length s.channels = rw left at fewer in
    let many : ltb 1 (length s.channels) ≡ true = ground arith in
    (left, rw (eq_refl s.selected_channel_id, many, left) refl)

-- Where the selected channel is the only one, deleting it empties the list and leaves it selected.
pub delete_last_dangles :
    (s : Page) (c : Channel)
    → s.channels ≡ c ∷ []
    → s.selected_channel_id ≡ c.id
    → ((handle_channel_delete c.id s).channels ≡ [])
      × ((handle_channel_delete c.id s).selected_channel_id ≡ c.id)
unfolding handle_channel_delete
delete_last_dangles s c only selected = rw only (ground (arith, eq_refl c.id))

-- ===== src/Desktop/App/Navigating.antt =====
-- Moving between the channels, forwards and backwards.
use native.Mathlib.Nat.{mod-eq_of_lt, mod_self, mod-add-mod}
use agentunited.Prelude.{
  ℕ, zero, suc, ◌+◌, ◌<◌, ◌%◌, String, Option, some, List, ltb, length, get_elem?, if-either, ◌≡◌,
  refl, sym, ap, ◌∙◌, arith,
}
use agentunited.Desktop.Hook.{ChannelData}
use agentunited.Desktop.App.{
  App, view_of, find_index, last_index, previous_index, next_index, handle_previous_channel,
  handle_next_channel,
}
use agentunited.Desktop.App.Places.{
  IsAt, Lands, ids_of, get-ids_of, get-find_index, select_at-Lands, index-within, next-within,
  previous-within, same_length,
}

next-Lands :
    (i : ℕ) (a : App)
    → IsAt i a
    → Lands
        (next_index (some i) a.hook.channels)
        (ids_of a.hook.channels)
        (handle_next_channel (view_of a) a).hook
unfolding handle_next_channel
next-Lands i a (apart, found) =
    let within = index-within a.hook.active_channel a.hook.channels i found in
    rw found (
      select_at-Lands (next_index (some i) a.hook.channels) a apart
        (next-within i a.hook.channels within))

previous-Lands :
    (i : ℕ) (a : App)
    → IsAt i a
    → Lands
        (previous_index (some i) a.hook.channels)
        (ids_of a.hook.channels)
        (handle_previous_channel (view_of a) a).hook
unfolding handle_previous_channel
previous-Lands i a (apart, found) =
    let within = index-within a.hook.active_channel a.hook.channels i found in
    rw found (
      select_at-Lands (previous_index (some i) a.hook.channels) a apart
        (previous-within i a.hook.channels within))

previous-next_index :
    (i : ℕ) (chs later : List ChannelData)
    → i < length chs
    → length later ≡ length chs
    → previous_index (some (next_index (some i) chs)) later ≡ i
unfolding previous_index next_index
previous-next_index i chs later within same =
    if-either (λ k. previous_index (some k) later ≡ i) (ltb i (last_index chs)) (λ inner. refl)
      (λ last. ground (arith, within, same, last))

next-previous_index :
    (i : ℕ) (chs later : List ChannelData)
    → i < length chs
    → length later ≡ length chs
    → next_index (some (previous_index (some i) chs)) later ≡ i
unfolding previous_index next_index
next-previous_index zero chs later within same =
    if-either (λ k. k ≡ 0) (ltb (last_index chs) (last_index later))
      (λ inner. ground (arith, within, same, inner)) (λ last. refl)
next-previous_index (suc i) chs later within same =
    if-either (λ k. k ≡ suc i) (ltb i (last_index later)) (λ inner. refl)
      (λ last. ground (arith, within, same, last))

-- Where the ids are the same, the index says which channel is active.
same_active :
    (i : ℕ) (chs later : List ChannelData) (active present : Option String)
    → find_index active chs ≡ some i
    → find_index present later ≡ some i
    → ids_of later ≡ ids_of chs
    → present ≡ active
same_active i chs later active present was is_now same =
    let (ch, at, here) = get-find_index active chs i was in
    let (ch', at', here') = get-find_index present later i is_now in
    here'
    ∙ sym (get-ids_of later i ch' at')
    ∙ ap (λ ids. get_elem? ids i) same
    ∙ get-ids_of chs i ch at
    ∙ sym here

next-previous :
    (i : ℕ) (a : App)
    → IsAt i a
    → let b = handle_previous_channel (view_of a) a in
      (handle_next_channel (view_of b) b).hook.active_channel ≡ a.hook.active_channel
next-previous i a (apart, found) =
    let b = handle_previous_channel (view_of a) a in
    let (apart', found', same) = previous-Lands i a (apart, found) in
    let j = previous_index (some i) a.hook.channels in
    let (apart'', found'', same') = next-Lands j b (apart', found') in
    let within = index-within a.hook.active_channel a.hook.channels i found in
    let back =
      next-previous_index i a.hook.channels b.hook.channels within
        (same_length a.hook.channels b.hook.channels same) in
    same_active i a.hook.channels _ a.hook.active_channel _ found (found'' ∙ ap some back)
      (same' ∙ same)

previous-next :
    (i : ℕ) (a : App)
    → IsAt i a
    → let b = handle_next_channel (view_of a) a in
      (handle_previous_channel (view_of b) b).hook.active_channel ≡ a.hook.active_channel
previous-next i a (apart, found) =
    let b = handle_next_channel (view_of a) a in
    let (apart', found', same) = next-Lands i a (apart, found) in
    let j = next_index (some i) a.hook.channels in
    let (apart'', found'', same') = previous-Lands j b (apart', found') in
    let within = index-within a.hook.active_channel a.hook.channels i found in
    let back =
      previous-next_index i a.hook.channels b.hook.channels within
        (same_length a.hook.channels b.hook.channels same) in
    same_active i a.hook.channels _ a.hook.active_channel _ found (found'' ∙ ap some back)
      (same' ∙ same)

-- Where the channels have different ids and one of them is active, going to the next channel and then
-- to the previous one, or to the previous one and then to the next, returns to it.
pub round_trip :
    (i : ℕ) (a : App)
    → IsAt i a
    → let b = handle_next_channel (view_of a) a in
      let c = handle_previous_channel (view_of a) a in
      ((handle_previous_channel (view_of b) b).hook.active_channel ≡ a.hook.active_channel)
      × ((handle_next_channel (view_of c) c).hook.active_channel ≡ a.hook.active_channel)
round_trip i a here = (previous-next i a here, next-previous i a here)

next_index-mod :
    (i : ℕ) (chs : List ChannelData) → i < length chs → next_index (some i) chs ≡ suc i % length chs
unfolding next_index
next_index-mod i chs within =
    if-either (λ j. j ≡ suc i % length chs) (ltb i (last_index chs))
      (λ inner. sym (mod-eq_of_lt (ground (arith, within, inner))))
      (λ last.
        sym (mod_self (length chs)) ∙ ap (λ j. j % length chs) (ground (arith, within, last)))

-- `k` times the next channel.
unfoldable pub next_times : ℕ → App → App
next_times zero a = a
next_times (suc k) a = next_times k (handle_next_channel (view_of a) a)

-- Where the channels have different ids and the i-th of them is active, going k times to the next one
-- leads to the one at i + k, counted around the list.
pub next_times_lem :
    (k i : ℕ) (a : App) → IsAt i a → IsAt ((i + k) % length a.hook.channels) (next_times k a)
unfolding next_times
next_times_lem zero i a (apart, found) =
    let within = index-within a.hook.active_channel a.hook.channels i found in
    (
      apart,
      found
          ∙ ap some
              (sym (mod-eq_of_lt within) ∙ ap (λ j. j % length a.hook.channels) (omega arith)),
    )
next_times_lem (suc k) i a (apart, found) =
    let n = length a.hook.channels in
    let b = handle_next_channel (view_of a) a in
    let within = index-within a.hook.active_channel a.hook.channels i found in
    let (apart', found', same) = next-Lands i a (apart, found) in
    let (apart'', found'') =
      next_times_lem k (next_index (some i) a.hook.channels) b (apart', found') in
    let as_before : length b.hook.channels ≡ n = same_length a.hook.channels b.hook.channels same in
    let counted : (next_index (some i) a.hook.channels + k) % n ≡ (i + suc k) % n =
      ap (λ j. (j + k) % n) (next_index-mod i a.hook.channels within)
      ∙ mod-add-mod (suc i) n k
      ∙ ap (λ j. j % n) (omega arith) in
    (
      apart'',
      found''
          ∙ ap (λ m. some ((next_index (some i) a.hook.channels + k) % m)) as_before
          ∙ ap some counted,
    )

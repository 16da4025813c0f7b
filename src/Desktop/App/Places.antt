-- ===== src/Desktop/App/Places.antt =====
-- The place of the active channel in the list.
use agentunited.Prelude.{
  ℕ, zero, suc, ◌<◌, String, Bool, true, false, Option, none, some, List, [], ◌∷◌, map, length,
  get_elem?, str_eq, eq_refl, eq_iff, subst, if◌then◌else◌, if-either, All, ◌≡◌, refl, sym, ap, ◌∙◌,
  arith,
}
use agentunited.Desktop.Hook.{Hook, ChannelData, read_if, set_active_channel}
use agentunited.Desktop.App.{
  App, is_chosen, switch_to, select, listen, select_at, select_some, is_at, find_index,
  previous_index, next_index,
}

-- No two channels have one id.
abbrev pub AreDistinct : List ChannelData → Type 0
AreDistinct [] = Unit
AreDistinct (ch ∷ chs) = All (λ other. str_eq ch.id other.id ≡ false) chs × AreDistinct chs

abbrev pub ids_of : List ChannelData → List String
ids_of = map (λ (ch : ChannelData). ch.id)

-- The active channel is the one at an index of the list.
abbrev pub IsAt : ℕ → App → Type 0
IsAt i a = AreDistinct a.hook.channels × (find_index a.hook.active_channel a.hook.channels ≡ some i)

All-get :
    (P : ChannelData → Type 0) (chs : List ChannelData) (i : ℕ) (ch : ChannelData)
    → All P chs
    → get_elem? chs i ≡ some ch
    → P ch
All-get P [] i ch h at = ground arith
All-get P (c ∷ chs) zero ch h at = subst P (ap (λ o. elim o [ none ↦ c | some x ↦ x ]) at) h.0
All-get P (c ∷ chs) (suc i) ch h at = All-get P chs i ch h.1 at

pub find_index-get :
    (chs : List ChannelData) (i : ℕ) (ch : ChannelData)
    → AreDistinct chs
    → get_elem? chs i ≡ some ch
    → find_index (some ch.id) chs ≡ some i
unfolding find_index
find_index-get [] i ch apart at = ground arith
find_index-get (c ∷ chs) zero ch apart at =
    let same : c.id ≡ ch.id = ap (λ o. elim o [ none ↦ c.id | some x ↦ x.id ]) at in
    let hit : str_eq c.id ch.id ≡ true = ap (str_eq c.id) (sym same) ∙ eq_refl c.id in rw hit refl
find_index-get (c ∷ chs) (suc i) ch apart at =
    let other : str_eq c.id ch.id ≡ false =
      All-get (λ o. str_eq c.id o.id ≡ false) chs i ch apart.0 at in
    rw (other, find_index-get chs i ch apart.1 at) refl

is_at-Id :
    (active : Option String) (ch : ChannelData) → is_at active ch ≡ true → active ≡ some ch.id
is_at-Id none ch here = ground arith
is_at-Id (some id) ch here = ap some (sym ((eq_iff ch.id id).0 here))

-- The element at an index, and that it is the active one.
abbrev pub Found : Option String → List ChannelData → ℕ → Type 0
Found active chs i = (ch : ChannelData) × (get_elem? chs i ≡ some ch) × (active ≡ some ch.id)

place :
    (active : Option String) (c : ChannelData) (chs : List ChannelData) (i : ℕ) (here : Bool)
    (later : Option ℕ)
    → is_at active c ≡ here
    → ((j : ℕ) → later ≡ some j → Found active chs j)
    → (if here then some 0 else elim later [ none ↦ none | some j ↦ some (suc j) ]) ≡ some i
    → Found active (c ∷ chs) i
place active c chs zero true later at rest found = (c, refl, is_at-Id active c at)
place active c chs (suc i) true later at rest found = ground arith
place active c chs i false none at rest found = ground arith
place active c chs zero false (some j) at rest found = ground arith
place active c chs (suc i) false (some j) at rest found = rest i (ground arith)

pub get-find_index :
    (active : Option String) (chs : List ChannelData) (i : ℕ)
    → find_index active chs ≡ some i
    → Found active chs i
unfolding find_index
get-find_index active [] i found = ground arith
get-find_index active (c ∷ chs) i found =
    place active c chs i (is_at active c) (find_index active chs) refl
      (λ j hit. get-find_index active chs j hit) found

id-read_if : (id : String) (ch : ChannelData) → (read_if id ch).id ≡ ch.id
unfolding read_if
id-read_if id ch =
    if-either (λ (c : ChannelData). c.id ≡ ch.id) (str_eq ch.id id) (λ same. refl) (λ other. refl)

is_at-read_if :
    (active : Option String) (id : String) (ch : ChannelData)
    → is_at active (read_if id ch) ≡ is_at active ch
is_at-read_if none id ch = refl
is_at-read_if (some a) id ch = ap (λ c. str_eq c a) (id-read_if id ch)

find_index-read_if :
    (active : Option String) (id : String) (chs : List ChannelData)
    → find_index active (map (read_if id) chs) ≡ find_index active chs
unfolding find_index
find_index-read_if active id [] = refl
find_index-read_if active id (ch ∷ chs) =
    rw (is_at-read_if active id ch, find_index-read_if active id chs) refl

ids_of-read_if : (id : String) (chs : List ChannelData) → ids_of (map (read_if id) chs) ≡ ids_of chs
ids_of-read_if id [] = refl
ids_of-read_if id (ch ∷ chs) =
    ap (λ x. x ∷ ids_of (map (read_if id) chs)) (id-read_if id ch)
    ∙ ap (◌∷◌ ch.id) (ids_of-read_if id chs)

length-ids_of : (chs : List ChannelData) → length (ids_of chs) ≡ length chs
length-ids_of [] = refl
length-ids_of (ch ∷ chs) = ap suc (length-ids_of chs)

pub same_length :
    (chs later : List ChannelData) → ids_of later ≡ ids_of chs → length later ≡ length chs
same_length chs later same = sym (length-ids_of later) ∙ ap length same ∙ length-ids_of chs

pub get-ids_of :
    (chs : List ChannelData) (i : ℕ) (ch : ChannelData)
    → get_elem? chs i ≡ some ch
    → get_elem? (ids_of chs) i ≡ some ch.id
get-ids_of [] i ch at = ground arith
get-ids_of (c ∷ chs) zero ch at = ap (λ o. elim o [ none ↦ some c.id | some x ↦ some x.id ]) at
get-ids_of (c ∷ chs) (suc i) ch at = get-ids_of chs i ch at

apart-read_if :
    (id : String) (ch : ChannelData) (chs : List ChannelData)
    → All (λ other. str_eq ch.id other.id ≡ false) chs
    → All (λ other. str_eq (read_if id ch).id other.id ≡ false) (map (read_if id) chs)
apart-read_if id ch [] apart = tt
apart-read_if id ch (c ∷ chs) apart = (
  ap (λ x. str_eq x (read_if id c).id) (id-read_if id ch)
      ∙ ap (str_eq ch.id) (id-read_if id c)
      ∙ apart.0,
  apart-read_if id ch chs apart.1,
)

AreDistinct-read_if :
    (id : String) (chs : List ChannelData) → AreDistinct chs → AreDistinct (map (read_if id) chs)
AreDistinct-read_if id [] apart = tt
AreDistinct-read_if id (ch ∷ chs) apart =
    (apart-read_if id ch chs apart.0, AreDistinct-read_if id chs apart.1)

-- The hook behind another selection.
hook-switch_to :
    (id : String) (a : App) → (switch_to id a).hook ≡ set_active_channel (some id) a.hook
unfolding switch_to listen
hook-switch_to id a =
    if-either (λ (b : App). b.hook ≡ set_active_channel (some id) a.hook) (str_eq id "")
      (λ bare. refl) (λ full. refl)

chosen-Id : (active : Option String) (id : String) → is_chosen active id ≡ true → active ≡ some id
chosen-Id none id same = ground arith
chosen-Id (some x) id same = ap some ((eq_iff x id).0 same)

-- The i-th of the channels is active, which have these ids.
abbrev pub Lands : ℕ → List String → Hook → Type 0
Lands i ids h =
    AreDistinct h.channels
    × (find_index h.active_channel h.channels ≡ some i)
    × (ids_of h.channels ≡ ids)

set_active_channel-Lands :
    (i : ℕ) (ch : ChannelData) (h : Hook)
    → AreDistinct h.channels
    → get_elem? h.channels i ≡ some ch
    → Lands i (ids_of h.channels) (set_active_channel (some ch.id) h)
unfolding set_active_channel
set_active_channel-Lands i ch h apart at =
    if-either
      (λ (chs : List ChannelData).
        AreDistinct chs × (find_index (some ch.id) chs ≡ some i) × (ids_of chs ≡ ids_of h.channels))
      (str_eq ch.id "") (λ bare. (apart, find_index-get h.channels i ch apart at, refl))
      (λ full. (
        AreDistinct-read_if ch.id h.channels apart,
        find_index-read_if (some ch.id) ch.id h.channels ∙ find_index-get h.channels i ch apart at,
        ids_of-read_if ch.id h.channels,
      ))

get-within :
    (chs : List ChannelData) (i : ℕ)
    → i < length chs
    → (ch : ChannelData) × (get_elem? chs i ≡ some ch)
get-within [] i within = ground arith
get-within (ch ∷ chs) zero within = (ch, refl)
get-within (ch ∷ chs) (suc i) within = get-within chs i (omega (arith, within))

get-bound :
    (chs : List ChannelData) (i : ℕ) (ch : ChannelData) → get_elem? chs i ≡ some ch → i < length chs
get-bound [] i ch at = ground arith
get-bound (c ∷ chs) zero ch at = omega arith
get-bound (c ∷ chs) (suc i) ch at = omega (arith, get-bound chs i ch at)

pub next-within :
    (i : ℕ) (chs : List ChannelData) → i < length chs → next_index (some i) chs < length chs
unfolding next_index
next-within i chs within = ground arith

pub previous-within :
    (i : ℕ) (chs : List ChannelData) → i < length chs → previous_index (some i) chs < length chs
unfolding previous_index
previous-within zero chs within = omega arith
previous-within (suc i) chs within = omega arith

select-Lands :
    (i : ℕ) (ch : ChannelData) (a : App)
    → AreDistinct a.hook.channels
    → get_elem? a.hook.channels i ≡ some ch
    → Lands i (ids_of a.hook.channels) (select ch.id a).hook
unfolding select
select-Lands i ch a apart at =
    if-either (λ (b : App). Lands i (ids_of a.hook.channels) b.hook)
      (is_chosen a.hook.active_channel ch.id)
      (λ same. (
        apart,
        ap (λ o. find_index o a.hook.channels) (chosen-Id a.hook.active_channel ch.id same)
            ∙ find_index-get a.hook.channels i ch apart at,
        refl,
      ))
      (λ other.
        subst (Lands i (ids_of a.hook.channels)) (sym (hook-switch_to ch.id a))
          (set_active_channel-Lands i ch a.hook apart at))

pub select_at-Lands :
    (i : ℕ) (a : App)
    → AreDistinct a.hook.channels
    → i < length a.hook.channels
    → Lands i (ids_of a.hook.channels) (select_at i a.hook.channels a).hook
select_at-Lands i a apart within =
    let (ch, at) = get-within a.hook.channels i within in
    subst (λ (o : Option ChannelData). Lands i (ids_of a.hook.channels) (select_some o a).hook)
      (sym at) (select-Lands i ch a apart at)

pub index-within :
    (active : Option String) (chs : List ChannelData) (i : ℕ)
    → find_index active chs ≡ some i
    → i < length chs
index-within active chs i found =
    let (ch, at, here) = get-find_index active chs i found in get-bound chs i ch at

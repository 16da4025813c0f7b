-- ===== src/Desktop/Accessibility.antt =====
-- apps/desktop/src/utils/accessibility.ts: the queue of the screen reader's announcements, the
-- debounced ones, the tab stops of a list, the focus trap of a dialog, and colours in hexadecimal.
-- `document` says whether there is one. Setting attributes of the page, and the luminance and the
-- contrast of colours, which are floating-point numbers, are left out.
pub mod Announcing
pub mod TabStops
pub mod Colours
pub mod Debouncing
mod Tests
use Prim.Native.Char.{Char, code}
use Prim.Native.String.{[], ◌∷◌}
use Prim.Native.String
use agentunited.Prelude.{
  ℕ, ◌+◌, ◌-◌, ◌*◌, String, Bool, true, false, ◌&&◌, Option, none, some, List, [], ◌∷◌, ◌++◌, ltb,
  leb, ◌==◌, str_eq, if◌then◌else◌,
}
use agentunited.Prelude.Dict.{Dict, lookup, insert, delete}

pub data Priority : Type 0 where
  polite assertive : Priority

-- The element whose text a screen reader speaks.
pub record Region : Type 0 where
  pub aria_live : Priority
  pub text_content : String

-- ScreenReader; `timers` counts the timeouts that are pending.
pub record Reader : Type 0 where
  pub announce_queue : List String
  pub is_announcing : Bool
  pub live_region : Option Region
  pub timers : ℕ

abbrev pub silent : Reader
silent = record { announce_queue = []; is_announcing = false; live_region = none; timers = 0 }

-- A text that was put into the region, with the priority that the region had.
abbrev pub Spoken : Type 0
Spoken = String × Priority

abbrev pub fresh_region : Region
fresh_region = record { aria_live = polite; text_content = "" }

pub init : Bool → Reader → Reader
init document r = if document then record r { live_region = some fresh_region } else r

-- The branches of processQueue, by the queue and the region. A region that is set is never taken
-- away, so the timeout is always set.
unfoldable pub speak : List String → Option Region → Reader → Reader × List Spoken
speak [] region r = (record r { is_announcing = false }, [])
speak (m ∷ rest) none r = (record r { is_announcing = true; announce_queue = rest }, [])
speak (m ∷ rest) (some region) r = (
  record r {
    is_announcing = true;
    announce_queue = rest;
    live_region = some (record region { text_content = m });
    timers = r.timers + 1;
  },
  (m, region.aria_live) ∷ [],
)

unfoldable pub process_queue : Reader → Reader × List Spoken
unfolding speak
process_queue r = speak r.announce_queue r.live_region r

-- The region that announce finds or makes.
abbrev pub region_of : Bool → Option Region → Option Region
region_of document (some region) = some region
region_of document none = if document then some fresh_region else none

unfoldable pub announce_in : Option Region → String → Priority → Reader → Reader × List Spoken
unfolding process_queue
announce_in none message priority r = (r, [])
announce_in (some region) message priority r =
    let queued = record r {
      announce_queue = r.announce_queue ++ message ∷ [];
      live_region = some (record region { aria_live = priority });
    } in
    if r.is_announcing then (queued, []) else process_queue queued

unfoldable pub announce : Bool → String → Priority → Reader → Reader × List Spoken
unfolding announce_in
announce document message priority r =
    announce_in (region_of document r.live_region) message priority r

-- The callback of the timeout.
abbrev pub cleared : Option Region → Option Region
cleared none = none
cleared (some region) = some (record region { text_content = "" })

pub timer_fired : Reader → Reader × List Spoken
unfolding process_queue
timer_fired r =
    process_queue (record r { timers = r.timers - 1; live_region = cleared r.live_region })

pub announce_new_message : Bool → String → String → Bool → Reader → Reader × List Spoken
unfolding announce
announce_new_message document author channel is_private r =
    let location =
      if is_private
      then String.◌++◌ "direct message from " author
      else String.◌++◌ "message in " (String.◌++◌ channel (String.◌++◌ " from " author)) in
    announce document (String.◌++◌ "New " location) polite r

pub announce_navigation : Bool → String → Reader → Reader × List Spoken
unfolding announce
announce_navigation document to r = announce document (String.◌++◌ "Navigated to " to) polite r

pub announce_error : Bool → String → Reader → Reader × List Spoken
unfolding announce
announce_error document why r = announce document (String.◌++◌ "Error: " why) assertive r

-- AccessibilityPerformance.debounceAnnouncement: the message of each key's timer. Setting a key
-- again clears the timer that it had.
pub debounce_announcement : String → String → Dict String → Dict String
unfolding insert
debounce_announcement key message timers = insert key message timers

-- A key's timer fires: what is announced, and the timers left.
pub debounce_fired : String → Dict String → Option String × Dict String
unfolding lookup delete
debounce_fired key timers = (lookup key timers, delete key timers)

-- AriaUtils.generateId.
pub generate_id : (ℕ → String) → String → ℕ → String × ℕ
generate_id show prefix counter =
    (String.◌++◌ prefix (String.◌++◌ "-" (show (counter + 1))), counter + 1)

pub data Key : Type 0 where
  arrow_down arrow_up home_key end_key other_key : Key

-- setupRovingTabindex: the index that a key leads to from index i of n items.
unfoldable pub next_index : ℕ → Key → ℕ → Option ℕ
next_index n arrow_down i = some (if ltb i (n - 1) then i + 1 else 0)
next_index n arrow_up i = some (if ltb 0 i then i - 1 else n - 1)
next_index n home_key i = some 0
next_index n end_key i = some (n - 1)
next_index n other_key i = none

-- Which items have the tabindex 0, and which one has the focus.
pub record Roving : Type 0 where
  pub tab_stop : ℕ → Bool
  pub focused : ℕ

unfoldable pub setup_roving : ℕ → Roving
setup_roving focused = record { tab_stop = λ j. j == 0; focused = focused }

-- A key on item i.
pub roving_key : ℕ → Key → ℕ → Roving → Roving
roving_key n key i r = elim (next_index n key i) [
  | none ↦ r
  | some k ↦ record {
    tab_stop = λ j. if j == k then true else if j == i then false else r.tab_stop j;
    focused = k;
  }
]

abbrev first_of : List ℕ → Option ℕ
first_of [] = none
first_of (e ∷ es) = some e

abbrev pub last_of : List ℕ → Option ℕ
last_of [] = none
last_of (e ∷ []) = some e
last_of (e ∷ (f ∷ es)) = last_of (f ∷ es)

abbrev is_element : Option ℕ → ℕ → Bool
is_element none active = false
is_element (some e) active = e == active

-- trapFocus: where Tab moves the focus among the elements, `none` where the browser moves it.
pub trap_tab : List ℕ → Bool → ℕ → Option ℕ
trap_tab es shift active =
    if shift
    then (if is_element (first_of es) active then last_of es else none)
    else (if is_element (last_of es) active then first_of es else none)

-- [a-f\d], in both cases.
unfoldable pub hex_digit : ℕ → Option ℕ
hex_digit c =
    if leb b'0' c && leb c b'9'
    then some (c - b'0')
    else if leb b'a' c && leb c b'f'
    then some (c - b'a' + 10)
    else if leb b'A' c && leb c b'F'
    then some (c - b'A' + 10)
    else none

unfoldable pub hex_byte : ℕ → ℕ → Option ℕ
hex_byte c d = elim (hex_digit c) [
  | none ↦ none
  | some h ↦ elim (hex_digit d) [ none ↦ none | some l ↦ some (h * 16 + l) ]
]

abbrev pub Rgb : Type 0
Rgb = ℕ × ℕ × ℕ

abbrev rgb_of : Option ℕ → Option ℕ → Option ℕ → Option Rgb
rgb_of (some r) (some g) (some b) = some (r, g, b)
rgb_of _ _ _ = none

unfoldable pub six_digits : String → Option Rgb
six_digits (a ∷ (b ∷ (c ∷ (d ∷ (e ∷ (f ∷ [])))))) =
    rgb_of (hex_byte (code a) (code b)) (hex_byte (code c) (code d)) (hex_byte (code e) (code f))
six_digits _ = none

-- ColorContrast.hexToRgb.
pub hex_to_rgb : String → Option Rgb
hex_to_rgb [] = none
hex_to_rgb (c ∷ s) = if code c == b'#' then six_digits s else six_digits (c ∷ s)

-- ===== src/Web/Search.antt =====
-- apps/web/src/components/chat/SearchResultsPanel.tsx: a search goes through the channels of the render
-- in which the query was typed, 300 milliseconds behind it. `trim` is String.prototype.trim and `time_of`
-- the time of a timestamp; the sort is the stable one of Array.prototype.sort. The formats of times,
-- the marks in the text and the markup are left out.
pub mod Results
mod Tests
use agentunited.Prelude.{
  ℕ, String, Bool, true, false, Option, none, some, List, [], ◌∷◌, ◌++◌, map, find, length, ltb,
  leb, str_eq, is_some, if◌then◌else◌,
}
use agentunited.Prelude.Text.{strip_prefix}

pub record Channel : Type 0 where
  pub id : String
  pub name : String

pub record Message : Type 0 where
  pub id : String
  pub channel_id : String
  pub text : String
  pub timestamp : String

pub record SearchResult : Type 0 where
  pub message : Message
  pub channel_name : String
  pub is_dm : Bool

-- `timer` is the query of the timer that waits.
pub record Panel : Type 0 where
  pub results : List SearchResult
  pub is_loading : Bool
  pub error : Option String
  pub has_more : Bool
  pub timer : Option String

abbrev pub make : Panel
make = record { results = []; is_loading = false; error = none; has_more = false; timer = none }

-- The loop over the channels: `answers` has the messages of each, none where its search fails.
unfoldable pub all_results : List (Option (List Message)) → List Message
all_results [] = []
all_results (none ∷ rest) = all_results rest
all_results (some ms ∷ rest) = ms ++ all_results rest

-- channel?.name || result.channelId || 'Unknown Channel'
abbrev pub or_unknown : String → String
or_unknown id = if str_eq id "" then "Unknown Channel" else id

abbrev pub or_id : Option Channel → String → String
or_id none id = or_unknown id
or_id (some ch) id = if str_eq ch.name "" then or_unknown id else ch.name

unfoldable pub enhanced : List Channel → Message → SearchResult
unfolding strip_prefix
enhanced channels m = record {
  message = m;
  channel_name = or_id (find (λ (ch : Channel). str_eq ch.id m.channel_id) channels) m.channel_id;
  is_dm = is_some (strip_prefix "dm_" m.channel_id);
}

module _ (trim : String → String) (time_of : String → ℕ) where
  -- The later of two messages comes first.
  unfoldable pub insert_message : Message → List Message → List Message
  insert_message m [] = m ∷ []
  insert_message m (x ∷ xs) =
      let later = x ∷ insert_message m xs in
      if ltb (time_of x.timestamp) (time_of m.timestamp) then m ∷ x ∷ xs else later

  unfoldable pub insert_all : List Message → List Message → List Message
  unfolding insert_message
  insert_all done [] = done
  insert_all done (m ∷ ms) = insert_all (insert_message m done) ms

  -- The effect on the query: the timer of the last one is cleared.
  unfoldable pub query_changed : String → Panel → Panel
  query_changed query p =
      if str_eq (trim query) ""
      then record p { results = []; timer = none }
      else record p { timer = some query }

  -- The timer fires: the query that is searched for.
  unfoldable pub timer_fired : Panel → Panel × Option String
  timer_fired p = elim p.timer [
    | none ↦ (p, none)
    | some query ↦ (record p { timer = none; is_loading = true; error = none }, some (trim query))
  ]

  -- The end of a search, whatever the query is by then.
  unfoldable pub searched : List Channel → List (Option (List Message)) → Panel → Panel
  unfolding all_results insert_all enhanced
  searched channels answers p =
      let ms = insert_all [] (all_results answers) in
      record p {
        results = map (enhanced channels) ms;
        has_more = leb 50 (length ms);
        is_loading = false;
      }

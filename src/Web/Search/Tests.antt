-- ===== src/Web/Search/Tests.antt =====
-- Two channels are searched, one of which fails.
use agentunited.Prelude.{ℕ, String, Option, none, some, List, [], ◌∷◌, length, ◌≡◌, refl}
use agentunited.Web.Search.{
  Message, make, all_results, searched, query_changed, timer_fired, insert_all, insert_message,
}

abbrev trim : String → String
trim s = s

abbrev time_of : String → ℕ
time_of s = 5

abbrev message : String → Message
message id = record { id = id; channel_id = "dm_1"; text = "hi"; timestamp = "t" }

abbrev answers : List (Option (List Message))
answers = some (message "a" ∷ []) ∷ none ∷ some (message "b" ∷ []) ∷ []

-- A query that is emptied while its search is under way: the results come all the same.
late :
    length
      (searched trim time_of [] answers (
        query_changed trim time_of ""
          (timer_fired trim time_of (query_changed trim time_of "hi" make)).0)).results
    ≡ 2
unfolding searched query_changed timer_fired all_results insert_all insert_message
late = refl

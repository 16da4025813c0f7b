-- ===== src/Web/NewDm/Others.antt =====
-- With whom a conversation is started.
use agentunited.Prelude.{
  String, Bool, true, false, Option, none, some, List, [], ◌∷◌, ◌++◌, map, keep, All, All-append,
  str_eq, if-either, ◌≡◌, refl,
}
use agentunited.Web.Forms.{Result, failed, answered}
use agentunited.Web.NewDm.{
  Modal, User, ApiUser, user_of, is_other, has_query, filter_changed, opened, users_loaded,
  set_search_query, start_create, only, handle_search_key_down, end_create,
}

pub data Event : Type 0 where
  opens : Event
  loads : Result (List ApiUser) → Event
  types presses : String → Event
  ends : Result String → Event

module _ (lower trim short : String → String) (by_name : List User → List User)
    (me : Option String) where
  abbrev other : User → Bool
  other u = is_other lower trim short by_name me u

  -- A list of other users.
  abbrev pub AreOthers : List User → Type 0
  AreOthers = All (λ u. is_other lower trim short by_name me u ≡ true)

  -- A user that is not the one who is logged in.
  abbrev pub IsOther : String → Type 0
  IsOther id = (u : User) × (u.id ≡ id) × (is_other lower trim short by_name me u ≡ true)

  -- The form, and the users with whom Enter started a conversation.
  abbrev listed : Option String → List String
  listed none = []
  listed (some id) = id ∷ []

  unfoldable pub step : Event → Modal → Modal × List String
  unfolding opened users_loaded set_search_query handle_search_key_down end_create
  step opens m = (opened lower trim short by_name m, [])
  step (loads r) m = (users_loaded lower trim short by_name me r m, [])
  step (types query) m = (set_search_query lower trim short by_name query m, [])
  step (presses key) m =
      let result = handle_search_key_down lower trim short by_name key m in
      (result.0, listed result.1)
  step (ends r) m = ((end_create lower trim short by_name r m).0, [])

  unfoldable pub run : List Event → Modal → Modal × List String
  unfolding step
  run [] m = (m, [])
  run (e ∷ es) m = let next = step e m in let rest = run es next.0 in (rest.0, next.1 ++ rest.1)

  abbrev pub IsForOthers : Modal → Type 0
  IsForOthers m = AreOthers m.users × AreOthers m.filtered_users

  keep-AreOthers : (p : User → Bool) (us : List User) → AreOthers us → AreOthers (keep p us)
  keep-AreOthers p [] fits = tt
  keep-AreOthers p (u ∷ us) fits =
      if-either AreOthers (p u) (λ stays. (fits.0, keep-AreOthers p us fits.1))
        (λ goes. keep-AreOthers p us fits.1)

  kept-AreOthers : (us : List User) → AreOthers (keep other us)
  kept-AreOthers [] = tt
  kept-AreOthers (u ∷ us) =
      if-either AreOthers (other u) (λ fits. (fits, kept-AreOthers us)) (λ goes. kept-AreOthers us)

  module _ (sorts : (us : List User) → AreOthers us → AreOthers (by_name us)) where
    filter-IsForOthers :
        (m : Modal) → AreOthers m.users → IsForOthers (filter_changed lower trim short by_name m)
    unfolding filter_changed
    filter-IsForOthers m fits = (
      fits,
      if-either AreOthers (str_eq (trim m.search_query) "") (λ bare. sorts m.users fits)
          (λ full. keep-AreOthers (has_query lower trim short by_name m.search_query) m.users fits),
    )

    loaded-IsForOthers :
        (r : Result (List ApiUser)) (m : Modal)
        → IsForOthers m
        → IsForOthers (users_loaded lower trim short by_name me r m)
    unfolding users_loaded
    loaded-IsForOthers (failed message) m fits = fits
    loaded-IsForOthers (answered us) m fits =
        filter-IsForOthers
          (record m {
            users = keep other (map (user_of lower trim short by_name) us);
            is_loading = false;
          })
          (kept-AreOthers (map (user_of lower trim short by_name) us))

    -- A result that keeps to other users.
    abbrev Sound : Modal × List String → Type 0
    Sound r = IsForOthers r.0 × All IsOther r.1

    only-Sound :
        (us : List User) (m : Modal)
        → AreOthers us
        → IsForOthers m
        → let result = only lower trim short by_name us m in
          IsForOthers result.0 × All IsOther (listed result.1)
    unfolding only start_create
    only-Sound [] m shown fits = (fits, tt)
    only-Sound (u ∷ []) m shown fits = (fits, ((u, refl, shown.0), tt))
    only-Sound (u ∷ v ∷ us) m shown fits = (fits, tt)

    press-Sound : (key : String) (m : Modal) → IsForOthers m → Sound (step (presses key) m)
    unfolding step handle_search_key_down
    press-Sound key m fits =
        if-either (λ (r : Modal × Option String). IsForOthers r.0 × All IsOther (listed r.1))
          (str_eq key "Enter") (λ enters. only-Sound m.filtered_users m fits.1 fits)
          (λ other_key. (fits, tt))

    ended-Sound : (r : Result String) (m : Modal) → IsForOthers m → Sound (step (ends r) m)
    unfolding step end_create
    ended-Sound (failed message) m fits = (fits, tt)
    ended-Sound (answered dm) m fits = (fits, tt)

    step-Sound : (e : Event) (m : Modal) → IsForOthers m → Sound (step e m)
    unfolding step opened set_search_query
    step-Sound opens m fits = (fits, tt)
    step-Sound (loads r) m fits = (loaded-IsForOthers r m fits, tt)
    step-Sound (types query) m fits =
        (filter-IsForOthers (record m { search_query = query }) fits.0, tt)
    step-Sound (presses key) m fits = press-Sound key m fits
    step-Sound (ends r) m fits = ended-Sound r m fits

    -- Where sorting by name adds nobody, over any events from a form that shows none but others: Enter
    -- starts conversations with other users only, and the form never shows the user who is logged
    -- in.
    pub run-IsForOthers :
        (es : List Event) (m : Modal)
        → IsForOthers m
        → IsForOthers (run es m).0 × All IsOther (run es m).1
    unfolding run
    run-IsForOthers [] m fits = (fits, tt)
    run-IsForOthers (e ∷ es) m fits =
        let (now, sent) = step-Sound e m fits in
        let (later, rest) = run-IsForOthers es (step e m).0 now in
        (later, All-append IsOther (step e m).1 (run es (step e m).0).1 sent rest)

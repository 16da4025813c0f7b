-- ===== src/Web/NewDm/Tests.antt =====
-- Enter in a list of one.
use agentunited.Prelude.{String, some, List, [], ◌∷◌, All, ◌≡◌, refl}
use agentunited.Web.Forms.{answered}
use agentunited.Web.NewDm.{
  User, ApiUser, make, users_loaded, user_of, filter_changed, handle_search_key_down, only,
  start_create,
}
use agentunited.Web.NewDm.Others.{
  Event, loads, presses, run, step, IsForOthers, IsOther, run-IsForOthers,
}

abbrev same : String → String
same s = s

abbrev by_name : List User → List User
by_name us = us

abbrev api : String → ApiUser
api id = record { id = id; email = ""; display_name = id; kind = "agent" }

abbrev events : List Event
events = loads (answered (api "u1" ∷ api "me" ∷ [])) ∷ presses "Enter" ∷ []

run-IsForOthers_example :
    IsForOthers same same same by_name
      (some "me")
      (run same same same by_name (some "me") events make).0
    × All
        (IsOther same same same by_name (some "me"))
        (run same same same by_name (some "me") events make).1
run-IsForOthers_example =
    run-IsForOthers same same same by_name (some "me") (λ us h. h) events make (tt, tt)

started : (run same same same by_name (some "me") events make).1 ≡ "u1" ∷ []
unfolding run step users_loaded user_of filter_changed handle_search_key_down only start_create
started = refl

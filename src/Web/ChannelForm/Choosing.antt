-- ===== src/Web/ChannelForm/Choosing.antt =====
-- With what a channel is created.
use Prim.Native.String.{count}
use agentunited.Prelude.{
  ◌≤◌, String, Bool, true, false, not, ◌||◌, Option, none, some, List, [], ◌∷◌, ◌++◌, map, any,
  keep, All, All-append, str_eq, ltb, if-either, ◌≡◌, arith, eq_iff,
}
use agentunited.Web.Forms.{Result, failed, answered}
use agentunited.Web.ChannelForm.{
  ChannelForm, AgentOption, opened, agents_loaded, is_selected, toggle_agent, start_submit,
  end_submit,
}
use agentunited.Web.ChannelForm.Slug.{slugify, starts_hyphen}
use agentunited.Web.ChannelForm.Slugs.{all_slug, is_spaced, ends_hyphen, slugify_lem}

pub data Event : Type 0 where
  opens submits : Event
  loads : Result (List AgentOption) → Event
  toggles : AgentOption → Event
  names describes searches : String → Event
  ends : Result (Unit {0}) → Event

-- No id stands twice.
abbrev pub AreApart : List String → Type 0
AreApart [] = Unit
AreApart (id ∷ ids) = All (λ other. str_eq other id ≡ false) ids × AreApart ids

abbrev pub ids_of : List AgentOption → List String
ids_of = map (λ (a : AgentOption). a.id)

-- A name of 2 to 80 characters in the shape of a slug, and agents that are all different.
abbrev pub IsSubmission : String × String × List String → Type 0
IsSubmission (slug, description, ids) =
    (2 ≤ count slug)
    × (count slug ≤ 80)
    × (all_slug slug ≡ true)
    × (is_spaced slug ≡ true)
    × (starts_hyphen slug ≡ false)
    × (ends_hyphen slug ≡ false)
    × AreApart ids

kept-All :
    (p : AgentOption → Bool) (id : String) (agents : List AgentOption)
    → All (λ other. str_eq other id ≡ false) (ids_of agents)
    → All (λ other. str_eq other id ≡ false) (ids_of (keep p agents))
kept-All p id [] apart = tt
kept-All p id (a ∷ agents) apart =
    if-either (λ left. All (λ other. str_eq other id ≡ false) (ids_of left)) (p a)
      (λ stays. (apart.0, kept-All p id agents apart.1)) (λ goes. kept-All p id agents apart.1)

keep-AreApart :
    (p : AgentOption → Bool) (agents : List AgentOption)
    → AreApart (ids_of agents)
    → AreApart (ids_of (keep p agents))
keep-AreApart p [] apart = tt
keep-AreApart p (a ∷ agents) apart =
    if-either (λ left. AreApart (ids_of left)) (p a)
      (λ stays. (kept-All p a.id agents apart.0, keep-AreApart p agents apart.1))
      (λ goes. keep-AreApart p agents apart.1)

flipped : (a b : String) → str_eq a b ≡ false → str_eq b a ≡ false
flipped a b h = ground (arith, h, eq_iff a b, eq_iff b a)

added-All :
    (id : String) (new : AgentOption) (agents : List AgentOption)
    → All (λ other. str_eq other id ≡ false) (ids_of agents)
    → str_eq new.id id ≡ false
    → All (λ other. str_eq other id ≡ false) (ids_of (agents ++ new ∷ []))
added-All id new [] apart fresh = (fresh, tt)
added-All id new (a ∷ agents) apart fresh = (apart.0, added-All id new agents apart.1 fresh)

neither : (a b : Bool) → a || b ≡ false → (a ≡ false) × (b ≡ false)
neither a b h = ground (arith, h)

add-AreApart :
    (new : AgentOption) (agents : List AgentOption)
    → AreApart (ids_of agents)
    → any (λ (a : AgentOption). str_eq a.id new.id) agents ≡ false
    → AreApart (ids_of (agents ++ new ∷ []))
add-AreApart new [] apart fresh = (tt, tt)
add-AreApart new (a ∷ agents) apart fresh =
    let (here, later) =
      neither (str_eq a.id new.id) (any (λ (b : AgentOption). str_eq b.id new.id) agents) fresh in
    (
      added-All a.id new agents apart.0 (flipped a.id new.id here),
      add-AreApart new agents apart.1 later,
    )

abbrev pub Chosen : ChannelForm → Type 0
Chosen f = AreApart (ids_of f.selected_agents)

toggle-Chosen : (agent : AgentOption) (f : ChannelForm) → Chosen f → Chosen (toggle_agent agent f)
unfolding toggle_agent is_selected
toggle-Chosen agent f apart =
    if-either (λ left. AreApart (ids_of left)) (is_selected agent.id f)
      (λ there.
        keep-AreApart (λ (a : AgentOption). not (str_eq a.id agent.id)) f.selected_agents apart)
      (λ missing. add-AreApart agent f.selected_agents apart missing)

abbrev listed : Option (String × String × List String) → List (String × String × List String)
listed none = []
listed (some sent) = sent ∷ []

sizes : (a b c : Bool) → a || b || c ≡ false → (a ≡ false) × (b ≡ false) × (c ≡ false)
sizes a b c h = ground (arith, h)

module _ (lower trim : String → String) where
  -- The form, and what was submitted.
  unfoldable pub step : Event → ChannelForm → ChannelForm × List (String × String × List String)
  unfolding opened agents_loaded toggle_agent start_submit end_submit
  step opens f = (opened f, [])
  step submits f = let result = start_submit lower trim f in (result.0, listed result.1)
  step (loads r) f = (agents_loaded r f, [])
  step (toggles agent) f = (toggle_agent agent f, [])
  step (names value) f = (record f { name = value }, [])
  step (describes value) f = (record f { description = value }, [])
  step (searches value) f = (record f { search = value }, [])
  step (ends r) f = ((end_submit r f).0, [])

  unfoldable pub run : List Event → ChannelForm → ChannelForm × List (String × String × List String)
  unfolding step
  run [] f = (f, [])
  run (e ∷ es) f = let next = step e f in let rest = run es next.0 in (rest.0, next.1 ++ rest.1)

  -- A result that keeps the choice and submits what may be submitted.
  abbrev Sound : ChannelForm × List (String × String × List String) → Type 0
  Sound r = Chosen r.0 × All IsSubmission r.1

  submit-Sound : (f : ChannelForm) → Chosen f → Sound (step submits f)
  unfolding step start_submit
  submit-Sound f apart =
      let slug = slugify lower f.name in
      if-either
        (λ (r : ChannelForm × Option (String × String × List String)).
          Chosen r.0 × All IsSubmission (listed r.1))
        (str_eq slug "" || ltb (count slug) 2 || ltb 80 (count slug)) (λ bad. (apart, tt))
        (λ good.
          let (full, short, long) =
            sizes (str_eq slug "") (ltb (count slug) 2) (ltb 80 (count slug)) good in
          let (plain, spaced, first, last) = slugify_lem lower f.name in
          (
            apart,
            ((ground (arith, short), ground (arith, long), plain, spaced, first, last, apart), tt),
          ))

  loaded-Sound :
      (r : Result (List AgentOption)) (f : ChannelForm) → Chosen f → Sound (step (loads r) f)
  unfolding step agents_loaded
  loaded-Sound (failed message) f apart = (apart, tt)
  loaded-Sound (answered agents) f apart = (apart, tt)

  ended-Sound : (r : Result (Unit {0})) (f : ChannelForm) → Chosen f → Sound (step (ends r) f)
  unfolding step end_submit
  ended-Sound (failed message) f apart = (apart, tt)
  ended-Sound (answered done) f apart = (apart, tt)

  step-Sound : (e : Event) (f : ChannelForm) → Chosen f → Sound (step e f)
  unfolding step opened
  step-Sound opens f apart = (tt, tt)
  step-Sound submits f apart = submit-Sound f apart
  step-Sound (loads r) f apart = loaded-Sound r f apart
  step-Sound (toggles agent) f apart = (toggle-Chosen agent f apart, tt)
  step-Sound (names value) f apart = (apart, tt)
  step-Sound (describes value) f apart = (apart, tt)
  step-Sound (searches value) f apart = (apart, tt)
  step-Sound (ends r) f apart = ended-Sound r f apart

  -- From a form whose chosen agents are all different, over any events, whatever toLowerCase and trim
  -- do: every channel that is submitted has a name of 2 to 80 small letters, digits and hyphens, with
  -- no two hyphens side by side and none at an end, and agents that are all different.
  pub run-AreSubmissions :
      (es : List Event) (f : ChannelForm) → Chosen f → All IsSubmission (run es f).1
  unfolding run
  run-AreSubmissions [] f apart = tt
  run-AreSubmissions (e ∷ es) f apart =
      let next = step-Sound e f apart in
      All-append IsSubmission (step e f).1 (run es (step e f).0).1 next.1
        (run-AreSubmissions es (step e f).0 next.0)

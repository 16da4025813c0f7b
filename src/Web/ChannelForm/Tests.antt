-- ===== src/Web/ChannelForm/Tests.antt =====
-- A name is typed and a channel made of it.
use agentunited.Prelude.{String, List, [], ◌∷◌, All, ◌≡◌, refl}
use agentunited.Web.ChannelForm.{AgentOption, make}
use agentunited.Web.ChannelForm.Slug.{slugify, replaced, collapsed, without_first, without_last}
use agentunited.Web.ChannelForm.Choosing.{
  Event, opens, toggles, names, submits, run, IsSubmission, run-AreSubmissions,
}

abbrev lower : String → String
lower s = s

made : slugify lower "-my  new_channel!" ≡ "my-new-channel"
unfolding slugify replaced collapsed without_first without_last
made = refl

abbrev bot : AgentOption
bot = record { id = "a1"; name = "bot"; display_name = "Bot"; email = "" }

abbrev events : List Event
events = opens ∷ names "ops" ∷ toggles bot ∷ submits ∷ toggles bot ∷ submits ∷ []

run-AreSubmissions_example : All IsSubmission (run lower lower events make).1
run-AreSubmissions_example = run-AreSubmissions lower lower events make tt

-- ===== src/Web/Config/Tests.antt =====
-- Instances and query parameters.
use agentunited.Prelude.{◌≡◌, refl, String, Option, some, []}
use agentunited.Web.Config.{ApiConfig, strip_slash}

abbrev protocol_of : String → Option String
protocol_of url = some "https:"

abbrev fresh : ApiConfig
fresh = record { instance_url = ""; storage = some [] }

one_slash_only : strip_slash "https://h//" ≡ "https://h/"
unfolding strip_slash
one_slash_only = refl

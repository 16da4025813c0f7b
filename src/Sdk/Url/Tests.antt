-- ===== src/Sdk/Url/Tests.antt =====
-- Addresses that the SDK is given.
use agentunited.Prelude.{◌≡◌, refl, String, none, []}
use agentunited.Sdk.Url.{Url, normalize_url, normalize_base_url, strip_trailing, strip_leading}

abbrev site : String → Url
site path = record {
  protocol = "https:";
  host = "example.org";
  pathname = path;
  search_params = [];
}

default_path : (normalize_url none (site "///")).pathname ≡ "/ws"
unfolding normalize_url strip_trailing
default_path = refl

secure : (normalize_url none (site "/live")).protocol ≡ "wss:"
unfolding normalize_url strip_trailing
secure = refl

kept_path : (normalize_base_url (site "/v1//")).pathname ≡ "/v1/"
unfolding normalize_base_url strip_trailing
kept_path = refl

relative : strip_leading "//channels" ≡ "channels"
unfolding strip_leading
relative = refl

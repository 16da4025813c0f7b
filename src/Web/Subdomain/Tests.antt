-- ===== src/Web/Subdomain/Tests.antt =====
-- Checking "abc" and then "abd".
use agentunited.Prelude.{String, some, ◌≡◌, refl}
use agentunited.Prelude.Text.{includes, strip_prefix}
use agentunited.Web.Subdomain.{
  Claim, make, validate_subdomain, is_name, ends_well, reserved_name, malformed, end_claim,
}

abbrev same : String → String
same text = text

abbrev checking_abc : Claim
checking_abc = record make { input = "abc"; request_id = 1 }

reserved_api : validate_subdomain same "api" ≡ some reserved_name
unfolding validate_subdomain is_name ends_well
reserved_api = refl

hyphen_last : validate_subdomain same "ab-" ≡ some malformed
unfolding validate_subdomain is_name ends_well
hyphen_last = refl

claimed :
    (end_claim (some "409 conflict") checking_abc).claim_error
    ≡ some "That subdomain is already taken."
unfolding end_claim includes strip_prefix
claimed = refl

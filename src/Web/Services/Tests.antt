-- ===== src/Web/Services/Tests.antt =====
-- Requests of the services, and answers to them.
use agentunited.Prelude.{ℕ, String, true, false, none, some, [], ◌∷◌, ◌≡◌, refl}
use agentunited.Prelude.Js.{Value, obj, str, num, null, no_fields, field}
use agentunited.Web.Chat.{
  HttpResponse, json, empty, request_of, get_method, put_method, post_method, delete_method,
}
use agentunited.Web.Services.{
  returns, fails, get_me, update_me_request, remove_integration_request, create_checkout_session,
  create_portal_session, rotate_api_key_request, create_webhook_request, get_deliveries_request,
  replay_dlq_request,
}
use agentunited.Web.Services.Invites.{
  accept_invite, get_invite_info, refused, expired_token, weak_password, get_invite_request,
}

abbrev show : ℕ → String
show n = "400"

abbrev encode : String → String
encode text = text

abbrev gone : HttpResponse Value
gone = record { status = 410; ok = false; body = empty; error_body = none }

abbrev weak : HttpResponse Value
weak = record {
  status = 400;
  ok = false;
  body = empty;
  error_body = some (record { message = some "bad password"; error = none });
}

weak_is_refused : accept_invite (some weak) ≡ refused weak_password
unfolding accept_invite
weak_is_refused = refl

gone_is_expired : get_invite_info (some gone) ≡ refused expired_token
unfolding get_invite_info
gone_is_expired = refl

invite_address : get_invite_request encode "t" ≡ request_of get_method "/api/v1/invite?token=t" none
unfolding get_invite_request
invite_address = refl

profile : get_me show (some (record weak { ok = true; body = json null })) ≡ returns (obj no_fields)
unfolding get_me
profile = refl

checkout :
    create_checkout_session show (
      some (record {
        status = 200;
        ok = true;
        body = json (record { checkout_url = some "a"; session_url = none });
        error_body = none;
      }))
    ≡ returns "a"
unfolding create_checkout_session
checkout = refl

portal : create_portal_session show none none ≡ (
  fails,
  request_of get_method "/api/v1/billing/portal" none
      ∷ request_of post_method "/api/v1/billing/portal" (some (obj no_fields))
      ∷ [],
)
unfolding create_portal_session
portal = refl

rotated :
    rotate_api_key_request "a" "k" 3600
    ≡ request_of post_method "/v1/agents/a/api-keys/k/rotate"
        (some (obj (field "overlap_seconds" (num 3600) no_fields)))
unfolding rotate_api_key_request
rotated = refl

delivered :
    get_deliveries_request (λ n. "20") "a" "h" none
    ≡ request_of get_method "/v1/agents/a/webhooks/h/deliveries?limit=20" none
unfolding get_deliveries_request
delivered = refl

replayed :
    replay_dlq_request "a" "h" "e"
    ≡ request_of post_method "/v1/agents/a/webhooks/h/deliveries/e/replay-dlq" none
unfolding replay_dlq_request
replayed = refl

hooked : (create_webhook_request "a" "u" ("e" ∷ []) 5 3 true).endpoint ≡ "/v1/agents/a/webhooks"
unfolding create_webhook_request
hooked = refl

removed : remove_integration_request "i" ≡ request_of delete_method "/api/v1/integrations/i" none
unfolding remove_integration_request
removed = refl

named :
    update_me_request (some "Ann") none
    ≡ request_of put_method "/api/v1/me" (some (obj (field "display_name" (str "Ann") no_fields)))
unfolding update_me_request
named = refl

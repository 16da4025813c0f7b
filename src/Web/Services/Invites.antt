-- ===== src/Web/Services/Invites.antt =====
-- apps/web/src/services/inviteApi.ts: looking an invite up and accepting it. Whatever goes wrong
-- becomes an InviteApiError, so that a result is a value or such an error.
use Prim.Native.String
use agentunited.Prelude.{
  String, Bool, false, not, ◌&&◌, Option, none, some, ◌==◌, if◌then◌else◌, ◌≡◌, ◌≢◌, arith, ◌↔◌,
}
use agentunited.Prelude.Text.{includes}
use agentunited.Prelude.Js.{Fields, obj}
use agentunited.Web.Chat.{
  post_method, Request, get_method, request_of, HttpResponse, Body, empty, unreadable, json,
  ErrorBody,
}
use agentunited.Web.Services.Requests.{message_of}

pub data InviteError : Type 0 where
  invalid_token expired_token already_used weak_password network_error : InviteError

pub data Answer {ℓ} (A : Type ℓ) : Type ℓ where
  accepted : A → Answer A
  refused : InviteError → Answer A

abbrev pub error_text : InviteError → String
error_text invalid_token = "Invalid invite link. Check the URL."
error_text expired_token = "This invite has expired. Contact the agent for a new invite."
error_text already_used = "This invite was already used. Log in instead."
error_text weak_password = "Password must be at least 12 characters"
error_text network_error = "Could not connect. Check your connection and try again."

abbrev pub read_answer {ℓ} : {A : Type ℓ} → Body A → Answer A
read_answer (json a) = accepted a
read_answer empty = refused network_error
read_answer unreadable = refused network_error

unfoldable pub get_invite_request : (String → String) → String → Request
unfolding request_of
get_invite_request encode token =
    request_of get_method (String.◌++◌ "/api/v1/invite?token=" (encode token)) none

unfoldable pub get_invite_info {ℓ} : {A : Type ℓ} → Option (HttpResponse A) → Answer A
get_invite_info none = refused network_error
get_invite_info (some r) =
    if r.status == 404
    then refused invalid_token
    else if r.status == 410
    then refused expired_token
    else if not r.ok
    then refused network_error
    else read_answer r.body

-- The body is an object of the caller's.
pub accept_invite_request : Fields → Request
unfolding request_of
accept_invite_request payload = request_of post_method "/api/v1/invite/accept" (some (obj payload))

-- Of an answer 400, whether the server complains of the password; where its body is no JSON, or has
-- no message, the answer is not of that kind.
abbrev pub complains_of_password : Option ErrorBody → Bool
complains_of_password e = elim (message_of e) [ none ↦ false | some m ↦ includes "password" m ]

unfoldable pub accept_invite {ℓ} : {A : Type ℓ} → Option (HttpResponse A) → Answer A
unfolding includes
accept_invite none = refused network_error
accept_invite (some r) =
    if r.status == 404
    then refused invalid_token
    else if r.status == 410
    then refused expired_token
    else if r.status == 409
    then refused already_used
    else if r.status == 400 && complains_of_password r.error_body
    then refused weak_password
    else if not r.ok
    then refused network_error
    else read_answer r.body

-- A body that was read is refused only for the network.
read_answer-why {ℓ} :
    {A : Type ℓ} (b : Body A)
    → (read_answer b ≢ refused invalid_token)
      × (read_answer b ≢ refused expired_token)
      × (read_answer b ≢ refused already_used)
read_answer-why (json a) = ground arith
read_answer-why empty = ground arith
read_answer-why unreadable = ground arith

-- Accepting an invite is refused as an invalid, an expired or a used one exactly for the answers
-- 404, 410 and 409, whatever else the answer says.
pub accept_invite_lem {ℓ} :
    {A : Type ℓ} (r : HttpResponse A)
    → ((accept_invite (some r) ≡ refused invalid_token) ↔ (r.status ≡ 404))
      × ((accept_invite (some r) ≡ refused expired_token) ↔ (r.status ≡ 410))
      × ((accept_invite (some r) ≡ refused already_used) ↔ (r.status ≡ 409))
unfolding accept_invite
accept_invite_lem r =
    let (not_invalid, not_expired, not_used) = read_answer-why r.body in
    (ground arith, ground arith, ground arith)

-- Looking an invite up and accepting it agree, but for the answers 409 and 400.
pub get_invite_info-accept_invite {ℓ} :
    {A : Type ℓ} (r : HttpResponse A)
    → r.status ≢ 409
    → r.status ≢ 400
    → get_invite_info (some r) ≡ accept_invite (some r)
unfolding get_invite_info accept_invite
get_invite_info-accept_invite r used bad = ground arith

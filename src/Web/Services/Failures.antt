-- ===== src/Web/Services/Failures.antt =====
-- How the services' requests end.
use agentunited.Prelude.{
  ℕ, String, Bool, true, false, some, str_eq, eq_iff, ◌≡◌, ◌≢◌, refl, arith, inl, inr, Bool-cases,
}
use agentunited.Prelude.Js.{field_of, Value, null, undefined, obj, str, num, bool, arr}
use agentunited.Web.Chat.{HttpResponse, ErrorBody}
use agentunited.Web.Services.{
  throws, request, user_client, integration_client, billing_client, agent_client, or_object,
  has_field, normalize_me_response,
}

-- An unsuccessful answer with a message makes the requests of all four clients throw an Error with
-- that message, whatever the status and the body are.
pub requests_throw {ℓ} :
    {A : Type ℓ} (show : ℕ → String) (r : HttpResponse A) (e : ErrorBody) (m : String)
    → r.ok ≡ false
    → r.error_body ≡ some e
    → e.message ≡ some m
    → m ≢ ""
    → (request (user_client show) (some r) ≡ throws m)
      × (request (integration_client show) (some r) ≡ throws m)
      × (request (billing_client show) (some r) ≡ throws m)
      × (request (agent_client show) (some r) ≡ throws m)
unfolding request user_client integration_client billing_client agent_client
requests_throw show r e m failed body message named =
    let told : str_eq m "" ≡ false = ground (arith, eq_iff m "") in
    rw (failed, body, message, told) (refl, refl, refl, refl)

-- getMe never answers with null or undefined.
abbrev pub is_nullish : Value → Bool
is_nullish null = true
is_nullish undefined = true
is_nullish _ = false

or_object_lem : (v : Value) → is_nullish (or_object v) ≡ false
or_object_lem null = refl
or_object_lem undefined = refl
or_object_lem (obj fs) = refl
or_object_lem (str t) = refl
or_object_lem (num n) = refl
or_object_lem (bool b) = refl
or_object_lem (arr vs) = refl

pub normalize_me_response_lem : (v : Value) → is_nullish (normalize_me_response v) ≡ false
unfolding normalize_me_response
normalize_me_response_lem (obj fs) = elim (Bool-cases (has_field "user" fs)) [
  | inl p ↦ rw p (or_object_lem (field_of "user" fs))
  | inr p ↦ rw p refl
]
normalize_me_response_lem null = refl
normalize_me_response_lem undefined = refl
normalize_me_response_lem (str t) = refl
normalize_me_response_lem (num n) = refl
normalize_me_response_lem (bool b) = refl
normalize_me_response_lem (arr vs) = refl

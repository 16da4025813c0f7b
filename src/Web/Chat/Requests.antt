-- ===== src/Web/Chat/Requests.antt =====
-- `getAuthHeaders` and `apiRequest` of apps/web/src/services/chatApi.ts.
use Prim.Native.String
use agentunited.Prelude.{ℕ, String, Bool, Option, none, some, [], ◌∷◌, ◌==◌, str_eq, if◌then◌else◌}
use agentunited.Prelude.Dict.{Dict}
use agentunited.Prelude.Js.{Value}

pub data Method : Type 0 where
  get_method put_method post_method patch_method delete_method : Method

pub record Request : Type 0 where
  pub method : Method
  pub endpoint : String
  pub body : Option Value

unfoldable pub request_of : Method → String → Option Value → Request
request_of method endpoint body = record { method = method; endpoint = endpoint; body = body }

-- Every call of `apiRequest` in the file sends exactly these headers.
unfoldable pub get_auth_headers : Option String → Dict String
get_auth_headers token = ("Content-Type", "application/json") ∷ elim token [
  | none ↦ []
  | some t ↦ if str_eq t "" then [] else ("Authorization", String.◌++◌ "Bearer " t) ∷ []
]

-- The text of a response: empty, no JSON, or JSON of the type that the caller expects.
pub data Body {ℓ} (A : Type ℓ) : Type ℓ where
  empty unreadable : Body A
  json : A → Body A

pub record ErrorBody : Type 0 where
  pub message : Option String
  pub error : Option String

-- `error_body` is what response.json() gives of an error, `none` where it throws.
pub record HttpResponse {ℓ} (A : Type ℓ) : Type ℓ where
  pub status : ℕ
  pub ok : Bool
  pub body : Body A
  pub error_body : Option ErrorBody

pub data Result {ℓ} (A : Type ℓ) : Type ℓ where
  ok : A → Result A
  chat_error : String → ℕ → Result A
  thrown : Result A

abbrev or_message : Option String → String → String
or_message none b = b
or_message (some a) b = if str_eq a "" then b else a

-- The message of the ChatApiError.
unfoldable pub error_message : (ℕ → String) → ℕ → Option ErrorBody → String
error_message show status body =
    let fallback = String.◌++◌ "Request failed (" (String.◌++◌ (show status) ")") in
    elim body [ none ↦ fallback | some e ↦ or_message e.message (or_message e.error fallback) ]

abbrev read_body {ℓ} : {A : Type ℓ} → Body A → Option A
read_body empty = none
read_body unreadable = none
read_body (json a) = some a

-- `none` is a fetch that throws; the result `none` is undefined.
unfoldable pub api_request {ℓ} :
    {A : Type ℓ} → (ℕ → String) → Option (HttpResponse A) → Result (Option A)
unfolding error_message
api_request show none = thrown
api_request show (some r) =
    if r.ok
    then (if r.status == 204 then ok none else ok (read_body r.body))
    else chat_error (error_message show r.status r.error_body) r.status

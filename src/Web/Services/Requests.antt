-- ===== src/Web/Services/Requests.antt =====
-- The function `request` (`apiRequest`) that each of the services in apps/web/src/services declares
-- for itself: they differ in the text of the error that an unsuccessful response becomes, and in
-- whether they know an answer without content. `show` is the decimal text of a number.
use Prim.Native.String
use agentunited.Prelude.{
  ℕ, String, Bool, true, false, ◌&&◌, Option, none, some, ◌==◌, str_eq, if◌then◌else◌,
}
use agentunited.Web.Chat.{HttpResponse, Body, empty, unreadable, json, ErrorBody}

-- `throws` is an Error with its message, `fails` any other exception: of fetch, or of response.json.
pub data Outcome {ℓ} (A : Type ℓ) : Type ℓ where
  returns : A → Outcome A
  throws : String → Outcome A
  fails : Outcome A

infixl 5 ◌>>=◌
abbrev pub ◌>>=◌ {ℓ κ} : {A : Type ℓ} {B : Type κ} → Outcome A → (A → Outcome B) → Outcome B
returns a >>= f = f a
throws why >>= f = throws why
fails >>= f = fails

pub record Client : Type 0 where
  pub error_text : ℕ → Option ErrorBody → String
  pub knows_no_content : Bool

abbrev pub read_json {ℓ} : {A : Type ℓ} → Body A → Outcome (Option A)
read_json empty = fails
read_json unreadable = fails
read_json (json a) = returns (some a)

-- The result `none` is undefined, for an answer without content.
unfoldable pub request {ℓ} : {A : Type ℓ} → Client → Option (HttpResponse A) → Outcome (Option A)
request c none = fails
request c (some r) =
    if r.ok
    then (if c.knows_no_content && r.status == 204 then returns none else read_json r.body)
    else throws (c.error_text r.status r.error_body)

-- a || b and a ?? b for a text that may be missing.
abbrev pub or_text : Option String → String → String
or_text none b = b
or_text (some a) b = if str_eq a "" then b else a

abbrev pub or_given : Option String → String → String
or_given none b = b
or_given (some a) b = a

abbrev pub failed_text : (ℕ → String) → ℕ → String
failed_text show status = String.◌++◌ "Request failed (" (String.◌++◌ (show status) ")")

abbrev pub message_of : Option ErrorBody → Option String
message_of none = none
message_of (some e) = e.message

abbrev pub error_of : Option ErrorBody → Option String
error_of none = none
error_of (some e) = e.error

module _ (show : ℕ → String) where
  unfoldable pub user_client : Client
  user_client = record {
    error_text =
        λ status e. or_text (message_of e) (or_text (error_of e) (failed_text show status));
    knows_no_content = false;
  }

  unfoldable pub integration_client : Client
  integration_client = record {
    error_text =
        λ status e. or_text (message_of e) (or_text (error_of e) (failed_text show status));
    knows_no_content = true;
  }

  unfoldable pub billing_client : Client
  billing_client = record {
    error_text = λ status e. or_text (message_of e) (failed_text show status);
    knows_no_content = false;
  }

  unfoldable pub agent_client : Client
  agent_client = record {
    error_text =
        λ status e. or_given (message_of e) (or_given (error_of e) (failed_text show status));
    knows_no_content = false;
  }

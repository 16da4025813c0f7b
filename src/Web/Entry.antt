-- ===== src/Web/Entry.antt =====
-- The pages through which a user gets in, with localStorage as a dictionary that takes every value:
-- apps/web/src/pages/LoginPage.tsx and ForgotPasswordPage.tsx here, InviteAcceptPage.tsx in Invite and
-- ResetPasswordPage.tsx in Reset. The schema of the login form is checked by a library (`valid`). The
-- eyes that show a password and the markup are left out.
pub mod Invite
pub mod Reset
pub mod Entering
pub mod Confirming
mod Tests
use agentunited.Prelude.{
  String, Bool, true, false, not, ◌&&◌, Option, none, some, str_eq, if◌then◌else◌,
}
use agentunited.Prelude.Dict.{Dict, insert}
use agentunited.Prelude.Js.{Value, get, truthy}
use agentunited.Web.Services.Requests.{Outcome, returns, throws, fails}
use agentunited.Web.Services.Accounts.{forgot_password}

abbrev pub Storage : Type 0
Storage = Dict String

-- What a page is shown next.
pub data Route : Type 0 where
  chat chat_first_login login_after_reset : Route
  chat_dm : String → Route

pub record Login : Type 0 where
  pub is_loading : Bool
  pub error : String

abbrev pub make_login : Login
make_login = record { is_loading = false; error = "" }

-- The fields are disabled and the button too while the page is loading.
unfoldable pub start_login : (String → String → Bool) → String → String → Login → Option Login
start_login valid email password l =
    if valid email password && not l.is_loading
    then some (record { is_loading = true; error = "" })
    else none

-- The answer of the server: none where fetch throws, the status is an error or the body is no JSON.
-- `text_of` is String().
unfoldable pub end_login :
    (Value → String) → String → Option Value → Storage → Login × Storage × Option Route
end_login text_of email none s =
    (record { is_loading = false; error = "Invalid email or password" }, s, none)
end_login text_of email (some result) s =
    let named = insert "user-email" email (insert "auth-token" (text_of (get "token" result)) s) in
    let id = get "user_id" result in
    (
      record { is_loading = false; error = "" },
      if truthy id then insert "user-id" (text_of id) named else named,
      some chat,
    )

pub data PageState : Type 0 where
  idle loading success : PageState
  error : String → PageState

pub record Forgot : Type 0 where
  pub email : String
  pub state : PageState

abbrev pub is_busy : PageState → Bool
is_busy loading = true
is_busy _ = false

-- handleSubmit of ForgotPasswordPage up to its await, with the button; `none` where nothing is sent.
unfoldable pub start_forgot : Forgot → Option Forgot
start_forgot f =
    if str_eq f.email ""
    then none
    else if is_busy f.state
    then none
    else some (record f { state = loading })

unfoldable pub end_forgot {ℓ} : {A : Type ℓ} → Outcome A → Forgot → Forgot
end_forgot (returns a) f = record f { state = success }
end_forgot _ f = record f { state = error "Something went wrong. Please try again." }

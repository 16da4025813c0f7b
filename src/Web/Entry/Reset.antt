-- ===== src/Web/Entry/Reset.antt =====
-- apps/web/src/pages/ResetPasswordPage.tsx.
use Prim.Native.String.{count}
use agentunited.Prelude.{
  String, Bool, not, ◌&&◌, Option, none, some, str_eq, ltb, leb, if◌then◌else◌,
}
use agentunited.Web.Services.Requests.{Outcome, returns, throws, fails}
use agentunited.Web.Entry.{
  PageState, idle, loading, success, error, is_busy, Route, login_after_reset,
}

pub record Reset : Type 0 where
  pub password : String
  pub confirm : String
  pub state : PageState

abbrev pub make : Reset
make = record { password = ""; confirm = ""; state = idle }

unfoldable pub validation_error : Reset → Option String
validation_error p =
    if ltb 0 (count p.password) && ltb (count p.password) 8
    then some "Password must be at least 8 characters"
    else if not (str_eq p.password p.confirm) && ltb 0 (count p.confirm)
    then some "Passwords do not match"
    else none

unfoldable pub can_submit : String → Reset → Bool
can_submit token p =
    not (str_eq token "")
    && leb 8 (count p.password)
    && str_eq p.password p.confirm
    && not (is_busy p.state)

-- handleSubmit up to its await: the page, and the token and the password that are sent.
unfoldable pub start_reset : String → Reset → Reset × Option (String × String)
unfolding can_submit
start_reset token p =
    if can_submit token p
    then (record p { state = loading }, some (token, p.password))
    else (p, none)

abbrev pub or_expired : String → String
or_expired message =
    if str_eq message ""
    then "This reset link has expired or is invalid. Please request a new one."
    else message

-- handleSubmit behind its await; the page behind success is left two seconds later.
unfoldable pub end_reset {ℓ} : {A : Type ℓ} → Outcome A → Reset → Reset × Option Route
end_reset (returns a) p = (record p { state = success }, some login_after_reset)
end_reset (throws message) p = (record p { state = error (or_expired message) }, none)
end_reset fails p = (record p { state = error (or_expired "") }, none)

-- The fields are disabled while the page is loading.
unfoldable pub set_password : String → Reset → Reset
set_password value p = if is_busy p.state then p else record p { password = value }

unfoldable pub set_confirm : String → Reset → Reset
set_confirm value p = if is_busy p.state then p else record p { confirm = value }

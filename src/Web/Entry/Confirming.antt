-- ===== src/Web/Entry/Confirming.antt =====
-- The message about the confirmation of a password.
use Prim.Native.String.{count}
use agentunited.Prelude.{
  String, Bool, true, false, not, ◌&&◌, none, some, str_eq, ltb, leb, eq_refl, if◌then◌else◌, ◌≡◌,
  ◌↔◌, ap, arith,
}
use agentunited.Web.Entry.Invite.{
  InvitePage, can_submit, is_valid_display_name, handle_password_change, handle_confirm_change,
}
use agentunited.Web.Entry.Reset.{Reset, validation_error, can_submit as can_reset}
use agentunited.Web.Entry.{is_busy}

all_true : (a b c d : Bool) → a ≡ true → b ≡ true → c ≡ true → d ≡ true → a && b && c && d ≡ true
all_true a b c d ha hb hc hd = ground (arith, ha, hb, hc, hd)

-- A confirmation is typed that differs from the password, and then the password is changed to it: the
-- page still says that the two do not match, while everything else valid can be submitted.
pub mismatch_stays :
    (trim : String → String) (password : String) (p : InvitePage)
    → str_eq password p.password ≡ false
    → leb 12 (count password) ≡ true
    → is_valid_display_name trim p ≡ true
    → p.submitting ≡ false
    → let q = handle_password_change password (handle_confirm_change password p) in
      (q.confirm_error ≡ some "Passwords do not match") × (can_submit trim q ≡ true)
unfolding handle_password_change handle_confirm_change can_submit is_valid_display_name
mismatch_stays trim password p apart long named free =
    let says : ltb 0 (count password) && not (str_eq password p.password) ≡ true =
      ground (arith, long, apart) in
    (
      ap (λ b. if b then some "Passwords do not match" else none) says,
      all_true (is_valid_display_name trim p) (leb 12 (count password)) (str_eq password password)
          (not p.submitting) named long (eq_refl password) (ap not free),
    )

-- The page that resets a password, with a token and both fields filled in and nothing under way, shows
-- no message exactly when the form can be submitted.
pub validation_error-can_submit :
    (token : String) (p : Reset)
    → str_eq token "" ≡ false
    → is_busy p.state ≡ false
    → ltb 0 (count p.password) ≡ true
    → ltb 0 (count p.confirm) ≡ true
    → (validation_error p ≡ none) ↔ (can_reset token p ≡ true)
unfolding validation_error can_reset
validation_error-can_submit token p full free typed confirmed =
    ground (arith, full, free, typed, confirmed)

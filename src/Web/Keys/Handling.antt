-- ===== src/Web/Keys/Handling.antt =====
-- apps/web/src/components/agentFoundation/ApiKeysTab.tsx: what the user does, and the end of a call.
use agentunited.Prelude.{
  ℕ, String, Bool, true, false, not, ◌&&◌, Option, none, some, [], ◌∷◌, ◌++◌, keep, str_eq,
  if◌then◌else◌,
}
use agentunited.Web.Forms.{call_at, without}
use agentunited.Web.Keys.{
  Tab, Call, Answer, Values, Creation, ApiKeyItem, nothing, create_api_key, rotate_api_key,
  revoke_api_key, load_keys, finish, default_values,
}

-- The first effect.
unfoldable pub mount : Tab → Tab
unfolding load_keys
mount t = load_keys nothing t

unfoldable pub open_create : Tab → Tab
open_create t = record t { is_create_open = true }

unfoldable pub cancel_create : Tab → Tab
cancel_create t = record t { is_create_open = false }

-- A box of the form.
unfoldable pub toggle_scope : Bool → String → Tab → Tab
toggle_scope checked scope t =
    let next =
      if checked
      then t.form.scopes ++ scope ∷ []
      else keep (λ s. not (str_eq s scope)) t.form.scopes in
    record t { form = record t.form { scopes = next } }

-- `iso` is the text of a date as an ISO string.
abbrev pub creation_of : (String → String) → Values → Creation
creation_of iso v = record {
  label = v.label;
  scopes = v.scopes;
  expires_at = if str_eq v.expires_at "" then none else some (iso v.expires_at);
}

abbrev pub begun : Call → Tab → Tab
begun c t = record t {
  is_submitting = true;
  error = none;
  success = none;
  calls = t.calls ++ c ∷ [];
}

-- The button Create, which is disabled while something is submitted, and onCreateKey.
unfoldable pub submit : (String → String) → (Values → Bool) → Tab → Tab
submit iso valid t =
    if t.is_create_open && not t.is_submitting && valid t.form
    then begun (create_api_key (creation_of iso t.form)) t
    else t

-- Only an active key has the buttons Rotate and Revoke.
unfoldable pub choose_rotate : ApiKeyItem → Tab → Tab
choose_rotate key t =
    if str_eq key.status "active" then record t { rotate_target = some key } else t

unfoldable pub choose_revoke : ApiKeyItem → Tab → Tab
choose_revoke key t =
    if str_eq key.status "active" then record t { revoke_target = some key } else t

unfoldable pub cancel_rotate : Tab → Tab
cancel_rotate t = record t { rotate_target = none }

unfoldable pub cancel_revoke : Tab → Tab
cancel_revoke t = record t { revoke_target = none }

-- `seconds` is Number(e.target.value || '0').
unfoldable pub set_overlap : ℕ → Tab → Tab
set_overlap seconds t = record t { overlap_seconds = seconds }

unfoldable pub type_confirm : String → Tab → Tab
type_confirm value t = record t { revoke_confirm_text = value }

abbrev pub rotate : Option ApiKeyItem → Tab → Tab
rotate none t = t
rotate (some target) t =
    if t.is_submitting then t else begun (rotate_api_key target t.overlap_seconds) t

-- The button Confirm Rotate, which is disabled while something is submitted, and onRotateKey.
unfoldable pub on_rotate_key : Tab → Tab
on_rotate_key t = rotate t.rotate_target t

-- The button Revoke is enabled by the label of the key.
abbrev pub is_confirmed : Tab → ApiKeyItem → Bool
is_confirmed t target = str_eq t.revoke_confirm_text target.label

abbrev pub revoke : Option ApiKeyItem → Tab → Tab
revoke none t = t
revoke (some target) t =
    if is_confirmed t target && not t.is_submitting then begun (revoke_api_key target) t else t

unfoldable pub on_revoke_key : Tab → Tab
on_revoke_key t = revoke t.revoke_target t

unfoldable pub close_secret_modal : Tab → Tab
close_secret_modal t = record t {
  created_key = none;
  form = default_values;
  success = some "Secret acknowledged and hidden.";
}

-- `copied` is whether the clipboard took the secret.
unfoldable pub copy_secret : Bool → Tab → Tab
copy_secret copied t = elim t.created_key [
  | none ↦ t
  | some key ↦
      if str_eq key.secret ""
      then t
      else if copied
      then record t { success = some "Secret copied to clipboard" }
      else record t { error = some "Failed to copy secret. Please copy manually." }
]

-- The call at an index ends: the answer is the service's.
unfoldable pub end_call : String → ((c : Call) → Answer c) → Option Call → Tab → Tab
unfolding finish
end_call now service none t = t
end_call now service (some c) t = finish now c (service c) t

unfoldable pub answer : String → ((c : Call) → Answer c) → ℕ → Tab → Tab
unfolding end_call
answer now service i t =
    end_call now service (call_at i t.calls) (record t { calls = without i t.calls })

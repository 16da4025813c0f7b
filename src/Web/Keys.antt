-- ===== src/Web/Keys.antt =====
-- apps/web/src/components/agentFoundation/ApiKeysTab.tsx: the keys of an agent, with the forms that
-- create, rotate and revoke one. `calls` are the calls of the service that have not ended, the oldest
-- first; each continues in `finish`, loadKeys with what its caller does behind it. `valid` is the
-- schema of the form, which is checked by a library; the time of `created_at` and the reading of dates
-- and numbers are arguments. Copying the secret is one step. The markup is left out.
pub mod Handling
pub mod Targets
mod Tests
use Prim.Native.String.{◌++◌ as join}
use agentunited.Prelude.{ℕ, String, Bool, true, false, Option, none, some, List, [], ◌∷◌, ◌++◌}
use agentunited.Web.Forms.{Result, failed, answered, message_of}

pub record ApiKeyItem : Type 0 where
  pub id : String
  pub label : String
  pub prefix : String
  pub scopes : List String
  pub status : String

pub record ApiKeyCreateResponse : Type 0 where
  pub id : String
  pub label : String
  pub prefix : String
  pub secret : String
  pub scopes : List String
  pub status : String
  pub created_at : String

-- The part new_key of the answer to a rotation.
pub record NewKey : Type 0 where
  pub id : String
  pub prefix : String
  pub secret : String
  pub status : String

pub record Values : Type 0 where
  pub label : String
  pub expires_at : String
  pub scopes : List String

abbrev pub default_values : Values
default_values = record { label = ""; expires_at = ""; scopes = "events:read" ∷ [] }

-- What createApiKey is called with.
pub record Creation : Type 0 where
  pub label : String
  pub scopes : List String
  pub expires_at : Option String

-- What follows loadKeys.
pub data After : Type 0 where
  nothing created rotated revoked : After

pub data Call : Type 0 where
  get_api_keys : After → Call
  create_api_key : Creation → Call
  rotate_api_key : ApiKeyItem → ℕ → Call
  revoke_api_key : ApiKeyItem → Call

abbrev pub Answer : Call → Type 0
Answer (get_api_keys after) = Result (List ApiKeyItem)
Answer (create_api_key creation) = Result ApiKeyCreateResponse
Answer (rotate_api_key key overlap) = Result NewKey
Answer (revoke_api_key key) = Result (Unit {0})

pub record Tab : Type 0 where
  pub keys : List ApiKeyItem
  pub is_loading : Bool
  pub error : Option String
  pub success : Option String
  pub is_create_open : Bool
  pub created_key : Option ApiKeyCreateResponse
  pub rotate_target : Option ApiKeyItem
  pub overlap_seconds : ℕ
  pub revoke_target : Option ApiKeyItem
  pub revoke_confirm_text : String
  pub is_submitting : Bool
  pub form : Values
  pub calls : List Call

abbrev pub make : Tab
make = record {
  keys = [];
  is_loading = true;
  error = none;
  success = none;
  is_create_open = false;
  created_key = none;
  rotate_target = none;
  overlap_seconds = 86400;
  revoke_target = none;
  revoke_confirm_text = "";
  is_submitting = false;
  form = default_values;
  calls = [];
}

-- loadKeys up to its await.
unfoldable pub load_keys : After → Tab → Tab
load_keys after t = record t {
  is_loading = true;
  error = none;
  calls = t.calls ++ get_api_keys after ∷ [];
}

-- loadKeys behind its await.
unfoldable pub keys_loaded : Result (List ApiKeyItem) → Tab → Tab
keys_loaded (failed message) t = record t {
  error = some (message_of "Failed to load API keys" message);
  is_loading = false;
}
keys_loaded (answered items) t = record t { keys = items; is_loading = false }

-- What the handlers do behind loadKeys, which never throws.
unfoldable pub continue : After → Tab → Tab
continue nothing t = t
continue created t = record t { is_submitting = false }
continue rotated t = record t {
  success = some "Key rotated. Old key is now sunsetting.";
  is_submitting = false;
}
continue revoked t = record t { success = some "Key revoked successfully."; is_submitting = false }

-- The catch and the finally of a handler.
abbrev pub refused : String → Option String → Tab → Tab
refused fallback message t = record t {
  error = some (message_of fallback message);
  is_submitting = false;
}

-- onCreateKey behind its first await.
unfoldable pub key_created : Result ApiKeyCreateResponse → Tab → Tab
unfolding load_keys
key_created (failed message) t = refused "Failed to create API key" message t
key_created (answered key) t =
    load_keys created (record t { created_key = some key; is_create_open = false })

-- The key that onRotateKey shows, of its target and the new key.
abbrev pub rotated_key : String → ApiKeyItem → NewKey → ApiKeyCreateResponse
rotated_key now target new = record {
  id = new.id;
  label = join target.label " (rotated)";
  prefix = new.prefix;
  secret = new.secret;
  scopes = target.scopes;
  status = new.status;
  created_at = now;
}

-- onRotateKey behind its first await.
unfoldable pub key_rotated : String → ApiKeyItem → Result NewKey → Tab → Tab
unfolding load_keys
key_rotated now target (failed message) t = refused "Failed to rotate key" message t
key_rotated now target (answered new) t =
    load_keys rotated
      (record t { created_key = some (rotated_key now target new); rotate_target = none })

-- onRevokeKey behind its first await.
unfoldable pub key_revoked : Result (Unit {0}) → Tab → Tab
unfolding load_keys
key_revoked (failed message) t = refused "Failed to revoke key" message t
key_revoked (answered done) t =
    load_keys revoked (record t { revoke_target = none; revoke_confirm_text = "" })

-- What a call's answer does; the call is no longer under way.
unfoldable pub finish : String → (c : Call) → Answer c → Tab → Tab
unfolding keys_loaded continue key_created key_rotated key_revoked
finish now (get_api_keys after) r t = continue after (keys_loaded r t)
finish now (create_api_key creation) r t = key_created r t
finish now (rotate_api_key target overlap) r t = key_rotated now target r t
finish now (revoke_api_key target) r t = key_revoked r t

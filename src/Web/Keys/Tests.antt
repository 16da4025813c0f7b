-- ===== src/Web/Keys/Tests.antt =====
-- A key is revoked, and one with the same label after a cancelled try.
use agentunited.Prelude.{true, none, List, [], ◌∷◌, ◌≡◌, refl}
use agentunited.Web.Forms.{failed, answered}
use agentunited.Web.Keys.{
  make, Call, Answer, ApiKeyItem, get_api_keys, create_api_key, rotate_api_key, revoke_api_key,
  finish, key_rotated, load_keys,
}
use agentunited.Web.Keys.Handling.{choose_rotate, on_rotate_key, answer, end_call}
use agentunited.Web.Keys.Targets.{
  Event, mounts, ends, chooses_revoke, types, revokes, chooses_rotate, rotates,
}

abbrev key : ApiKeyItem
key = record { id = "k1"; label = "bot"; prefix = "au_"; scopes = "full" ∷ []; status = "active" }

abbrev service : (c : Call) → Answer c
service (get_api_keys after) = answered (key ∷ [])
service (create_api_key creation) = failed none
service (rotate_api_key k overlap) =
    answered (record { id = "k2"; prefix = "au_"; secret = "s"; status = "active" })
service (revoke_api_key k) = answered tt

abbrev events : List Event
events =
    mounts
    ∷ ends "now" service 0
    ∷ chooses_revoke key
    ∷ types "bot"
    ∷ revokes
    ∷ chooses_rotate key
    ∷ rotates
    ∷ ends "now" service 0
    ∷ []

-- A rotation shows the secret of the new key.
rotated_secret :
    let t = answer "now" service 0 (on_rotate_key (choose_rotate key make)) in
    (t.rotate_target ≡ none) × (t.is_submitting ≡ true)
unfolding answer end_call finish key_rotated load_keys on_rotate_key choose_rotate
rotated_secret = (refl, refl)

-- ===== src/Web/Auth.antt =====
-- AuthService of apps/web/src/services/authService.ts. localStorage is a dictionary, or `none` where
-- the browser refuses every access to it, which throws. Parameters stand for the platform: `atob`
-- (`none` where it throws), `decode` is JSON.parse, `to_number` the conversion that `*` makes
-- (`none` is NaN). Times are whole milliseconds, and the end of a token whole seconds.
pub mod Expiry
mod Tests
use Prim.Native.Char.{Char, code}
use Prim.Native.String
use Prim.Native.String.{[], ◌∷◌}
use agentunited.Prelude.{
  ℕ, suc, ◌+◌, ◌*◌, String, Bool, true, false, not, ◌&&◌, Option, none, some, leb, ◌==◌, str_eq,
  if◌then◌else◌,
}
use agentunited.Prelude.Dict.{Dict, lookup, insert, delete}
use agentunited.Prelude.Js.{Value, null, get, truthy}
use agentunited.Prelude.Text.{before, occurrences}

abbrev pub Storage : Type 0
Storage = Option (Dict String)

unfoldable pub set_token : String → Storage → Storage
set_token token none = none
set_token token (some d) = some (insert "auth-token" token d)

unfoldable pub get_token : Storage → Option String
get_token none = none
get_token (some d) = lookup "auth-token" d

pub remove_token : Storage → Storage
remove_token none = none
remove_token (some d) = some (delete "auth-token" d)

-- token.split('.').length === 3
unfoldable pub is_valid_jwt_format : String → Bool
is_valid_jwt_format token = occurrences b'.' token + 1 == 3

-- The text behind the first dot.
unfoldable pub behind_dot : String → String
behind_dot [] = []
behind_dot (c ∷ s) = let rest = behind_dot s in if code c == b'.' then s else rest

-- parts[1]
pub payload_part : String → String
unfolding behind_dot
payload_part token = before b'.' (behind_dot token)

pub record LoginResult : Type 0 where
  pub success : Bool
  pub error : Option String

unfoldable pub auto_login : String → Storage → Storage × LoginResult
unfolding is_valid_jwt_format set_token
auto_login token s =
    if is_valid_jwt_format token
    then (set_token token s, record { success = true; error = none })
    else (s, record { success = false; error = some "Invalid token format" })

pub logout : Storage → Storage
unfolding remove_token
logout s = remove_token s

module _ (atob : String → Option String) (decode : String → Option Value) where
  -- Whatever throws in it, `parseJwtPayload` gives null.
  pub parse_jwt_payload : String → Value
  unfolding is_valid_jwt_format payload_part
  parse_jwt_payload token =
      if is_valid_jwt_format token
      then elim (atob (payload_part token)) [
        | none ↦ null
        | some text ↦ elim (decode text) [ none ↦ null | some v ↦ v ]
      ]
      else null

module _ (atob : String → Option String) (decode : String → Option Value)
    (to_number : Value → Option ℕ) where
  -- A comparison with NaN fails.
  pub is_token_expired : ℕ → String → Bool
  unfolding parse_jwt_payload
  is_token_expired now token =
      let exp = get "exp" (parse_jwt_payload atob decode token) in
      if truthy exp
      then elim (to_number exp) [ none ↦ false | some t ↦ leb (t * 1000) now ]
      else false

  unfoldable pub is_authenticated : ℕ → Storage → Bool
  unfolding get_token is_token_expired
  is_authenticated now s = elim (get_token s) [
    | none ↦ false
    | some token ↦ not (str_eq token "") && not (is_token_expired now token)
  ]

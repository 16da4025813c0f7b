-- ===== src/Sdk/Url.antt =====
-- URLs as the SDK rewrites them: `normalizeUrl` of packages/typescript/src/realtime.ts and
-- `normalizeBaseUrl` of packages/typescript/src/rest.ts. The parser of URLs is the platform's: these
-- functions start from its result, with the pathname as text and the search parameters in order.
pub mod Laws
mod Tests
use Prim.Native.Char.{Char, code}
use Prim.Native.String
use Prim.Native.String.{[], ◌∷◌}
use mathlib.Core.List
use agentunited.Prelude.{
  String, Bool, true, false, not, ◌&&◌, ◌||◌, Option, none, some, ◌==◌, str_eq, if◌then◌else◌,
  is_some,
}
use agentunited.Prelude.Dict.{Dict, lookup, delete}

pub record Url : Type 0 where
  pub protocol : String
  pub host : String
  pub pathname : String
  pub search_params : Dict String

abbrev pub is_slash : Char → Bool
is_slash c = code c == b'/'

-- replace(/\/+$/, "")
unfoldable pub strip_trailing : String → String
strip_trailing [] = []
strip_trailing (c ∷ s) =
    let rest = strip_trailing s in if is_slash c && str_eq rest "" then [] else c ∷ rest

-- replace(/^\/+/, "")
unfoldable pub strip_leading : String → String
strip_leading [] = []
strip_leading (c ∷ s) = let rest = strip_leading s in if is_slash c then rest else c ∷ s

-- URLSearchParams.has and URLSearchParams.set.
abbrev pub has_param : String → Dict String → Bool
has_param k m = is_some (lookup k m)

unfoldable pub set_param : String → String → Dict String → Dict String
set_param k v List.[] = List.◌∷◌ (k, v) List.[]
set_param k v (List.◌∷◌ (j, w) m) =
    if str_eq j k then List.◌∷◌ (j, v) (delete k m) else List.◌∷◌ (j, w) (set_param k v m)

abbrev ws_protocol : String → String
ws_protocol p = if str_eq p "http:" then "ws:" else if str_eq p "https:" then "wss:" else p

abbrev is_root : String → Bool
is_root path = str_eq path "" || str_eq path "/"

abbrev with_token : Option String → Dict String → Dict String
with_token none m = m
with_token (some key) m =
    if not (str_eq key "") && not (has_param "token" m) then set_param "token" key m else m

unfoldable pub normalize_url : Option String → Url → Url
normalize_url api_key url = record url {
  protocol = ws_protocol url.protocol;
  pathname = if is_root (strip_trailing url.pathname) then "/ws" else url.pathname;
  search_params = with_token api_key url.search_params;
}

unfoldable pub normalize_base_url : Url → Url
normalize_base_url url =
    let path = strip_trailing url.pathname in
    record url { pathname = if is_root path then "/api/v1/" else String.◌++◌ path "/" }

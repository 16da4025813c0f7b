-- ===== src/Sdk/Url/Laws.antt =====
-- Normalising a URL.
use Prim.Native.String
use Prim.Native.String.{[], ◌∷◌}
use text.Mathlib.TextLemmas.{cons-append}
use mathlib.Core.List
use agentunited.Prelude.{
  ◌≡◌, refl, ◌≢◌, String, Option, none, some, arith, str_eq, eq_iff, eq_refl, if◌then◌else◌,
  Bool-cases, inl, inr,
}
use agentunited.Prelude.Dict.{Dict, lookup, lookup-delete}
use agentunited.Sdk.Url.{
  Url, strip_trailing, set_param, normalize_url, normalize_base_url, with_token, ws_protocol,
  is_root,
}

strip_trailing_idem : (s : String) → strip_trailing (strip_trailing s) ≡ strip_trailing s
unfolding strip_trailing
strip_trailing_idem [] = refl
strip_trailing_idem (c ∷ s) = ground (arith, strip_trailing_idem s, eq_iff (strip_trailing s) "")

strip_trailing-slash : (s : String) → strip_trailing (String.◌++◌ s "/") ≡ strip_trailing s
unfolding strip_trailing
strip_trailing-slash [] = refl
strip_trailing-slash (c ∷ s) = rw cons-append (rw (strip_trailing-slash s) refl)

pub lookup-set_param :
    (k j v : String) (m : Dict String)
    → lookup j (set_param k v m) ≡ (if str_eq k j then some v else lookup j m)
unfolding lookup set_param
lookup-set_param k j v List.[] = refl
lookup-set_param k j v (List.◌∷◌ (i, w) m) =
    ground
      (arith, eq_iff k j, eq_iff i k, eq_iff i j, lookup-delete k j m, lookup-set_param k j v m)

with_token_idem :
    (key : Option String) (m : Dict String) → with_token key (with_token key m) ≡ with_token key m
with_token_idem none m = refl
with_token_idem (some k) m = ground (arith, lookup-set_param "token" "token" k m, eq_refl "token")

lookup-with_token :
    (key : Option String) (j : String) (m : Dict String)
    → "token" ≢ j
    → lookup j (with_token key m) ≡ lookup j m
lookup-with_token none j m ne = refl
lookup-with_token (some k) j m ne = ground (arith, lookup-set_param "token" j k m, eq_iff "token" j)

token_kept :
    (key : Option String) (t : String) (m : Dict String)
    → lookup "token" m ≡ some t
    → lookup "token" (with_token key m) ≡ some t
token_kept none t m e = e
token_kept (some k) t m e = ground arith

ws_protocol_idem : (p : String) → ws_protocol (ws_protocol p) ≡ ws_protocol p
ws_protocol_idem p = elim (Bool-cases (str_eq p "http:")) [
  | inl e ↦ rw e refl
  | inr e ↦ elim (Bool-cases (str_eq p "https:")) [
    | inl e' ↦ rw (e, e') refl
    | inr e' ↦ rw (e, e') (rw (e, e') refl)
  ]
]

abbrev ws_path : String → String
ws_path p = if is_root (strip_trailing p) then "/ws" else p

ws_path_idem : (p : String) → ws_path (ws_path p) ≡ ws_path p
unfolding strip_trailing
ws_path_idem p = elim (Bool-cases (is_root (strip_trailing p))) [
  | inl e ↦ rw e refl
  | inr e ↦ rw e (rw e refl)
]

-- The address that the realtime client dials is settled after one round: normalising it again
-- changes nothing. A token that the URL carries is kept, and only where it has none does the API
-- key, if there is one, become its token; the other parameters stay.
pub normalize_url_lem :
    (key : Option String) (url : Url)
    → (normalize_url key (normalize_url key url) ≡ normalize_url key url)
      × ((t : String)
          → lookup "token" url.search_params ≡ some t
          → lookup "token" (normalize_url key url).search_params ≡ some t)
      × ((k : String)
          → key ≡ some k
          → k ≢ ""
          → lookup "token" url.search_params ≡ none
          → lookup "token" (normalize_url key url).search_params ≡ some k)
      × ((j : String)
          → "token" ≢ j
          → lookup j (normalize_url key url).search_params ≡ lookup j url.search_params)
unfolding normalize_url
normalize_url_lem key url = (
  λ i. record {
    protocol = ws_protocol_idem url.protocol i;
    host = url.host;
    pathname = ws_path_idem url.pathname i;
    search_params = with_token_idem key url.search_params i;
  },
  λ t e. token_kept key t url.search_params e,
  λ k given ne missing. rw given (
      ground (
        arith,
        missing,
        eq_iff k "",
        eq_refl "token",
        lookup-set_param "token" "token" k url.search_params,
      )),
  λ j ne. lookup-with_token key j url.search_params ne,
)

abbrev base_path : String → String
base_path p = if is_root (strip_trailing p) then "/api/v1/" else String.◌++◌ (strip_trailing p) "/"

base_path_slash : (p : String) → base_path p ≡ String.◌++◌ (strip_trailing (base_path p)) "/"
unfolding strip_trailing
base_path_slash p = elim (Bool-cases (is_root (strip_trailing p))) [
  | inl e ↦ rw e refl
  | inr e ↦ rw e (rw (strip_trailing-slash (strip_trailing p), strip_trailing_idem p) refl)
]

base_path_idem : (p : String) → base_path (base_path p) ≡ base_path p
base_path_idem p = elim (Bool-cases (is_root (strip_trailing p))) [
  | inl e ↦ rw e (unfold strip_trailing in refl)
  | inr e ↦ rw e (rw (strip_trailing-slash (strip_trailing p), strip_trailing_idem p, e) refl)
]

-- The base address of the REST client always ends in exactly one slash, is /api/v1/ for a base with
-- no path, and normalising it again changes nothing.
pub normalize_base_url_lem :
    (url : Url)
    → ((normalize_base_url url).pathname
        ≡ String.◌++◌ (strip_trailing (normalize_base_url url).pathname) "/")
      × (strip_trailing url.pathname ≡ "" → (normalize_base_url url).pathname ≡ "/api/v1/")
      × (normalize_base_url (normalize_base_url url) ≡ normalize_base_url url)
unfolding normalize_base_url
normalize_base_url_lem url = (
  base_path_slash url.pathname,
  λ e. rw e refl,
  λ i. record url { pathname = base_path_idem url.pathname i },
)

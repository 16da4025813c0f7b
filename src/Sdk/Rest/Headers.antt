-- ===== src/Sdk/Rest/Headers.antt =====
-- The headers and the query of a request.
use Prim.Native.String
use agentunited.Prelude.{
  ◌≡◌, refl, ◌≢◌, String, Option, none, some, [], ◌∷◌, arith, str_eq, eq_iff, eq_refl,
  if◌then◌else◌,
}
use agentunited.Prelude.Dict.{Dict, lookup, insert, lookup-insert}
use agentunited.Prelude.Js.{Value}
use agentunited.Sdk.Url.{set_param}
use agentunited.Sdk.Url.Laws.{lookup-set_param}
use agentunited.Sdk.Rest.{
  ClientOptions, RequestOptions, headers_of, spread, with_query, authorize, describe_body,
}

-- The value that a key has at the end of a list of entries that are written one after the other.
abbrev pub last_of {ℓ} : {V : Type ℓ} → String → Dict V → Option V
last_of j [] = none
last_of j ((k, v) ∷ m) = elim (last_of j m) [
  | none ↦ if str_eq k j then some v else none
  | some w ↦ some w
]

infixr 30 ◌or◌
abbrev pub ◌or◌ {ℓ} : {V : Type ℓ} → Option V → Option V → Option V
none or b = b
some a or b = some a

lookup-spread :
    (j : String) (a b : Dict String) → lookup j (spread a b) ≡ (last_of j b or lookup j a)
unfolding spread
lookup-spread j a [] = refl
lookup-spread j a ((k, v) ∷ b) =
    ground (arith, lookup-spread j (insert k v a) b, lookup-insert k j v a)

abbrev bearer : Option String → Option String
bearer none = none
bearer (some key) = if str_eq key "" then none else some (String.◌++◌ "Bearer " key)

abbrev described : Option Value → Option String
described none = none
described (some v) = some "application/json"

abbrev others : ClientOptions → RequestOptions → String → Option String
others c o j =
    last_of j o.headers
    or last_of j c.headers
    or (if str_eq "accept" j then some "application/json" else none)

lookup-authorize :
    (key : Option String) (j : String) (hs : Dict String)
    → lookup j (authorize key hs)
      ≡ ((if str_eq "authorization" j then bearer key else none) or lookup j hs)
lookup-authorize none j hs = ground arith
lookup-authorize (some key) j hs =
    ground (arith, lookup-insert "authorization" j (String.◌++◌ "Bearer " key) hs)

lookup-describe_body :
    (body : Option Value) (j : String) (hs : Dict String)
    → lookup j (describe_body body hs)
      ≡ ((if str_eq "content-type" j then described body else none) or lookup j hs)
lookup-describe_body none j hs = ground arith
lookup-describe_body (some v) j hs =
    ground (arith, lookup-insert "content-type" j "application/json" hs)

lookup-defaults :
    (c : ClientOptions) (o : RequestOptions) (j : String)
    → lookup j (spread (spread (("accept", "application/json") ∷ []) c.headers) o.headers)
      ≡ others c o j
lookup-defaults c o j =
    let start : Dict String = ("accept", "application/json") ∷ [] in
    rw (lookup-spread j (spread start c.headers) o.headers, lookup-spread j start c.headers)
      (unfold lookup in refl)

lookup-headers_of :
    (c : ClientOptions) (o : RequestOptions) (body : Option Value) (j : String)
    → lookup j (headers_of c o body) ≡ (
        (if str_eq "content-type" j then described body else none)
        or (if str_eq "authorization" j then bearer c.api_key else none)
        or others c o j)
unfolding headers_of
lookup-headers_of c o body j =
    let merged = spread (spread (("accept", "application/json") ∷ []) c.headers) o.headers in
    rw
      (
        lookup-describe_body body j (authorize c.api_key merged),
        lookup-authorize c.api_key j merged,
        lookup-defaults c o j,
      )
      refl

-- A request with an API key carries it as bearer token, and one with a body says that it is JSON,
-- whatever headers the options give. Of every other header the request's own value wins over that
-- of the client, and `accept` is JSON only where neither gives one.
pub headers_of_lem :
    (c : ClientOptions) (o : RequestOptions) (body : Option Value)
    → ((key : String)
        → c.api_key ≡ some key
        → key ≢ ""
        → lookup "authorization" (headers_of c o body) ≡ some (String.◌++◌ "Bearer " key))
      × ((v : Value)
          → body ≡ some v
          → lookup "content-type" (headers_of c o body) ≡ some "application/json")
      × ((j : String)
          → "authorization" ≢ j
          → "content-type" ≢ j
          → lookup j (headers_of c o body) ≡ (
              last_of j o.headers
              or last_of j c.headers
              or (if str_eq "accept" j then some "application/json" else none)))
headers_of_lem c o body = (
  λ key given ne.
      rw (lookup-headers_of c o body "authorization", given)
        (ground
          (arith, eq_iff key "", eq_refl "authorization", eq_iff "content-type" "authorization")),
  λ v given.
      rw (lookup-headers_of c o body "content-type", given)
        (ground (arith, eq_refl "content-type")),
  λ j na nc.
      rw (lookup-headers_of c o body j)
        (ground (arith, eq_iff "authorization" j, eq_iff "content-type" j)),
)

abbrev pub last_given : String → Dict (Option String) → Option String
last_given j [] = none
last_given j ((k, v) ∷ q) = last_given j q or (if str_eq k j then v else none)

-- Every query entry with a value becomes a parameter of the URL, the last one of a name if there
-- are several, and all other parameters stay; an entry that is undefined is not sent.
lookup-with_query :
    (j : String) (q : Dict (Option String)) (params : Dict String)
    → lookup j (with_query q params) ≡ (last_given j q or lookup j params)
unfolding with_query
lookup-with_query j [] params = refl
lookup-with_query j ((k, none) ∷ q) params = ground (arith, lookup-with_query j q params)
lookup-with_query j ((k, some v) ∷ q) params =
    ground (arith, lookup-with_query j q (set_param k v params), lookup-set_param k j v params)

-- ===== src/Sdk/Rest/Tests.antt =====
-- The REST client on concrete requests and responses.
use agentunited.Prelude.{◌≡◌, refl, String, true, Option, none, some, [], ◌∷◌}
use agentunited.Prelude.Js.{Value, null, obj, field, no_fields}
use agentunited.Sdk.Url.{Url, strip_trailing, strip_leading, normalize_base_url}
use agentunited.Sdk.Rest.{
  ClientOptions, RequestOptions, HttpRequest, HttpResponse, returned, channels_list,
  handle_response, request, build_request, unwrap_response, parsed_text, no_items,
}
use agentunited.Sdk.Rest.Responses.{request_sound}

abbrev client : ClientOptions
client = record { base_url = "https://example.org"; api_key = some "key"; headers = [] }

abbrev plain : RequestOptions
plain = record { query = ("limit", some "5") ∷ ("after", none) ∷ []; headers = [] }

abbrev parse : String → Option Url
parse s =
    some (record { protocol = "https:"; host = "example.org"; pathname = "/"; search_params = [] })

abbrev resolve : String → Url → Option Url
resolve path base = some (record base { pathname = path })

abbrev fields : Value
fields = obj (field "channels" null no_fields)

abbrev decode : String → Option Value
decode text = some fields

abbrev fetch : HttpRequest → Option HttpResponse
fetch q = some (record { status = 200; ok = true; text = "{}" })

-- A list method gives the empty list where the server sends null.
lists_nothing : request parse resolve decode fetch client plain channels_list ≡ returned no_items
unfolding request build_request handle_response unwrap_response parsed_text channels_list
    normalize_base_url strip_trailing strip_leading
lists_nothing = refl

request_sound_example :
    (q : HttpRequest) × (r : HttpResponse) × (build_request parse resolve client plain channels_list
      ≡ some q)
    × (fetch q ≡ some r)
    × (r.ok ≡ true)
request_sound_example =
    (request_sound parse resolve decode fetch client plain channels_list).0 no_items lists_nothing

abbrev answer : HttpResponse
answer = record { status = 200; ok = true; text = "null" }

-- ===== src/Sdk/Rest/Responses.antt =====
-- What a method makes of the response.
use agentunited.Prelude.{
  ℕ, ◌≡◌, ◌≢◌, String, true, false, Option, some, arith, eq_iff, Option-cases, inl, inr,
}
use agentunited.Prelude.Js.{Value, null, str, obj, Fields, field_of}
use agentunited.Sdk.Url.{Url}
use agentunited.Sdk.Rest.{
  ClientOptions, RequestOptions, HttpRequest, HttpResponse, Mapping, Call, returned, api_error,
  has_field, or_default, build_request, handle_response, request,
}

module _ (parse : String → Option Url) (resolve : String → Url → Option Url)
    (decode : String → Option Value) (fetch : HttpRequest → Option HttpResponse) where
  -- A method returns a value only if the request could be built, fetch answered it and the status
  -- was a success; it throws an API error with a status only if fetch answered with that status
  -- and it was no success.
  pub request_sound :
      (c : ClientOptions) (o : RequestOptions) (call : Call)
      → ((v : Value)
          → request parse resolve decode fetch c o call ≡ returned v
          → (q : HttpRequest) × (r : HttpResponse) × (build_request parse resolve c o call ≡ some q)
            × (fetch q ≡ some r)
            × (r.ok ≡ true))
        × ((status : ℕ) (v : Value)
            → request parse resolve decode fetch c o call ≡ api_error status v
            → (q : HttpRequest) × (r : HttpResponse) × (build_request parse resolve c o call
                ≡ some q)
              × (fetch q ≡ some r)
              × (r.ok ≡ false)
              × (r.status ≡ status))
  unfolding request handle_response
  request_sound c o call = elim (Option-cases (build_request parse resolve c o call)) [
    | inl refused ↦ (λ v e. ground arith, λ status v e. ground arith)
    | inr (q, built) ↦ elim (Option-cases (fetch q)) [
      | inl silent ↦ (λ v e. ground arith, λ status v e. ground arith)
      | inr (r, answered) ↦ (
        λ v e. (q, r, ground arith, answered, ground arith),
        λ status v e. (q, r, ground arith, answered, ground arith, ground arith),
      )
    ]
  ]

module _ (decode : String → Option Value) where
  -- A successful response whose text is a JSON object is unwrapped: the value under the method's
  -- key is returned, the default stands in for null, and an object without the key is returned
  -- whole.
  pub handle_response_object :
      (r : HttpResponse) (m : Mapping) (fs : Fields)
      → r.ok ≡ true
      → r.text ≢ ""
      → decode r.text ≡ some (obj fs)
      → m.unwrap ≢ ""
      → (has_field m.unwrap fs ≡ true
          → handle_response decode (some r) (some m)
            ≡ returned (or_default (field_of m.unwrap fs) m.default_value))
        × (has_field m.unwrap fs ≡ false
            → handle_response decode (some r) (some m) ≡ returned (obj fs))
  unfolding handle_response
  handle_response_object r m fs fine some_text decoded named = (
    λ here. ground (arith, eq_iff r.text "", eq_iff m.unwrap ""),
    λ missing. ground (arith, eq_iff r.text "", eq_iff m.unwrap ""),
  )

  -- A successful response whose text is the JSON `null` gives back the text itself: the methods
  -- that list things then return a string and not their default, the empty list.
  handle_response_null :
      (r : HttpResponse) (mapping : Option Mapping)
      → r.ok ≡ true
      → r.text ≢ ""
      → decode r.text ≡ some null
      → handle_response decode (some r) mapping ≡ returned (str r.text)
  unfolding handle_response
  handle_response_null r mapping fine some_text decoded = ground (arith, eq_iff r.text "")

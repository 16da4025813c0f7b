-- ===== src/Web/Api/Sessions.antt =====
-- The session over a sequence of calls of api.ts.
use agentunited.Prelude.{
  is_some, ℕ, String, Bool, true, Option, none, some, List, [], ◌∷◌, ◌++◌, ◌≡◌, refl, arith, inl,
  inr, leb, ◌==◌, if◌then◌else◌, Bool-cases,
}
use agentunited.Prelude.Dict.{lookup, lookup-delete}
use agentunited.Prelude.Js.{Value}
use agentunited.Web.Chat.{HttpResponse}
use agentunited.Web.Api.{
  Browser, fetch_channels, fetch_messages, send_message_api, send_message_with_attachment,
  max_size_bytes, api_fetch, checked, end_session,
}

pub data Operation : Type 0 where
  reads_channels : Operation
  reads_messages : String → Operation
  sends : String → String → Operation
  uploads : String → String → ℕ → Operation

-- Every operation but an upload of a file that is too large asks the server.
abbrev pub asks : Operation → Bool
asks (uploads channel text size) = leb size max_size_bytes
asks _ = true

module _ (show : ℕ → String) where
  unfoldable pub operate : Operation → Option (HttpResponse Value) → Browser → Browser
  unfolding fetch_channels fetch_messages send_message_api send_message_with_attachment
  operate reads_channels response b = (fetch_channels show response b).browser
  operate (reads_messages channel) response b = (fetch_messages show channel response b).browser
  operate (sends channel text) response b = (send_message_api show channel text response b).browser
  operate (uploads channel text size) response b =
      (send_message_with_attachment show channel text size response b).1

  unfoldable pub run : List (Operation × Option (HttpResponse Value)) → Browser → Browser
  unfolding operate
  run [] b = b
  run ((o, response) ∷ es) b = run es (operate o response b)

  operate-checked :
      (o : Operation) (response : Option (HttpResponse Value)) (b : Browser)
      → operate o response b ≡ (if asks o then (checked response b).0 else b)
  unfolding operate fetch_channels fetch_messages send_message_api send_message_with_attachment
      api_fetch
  operate-checked reads_channels response b = refl
  operate-checked (reads_messages channel) response b = refl
  operate-checked (sends channel text) response b = refl
  operate-checked (uploads channel text size) response b = ground arith

-- No token is stored and the login page is shown.
abbrev pub IsSignedOut : Browser → Type 0
IsSignedOut b = (lookup "auth-token" b.storage ≡ none) × (b.location ≡ "/login")

end_session-IsSignedOut : (b : Browser) → IsSignedOut (end_session b)
unfolding end_session
end_session-IsSignedOut b = (lookup-delete "auth-token" "auth-token" b.storage, refl)

checked-IsSignedOut :
    (response : Option (HttpResponse Value)) (b : Browser)
    → IsSignedOut b
    → IsSignedOut (checked response b).0
unfolding checked
checked-IsSignedOut none b out = out
checked-IsSignedOut (some r) b out = elim (Bool-cases (r.status == 401)) [
  | inl refused ↦ rw refused (end_session-IsSignedOut b)
  | inr fine ↦ rw fine out
]

module _ (show : ℕ → String) where
  operate-IsSignedOut :
      (o : Operation) (response : Option (HttpResponse Value)) (b : Browser)
      → IsSignedOut b
      → IsSignedOut (operate show o response b)
  operate-IsSignedOut o response b out =
      rw (operate-checked show o response b) (elim (Bool-cases (asks o)) [
        | inl asked ↦ rw asked (checked-IsSignedOut response b out)
        | inr not_asked ↦ rw not_asked out
      ])

  run-IsSignedOut :
      (es : List (Operation × Option (HttpResponse Value))) (b : Browser)
      → IsSignedOut b
      → IsSignedOut (run show es b)
  unfolding run
  run-IsSignedOut [] b out = out
  run-IsSignedOut ((o, response) ∷ es) b out =
      run-IsSignedOut es (operate show o response b) (operate-IsSignedOut o response b out)

  refused_ends :
      (o : Operation) (r : HttpResponse Value) (b : Browser)
      → asks o ≡ true
      → r.status ≡ 401
      → IsSignedOut (operate show o (some r) b)
  unfolding checked
  refused_ends o r b asked refused =
      rw (operate-checked show o (some r) b, asked, refused) (end_session-IsSignedOut b)

  -- Once an operation that asks the server is answered with 401, no token is stored and the login
  -- page is shown, whatever operations follow with whatever answers.
  pub run-stays_out :
      (before later : List (Operation × Option (HttpResponse Value))) (o : Operation)
      (r : HttpResponse Value) (b : Browser)
      → asks o ≡ true
      → r.status ≡ 401
      → IsSignedOut (run show (before ++ (o, some r) ∷ later) b)
  unfolding run
  run-stays_out [] later o r b asked refused =
      run-IsSignedOut later (operate show o (some r) b) (refused_ends o r b asked refused)
  run-stays_out ((first, answer) ∷ before) later o r b asked refused =
      run-stays_out before later o r (operate show first answer b) asked refused

-- A file is sent exactly if it has at most 10 * 1024 * 1024 bytes; where it has more, the browser
-- stays as it is.
pub upload_lem :
    (show : ℕ → String) (channel text : String) (size : ℕ) (response : Option (HttpResponse Value))
    (b : Browser)
    → let call = send_message_with_attachment show channel text size response b in
      (is_some call.0 ≡ leb size 10485760)
      × (call.1 ≡ (if leb size 10485760 then (checked response b).0 else b))
unfolding send_message_with_attachment
upload_lem show channel text size response b = (ground arith, ground arith)

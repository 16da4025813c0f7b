-- ===== src/Web/Entry/Entering.antt =====
-- With what an invite is accepted, and what is stored behind it.
use Prim.Native.String.{count}
use agentunited.Prelude.{
  ◌≤◌, String, Bool, true, false, not, ◌&&◌, ◌||◌, Option, none, some, List, [], ◌∷◌, ◌++◌, All,
  All-append, str_eq, ltb, leb, if◌then◌else◌, if-either, ◌≡◌, refl, ap, ◌∙◌, arith,
}
use agentunited.Prelude.Dict.{insert, lookup, lookup-insert}
use agentunited.Prelude.Js.{Value, get, truthy}
use agentunited.Web.Auth.{get_token}
use agentunited.Web.Services.Invites.{Answer, accepted}
use agentunited.Web.Entry.{Storage}
use agentunited.Web.Entry.Invite.{
  InvitePage, InviteInfo, Accepted, info_loaded, handle_display_name_change, handle_password_change,
  handle_confirm_change, start_accept, accept, can_submit, is_valid_display_name, end_accept,
  remember, put_if,
}

pub data Event : Type 0 where
  loads : Answer InviteInfo → Event
  names types confirms : String → Event
  submits : Event
  ends : Answer Accepted → Event

-- The token, the password and the name of an acceptance.
abbrev pub IsAcceptable : String × String × String → Type 0
IsAcceptable (token, password, name) =
    (str_eq token "" ≡ false) × (12 ≤ count password) × (1 ≤ count name) × (count name ≤ 50)

abbrev listed : Option (String × String × String) → List (String × String × String)
listed none = []
listed (some sent) = sent ∷ []

four :
    (a b c d e : Bool)
    → (a && b) && c && d && e ≡ true
    → (a ≡ true) × (b ≡ true) × (c ≡ true) × (d ≡ true) × (e ≡ true)
four a b c d e h = ground (arith, h)

neither : (a b : Bool) → not a || b ≡ false → (a ≡ true) × (b ≡ false)
neither a b h = ground (arith, h)

module _ (trim : String → String) (text_of : Value → String) (payload_of : String → Option Value)
    (token : Option String) where
  -- The page, what is stored, and what was sent.
  unfoldable pub step :
      Event → InvitePage × Storage → InvitePage × Storage × List (String × String × String)
  unfolding info_loaded handle_display_name_change handle_password_change handle_confirm_change
      start_accept end_accept
  step (loads answer) (p, s) = (info_loaded trim answer p, s, [])
  step (names value) (p, s) = (handle_display_name_change trim value p, s, [])
  step (types value) (p, s) = (handle_password_change value p, s, [])
  step (confirms value) (p, s) = (handle_confirm_change value p, s, [])
  step submits (p, s) = let result = start_accept trim token p in (result.0, s, listed result.1)
  step (ends answer) (p, s) =
      let result = end_accept text_of payload_of answer p s in (result.0, result.1, [])

  unfoldable pub run :
      List Event → InvitePage × Storage → InvitePage × Storage × List (String × String × String)
  unfolding step
  run [] (p, s) = (p, s, [])
  run (e ∷ es) (p, s) =
      let next = step e (p, s) in
      let rest = run es (next.0, next.1) in (rest.0, rest.1, next.2 ++ rest.2)

  valid-IsAcceptable :
      (given : String) (p : InvitePage)
      → can_submit trim p ≡ true
      → str_eq given "" ≡ false
      → IsAcceptable (given, p.password, trim p.display_name)
  unfolding can_submit is_valid_display_name
  valid-IsAcceptable given p fits full =
      let parts =
        four (leb 1 (count (trim p.display_name))) (leb (count (trim p.display_name)) 50)
          (leb 12 (count p.password)) (str_eq p.password p.confirm_password) (not p.submitting)
          fits in
      (full, ground (arith, parts.2), ground (arith, parts.0), ground (arith, parts.1))

  accept-AreAcceptable :
      (given : String) (p : InvitePage)
      → can_submit trim p ≡ true
      → str_eq given "" ≡ false
      → All IsAcceptable (listed (accept trim given p).1)
  accept-AreAcceptable given p fits full =
      if-either
        (λ (r : InvitePage × Option (String × String × String)). All IsAcceptable (listed r.1))
        (str_eq (trim p.display_name) "" || ltb 50 (count (trim p.display_name))) (λ bad. tt)
        (λ good. (valid-IsAcceptable given p fits full, tt))

  start-AreAcceptable :
      (given : Option String) (p : InvitePage)
      → All IsAcceptable (listed (start_accept trim given p).1)
  unfolding start_accept
  start-AreAcceptable none p = tt
  start-AreAcceptable (some given) p =
      if-either
        (λ (r : InvitePage × Option (String × String × String)). All IsAcceptable (listed r.1))
        (not (can_submit trim p) || str_eq given "") (λ stays. tt)
        (λ goes.
          let both = neither (can_submit trim p) (str_eq given "") goes in
          accept-AreAcceptable given p both.0 both.1)

  step-AreAcceptable :
      (e : Event) (p : InvitePage) (s : Storage) → All IsAcceptable (step e (p, s)).2
  unfolding step
  step-AreAcceptable (loads answer) p s = tt
  step-AreAcceptable (names value) p s = tt
  step-AreAcceptable (types value) p s = tt
  step-AreAcceptable (confirms value) p s = tt
  step-AreAcceptable submits p s = start-AreAcceptable token p
  step-AreAcceptable (ends answer) p s = tt

  -- Over any events, whatever trim does, an invite is only accepted with a token that is not empty, a
  -- password of at least 12 characters and a name of 1 to 50 characters.
  pub run-AreAcceptable :
      (es : List Event) (p : InvitePage) (s : Storage) → All IsAcceptable (run es (p, s)).2
  unfolding run
  run-AreAcceptable [] p s = tt
  run-AreAcceptable (e ∷ es) p s =
      let next = step e (p, s) in
      All-append IsAcceptable next.2 (run es (next.0, next.1)).2 (step-AreAcceptable e p s)
        (run-AreAcceptable es next.0 next.1)

  put_if-other :
      (key other : String) (v : Value) (s : Storage)
      → str_eq key other ≡ false
      → lookup other (put_if text_of key v s) ≡ lookup other s
  put_if-other key other v s apart =
      if-either (λ (d : Storage). lookup other d ≡ lookup other s) (truthy v)
        (λ given.
          lookup-insert key other (text_of v) s
          ∙ ap (λ b. if b then some (text_of v) else lookup other s) apart)
        (λ missing. refl)

  remember-token :
      (o : Option Value) (s : Storage)
      → lookup "auth-token" (remember text_of o s) ≡ lookup "auth-token" s
  remember-token none s = refl
  remember-token (some payload) s =
      put_if-other "user-email" "auth-token" (get "email" payload)
        (put_if text_of "user-id" (get "user_id" payload) s) refl
      ∙ put_if-other "user-id" "auth-token" (get "user_id" payload) s refl

  -- Behind an accepted invite, the authentication service reads the token of the answer, whatever
  -- the payload of the token is and whatever was stored before.
  pub end_accept-get_token :
      (answer : Accepted) (p : InvitePage) (s : Storage)
      → get_token (some (end_accept text_of payload_of (accepted answer) p s).1)
        ≡ some answer.jwt_token
  unfolding end_accept get_token
  end_accept-get_token answer p s =
      remember-token (payload_of answer.jwt_token) (insert "auth-token" answer.jwt_token s)
      ∙ lookup-insert "auth-token" "auth-token" answer.jwt_token s

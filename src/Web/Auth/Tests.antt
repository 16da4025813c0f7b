-- ===== src/Web/Auth/Tests.antt =====
-- Tokens and times.
use agentunited.Prelude.{ℕ, ◌≡◌, refl, String, true, false, Option, none, some, [], ◌∷◌}
use agentunited.Prelude.Dict.{Dict, lookup}
use agentunited.Prelude.Text.{occurrences, before}
use agentunited.Prelude.Js.{Value, num, obj, field, no_fields}
use agentunited.Web.Auth.{is_authenticated, payload_part}

abbrev atob : String → Option String
atob part = some part

abbrev decode : String → Option Value
decode text = some (obj (field "exp" (num 10) no_fields))

abbrev to_number : Value → Option ℕ
to_number (num n) = some n
to_number _ = none

abbrev stored : Dict String
stored = ("auth-token", "a.b.c") ∷ []

middle : payload_part "a.b.c" ≡ "b"
unfolding payload_part before
middle = refl

expired : is_authenticated atob decode to_number 10000 (some stored) ≡ false
unfolding is_authenticated lookup before occurrences
expired = refl

not_yet : is_authenticated atob decode to_number 9999 (some stored) ≡ true
unfolding is_authenticated lookup before occurrences
not_yet = refl

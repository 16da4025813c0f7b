-- ===== src/Web/Forms.antt =====
-- What the pages and forms share: how a call of a service ends, and the messages that they show.
use agentunited.Prelude.{ℕ, zero, suc, String, Option, none, some, List, [], ◌∷◌}

-- A call fails, with the message of an Error or with something else, or answers.
pub data Result {ℓ} (A : Type ℓ) : Type ℓ where
  failed : Option String → Result A
  answered : A → Result A

-- err instanceof Error ? err.message : fallback
abbrev pub message_of : String → Option String → String
message_of fallback none = fallback
message_of fallback (some message) = message

module _ {ℓ} {C : Type ℓ} where
  -- The call at an index, of those that are under way, and the others.
  abbrev pub call_at : ℕ → List C → Option C
  call_at i [] = none
  call_at zero (c ∷ cs) = some c
  call_at (suc i) (c ∷ cs) = call_at i cs

  abbrev pub without : ℕ → List C → List C
  without i [] = []
  without zero (c ∷ cs) = cs
  without (suc i) (c ∷ cs) = c ∷ without i cs

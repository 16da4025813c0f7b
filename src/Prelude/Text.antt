-- ===== src/Prelude/Text.antt =====
-- Searches in a text, by characters.
use Prim.Native.Nat.{ℕ, zero, suc}
use Prim.Native.Char.{Char, code}
use Prim.Native.String.{String, [], ◌∷◌, ◌++◌, count}
use mathlib.Core.Bool.{Bool, true, ◌||◌, ◌&&◌}
use mathlib.Core.Path.{◌≡◌, refl, ap}
use mathlib.Core.Option.{Option, none, some}
use text.Mathlib.TextLemmas.{length-cons, cons-append, nil-append}
use agentunited.Prelude.Tests.{◌==◌, leb, if◌then◌else◌, is_some}

-- The rest of a text behind a prefix.
unfoldable pub strip_prefix : String → String → Option String
strip_prefix [] s = some s
strip_prefix (p ∷ ps) [] = none
strip_prefix (p ∷ ps) (c ∷ s) =
    let rest = strip_prefix ps s in if code p == code c then rest else none

-- String.prototype.includes.
unfoldable pub includes : String → String → Bool
unfolding strip_prefix
includes piece [] = is_some (strip_prefix piece "")
includes piece (c ∷ s) =
    let later = includes piece s in if is_some (strip_prefix piece (c ∷ s)) then true else later

-- The text before the first character with this code: the whole text if there is none.
unfoldable pub before : ℕ → String → String
before k [] = []
before k (c ∷ s) = let later = before k s in if code c == k then [] else c ∷ later

-- How often a character occurs.
unfoldable pub occurrences : ℕ → String → ℕ
occurrences k [] = zero
occurrences k (c ∷ s) = let later = occurrences k s in if code c == k then suc later else later

-- The class \w of regular expressions.
abbrev pub is_word : Char → Bool
is_word c =
    (leb b'a' (code c) && leb (code c) b'z')
    || (leb b'A' (code c) && leb (code c) b'Z')
    || (leb b'0' (code c) && leb (code c) b'9')
    || (code c == b'_')

-- substring(0, n) and substring(n), which stop at the end of the text.
unfoldable pub take_text : ℕ → String → String
take_text zero s = []
take_text (suc n) [] = []
take_text (suc n) (c ∷ s) = c ∷ take_text n s

unfoldable pub drop_text : ℕ → String → String
drop_text zero s = s
drop_text (suc n) [] = []
drop_text (suc n) (c ∷ s) = drop_text n s

pub take-append : (a b : String) → take_text (count a) (a ++ b) ≡ a
unfolding take_text
take-append [] b = refl
take-append (c ∷ a) b = rw (length-cons c a, cons-append c a b) (ap (◌∷◌ c) (take-append a b))

pub drop-append : (a b : String) → drop_text (count a) (a ++ b) ≡ b
unfolding drop_text
drop-append [] b = nil-append b
drop-append (c ∷ a) b = rw (length-cons c a, cons-append c a b) (drop-append a b)

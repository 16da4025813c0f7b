-- ===== src/Web/Live/Names.antt =====
-- getDisplayName of apps/web/src/lib/displayName.ts.
use Prim.Native.Char.{Char, code}
use Prim.Native.String
use Prim.Native.String.{[], ◌∷◌}
use agentunited.Prelude.{String, Bool, false, ◌||◌, ◌&&◌, not, str_eq, ◌==◌, if◌then◌else◌}
use agentunited.Prelude.Text.{includes, before, is_word}

-- [._-]
abbrev is_joint : Char → Bool
is_joint c = code c == b'.' || code c == b'_' || code c == b'-'

-- replace(/[._-]+/g, ' '); `inside` says that the character before was one of them.
unfoldable pub spaced : Bool → String → String
spaced inside [] = []
spaced inside (c ∷ s) =
    let rest = spaced (is_joint c) s in
    if is_joint c then (if inside then rest else String.◌++◌ " " rest) else c ∷ rest

module _ (is_space : Char → Bool) (upper : Char → Char) where
  unfoldable pub trim_start : String → String
  trim_start [] = []
  trim_start (c ∷ s) = let rest = trim_start s in if is_space c then rest else c ∷ s

  unfoldable pub trim_end : String → String
  trim_end [] = []
  trim_end (c ∷ s) = let rest = trim_end s in if is_space c && str_eq rest "" then [] else c ∷ rest

  -- replace(/\b\w/g, upper case); `inside` says that the character before was a word character.
  unfoldable pub capitalized : Bool → String → String
  capitalized inside [] = []
  capitalized inside (c ∷ s) =
      (if is_word c && not inside then upper c else c) ∷ capitalized (is_word c) s

  unfoldable pub get_display_name : String → String
  unfolding spaced trim_start trim_end capitalized includes before
  get_display_name input =
      if str_eq input ""
      then "Unknown"
      else if includes "@" input
      then (let cleaned = trim_end (trim_start (spaced false (before b'@' input))) in
          if str_eq cleaned "" then "Unknown" else capitalized false cleaned)
      else input

-- ===== src/Web/ChannelForm/Slug.antt =====
-- slugify of apps/web/src/components/chat/CreateChannelModal.tsx.
use Prim.Native.Char.{Char, code}
use Prim.Native.String.{String, [], ◌∷◌}
use agentunited.Prelude.{Bool, false, ◌&&◌, ◌||◌, leb, ◌==◌, if◌then◌else◌}

-- [a-z0-9-]
abbrev pub is_slug : Char → Bool
is_slug c =
    (leb b'a' (code c) && leb (code c) b'z')
    || (leb b'0' (code c) && leb (code c) b'9')
    || (code c == b'-')

abbrev pub is_hyphen : Char → Bool
is_hyphen c = code c == b'-'

abbrev pub hyphen : Char
hyphen = "-"

-- replace(/[^a-z0-9-]/g, '-')
unfoldable pub replaced : String → String
replaced [] = []
replaced (c ∷ s) = let later = replaced s in (if is_slug c then c else hyphen) ∷ later

abbrev pub starts_hyphen : String → Bool
starts_hyphen [] = false
starts_hyphen (c ∷ s) = is_hyphen c

-- replace(/-+/g, '-')
unfoldable pub collapsed : String → String
collapsed [] = []
collapsed (c ∷ s) =
    let later = collapsed s in if is_hyphen c && starts_hyphen later then later else c ∷ later

-- The two parts of replace(/^-|-$/g, '').
unfoldable pub without_first : String → String
without_first [] = []
without_first (c ∷ s) = if is_hyphen c then s else c ∷ s

unfoldable pub without_last : String → String
without_last [] = []
without_last (c ∷ []) = if is_hyphen c then [] else c ∷ []
without_last (c ∷ d ∷ s) = c ∷ without_last (d ∷ s)

unfoldable pub slugify : (String → String) → String → String
unfolding replaced collapsed without_first without_last
slugify lower input = without_last (without_first (collapsed (replaced (lower input))))

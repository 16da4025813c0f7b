-- ===== src/Web/ChannelForm/Slugs.antt =====
-- The shape of the name of a channel.
use Prim.Native.String.{String, [], ◌∷◌}
use agentunited.Prelude.{
  Bool, true, false, not, ◌&&◌, if◌then◌else◌, if-either, ◌≡◌, refl, ap, ◌∙◌, arith,
}
use agentunited.Web.ChannelForm.Slug.{
  is_slug, is_hyphen, hyphen, replaced, starts_hyphen, collapsed, without_first, without_last,
  slugify,
}

-- Every character is a small letter, a digit or a hyphen.
abbrev pub all_slug : String → Bool
all_slug [] = true
all_slug (c ∷ s) = is_slug c && all_slug s

-- No two hyphens stand side by side.
abbrev pub is_spaced : String → Bool
is_spaced [] = true
is_spaced (c ∷ s) = not (is_hyphen c && starts_hyphen s) && is_spaced s

abbrev pub ends_hyphen : String → Bool
ends_hyphen [] = false
ends_hyphen (c ∷ []) = is_hyphen c
ends_hyphen (c ∷ d ∷ s) = ends_hyphen (d ∷ s)

-- The shape behind the middle of slugify.
abbrev Spaced : String → Type 0
Spaced s = (all_slug s ≡ true) × (is_spaced s ≡ true)

all_slug-replaced : (s : String) → all_slug (replaced s) ≡ true
unfolding replaced
all_slug-replaced [] = refl
all_slug-replaced (c ∷ s) =
    if-either (λ d. is_slug d && all_slug (replaced s) ≡ true) (is_slug c)
      (λ fits. ap (λ b. b && all_slug (replaced s)) fits ∙ all_slug-replaced s)
      (λ other. all_slug-replaced s)

both : (a b : Bool) → a ≡ true → b ≡ true → a && b ≡ true
both a b h k = ground (arith, h, k)

split : (a b : Bool) → a && b ≡ true → (a ≡ true) × (b ≡ true)
split a b h = ground (arith, h)

collapsed-Spaced : (s : String) → all_slug s ≡ true → Spaced (collapsed s)
unfolding collapsed
collapsed-Spaced [] fits = (refl, refl)
collapsed-Spaced (c ∷ s) fits =
    let (head, rest) = split (is_slug c) (all_slug s) fits in
    let (plain, spaced) = collapsed-Spaced s rest in
    if-either Spaced (is_hyphen c && starts_hyphen (collapsed s)) (λ again. (plain, spaced))
      (λ new. (
        both (is_slug c) (all_slug (collapsed s)) head plain,
        both (not (is_hyphen c && starts_hyphen (collapsed s))) (is_spaced (collapsed s))
            (ap not new) spaced,
      ))

without_first-Spaced :
    (s : String) → Spaced s → Spaced (without_first s) × (starts_hyphen (without_first s) ≡ false)
unfolding without_first
without_first-Spaced [] (plain, spaced) = ((plain, spaced), refl)
without_first-Spaced (c ∷ s) (plain, spaced) =
    let (head, rest) = split (is_slug c) (all_slug s) plain in
    let (apart, later) = split (not (is_hyphen c && starts_hyphen s)) (is_spaced s) spaced in
    if-either (λ t. Spaced t × (starts_hyphen t ≡ false)) (is_hyphen c)
      (λ here. ((rest, later), ground (arith, apart, here))) (λ other. ((plain, spaced), other))

without_last-starts :
    (s : String) → starts_hyphen s ≡ false → starts_hyphen (without_last s) ≡ false
unfolding without_last
without_last-starts [] first = refl
without_last-starts (c ∷ []) first =
    if-either (λ t. starts_hyphen t ≡ false) (is_hyphen c) (λ here. refl) (λ other. first)
without_last-starts (c ∷ d ∷ s) first = first

-- What stands before a text without its last hyphen.
still_apart :
    (h before behind : Bool)
    → not (h && before) ≡ true
    → (before ≡ false → behind ≡ false)
    → not (h && behind) ≡ true
still_apart false before behind apart kept = refl
still_apart true true behind apart kept = ground arith
still_apart true false behind apart kept = ap not (kept refl)

without_last-Spaced : (s : String) → Spaced s → Spaced (without_last s)
unfolding without_last
without_last-Spaced [] fits = fits
without_last-Spaced (c ∷ []) fits =
    if-either Spaced (is_hyphen c) (λ here. (refl, refl)) (λ other. fits)
without_last-Spaced (c ∷ d ∷ s) (plain, spaced) =
    let (head, rest) = split (is_slug c) (all_slug (d ∷ s)) plain in
    let (apart, later) =
      split (not (is_hyphen c && starts_hyphen (d ∷ s))) (is_spaced (d ∷ s)) spaced in
    let (plain', spaced') = without_last-Spaced (d ∷ s) (rest, later) in
    let kept =
      still_apart (is_hyphen c) (starts_hyphen (d ∷ s)) (starts_hyphen (without_last (d ∷ s))) apart
        (without_last-starts (d ∷ s)) in
    (
      both (is_slug c) (all_slug (without_last (d ∷ s))) head plain',
      both (not (is_hyphen c && starts_hyphen (without_last (d ∷ s))))
          (is_spaced (without_last (d ∷ s))) kept spaced',
    )

without_last-ends : (s : String) → is_spaced s ≡ true → ends_hyphen (without_last s) ≡ false
unfolding without_last
without_last-ends [] spaced = refl
without_last-ends (c ∷ []) spaced =
    if-either (λ t. ends_hyphen t ≡ false) (is_hyphen c) (λ here. refl) (λ other. other)
without_last-ends (c ∷ d ∷ []) spaced =
    if-either (λ t. ends_hyphen (c ∷ t) ≡ false) (is_hyphen d)
      (λ here. ground (arith, spaced, here)) (λ other. other)
without_last-ends (c ∷ d ∷ e ∷ s) spaced =
    let (apart, later) = split (not (is_hyphen c && is_hyphen d)) (is_spaced (d ∷ e ∷ s)) spaced in
    without_last-ends (d ∷ e ∷ s) later

-- Whatever is typed and whatever toLowerCase does, the name of a channel is made of small letters,
-- digits and hyphens, has no two hyphens side by side and none at its start or end.
pub slugify_lem :
    (lower : String → String) (input : String)
    → (all_slug (slugify lower input) ≡ true)
      × (is_spaced (slugify lower input) ≡ true)
      × (starts_hyphen (slugify lower input) ≡ false)
      × (ends_hyphen (slugify lower input) ≡ false)
unfolding slugify
slugify_lem lower input =
    let base = replaced (lower input) in
    let middle = collapsed-Spaced base (all_slug-replaced (lower input)) in
    let (fits, first) = without_first-Spaced (collapsed base) middle in
    let cut = without_first (collapsed base) in
    let (plain, spaced) = without_last-Spaced cut fits in
    (plain, spaced, without_last-starts cut first, without_last-ends cut fits.1)

-- A text that has this shape is left as it is.
replaced-slug : (s : String) → all_slug s ≡ true → replaced s ≡ s
unfolding replaced
replaced-slug [] fits = refl
replaced-slug (c ∷ s) fits =
    let (head, rest) = split (is_slug c) (all_slug s) fits in
    ap (λ b. (if b then c else hyphen) ∷ replaced s) head ∙ ap (◌∷◌ c) (replaced-slug s rest)

collapsed-spaced : (s : String) → is_spaced s ≡ true → collapsed s ≡ s
unfolding collapsed
collapsed-spaced [] spaced = refl
collapsed-spaced (c ∷ s) spaced =
    let (apart, later) = split (not (is_hyphen c && starts_hyphen s)) (is_spaced s) spaced in
    let same = collapsed-spaced s later in
    let new : is_hyphen c && starts_hyphen (collapsed s) ≡ false =
      ap (λ t. is_hyphen c && starts_hyphen t) same ∙ ground (arith, apart) in
    ap (λ b. if b then collapsed s else c ∷ collapsed s) new ∙ ap (◌∷◌ c) same

without_first-other : (s : String) → starts_hyphen s ≡ false → without_first s ≡ s
unfolding without_first
without_first-other [] other = refl
without_first-other (c ∷ s) other = ap (λ b. if b then s else c ∷ s) other

without_last-other : (s : String) → ends_hyphen s ≡ false → without_last s ≡ s
unfolding without_last
without_last-other [] other = refl
without_last-other (c ∷ []) other = ap (λ b. if b then [] else c ∷ []) other
without_last-other (c ∷ d ∷ s) other = ap (◌∷◌ c) (without_last-other (d ∷ s) other)

-- Where toLowerCase leaves the name alone that was made, making a name of it gives it back.
pub slugify_again :
    (lower : String → String) (input : String)
    → lower (slugify lower input) ≡ slugify lower input
    → slugify lower (slugify lower input) ≡ slugify lower input
unfolding slugify
slugify_again lower input small =
    let t = slugify lower input in
    let (plain, spaced, first, last) = slugify_lem lower input in
    ap (λ u. without_last (without_first (collapsed (replaced u)))) small
    ∙ ap (λ u. without_last (without_first (collapsed u))) (replaced-slug t plain)
    ∙ ap (λ u. without_last (without_first u)) (collapsed-spaced t spaced)
    ∙ ap without_last (without_first-other t first)
    ∙ without_last-other t last

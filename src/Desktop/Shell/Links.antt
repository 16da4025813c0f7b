-- ===== src/Desktop/Shell/Links.antt =====
-- Deep links that reach the window.
use agentunited.Prelude.{
  String, true, false, Option, none, some, List, [], ◌∷◌, ◌++◌, find, if-either, ◌≡◌, refl, ap, ◌∙◌,
}
use agentunited.Desktop.Shell.{
  Effect, Window, send, focus, refocus, handle_deep_link, second_instance, follow, is_link,
}

-- What effects send to the window, with the channel that it is sent on.
unfoldable pub messages : List Effect → List (String × String)
messages [] = []
messages (send channel payload ∷ es) = (channel, payload) ∷ messages es
messages (_ ∷ es) = messages es

abbrev pub AreNoLinks : List String → Type 0
AreNoLinks [] = Unit
AreNoLinks (arg ∷ args) = (is_link arg ≡ false) × AreNoLinks args

find-first :
    (before after : List String) (url : String)
    → AreNoLinks before
    → is_link url ≡ true
    → find is_link (before ++ url ∷ after) ≡ some url
find-first [] after url others link = rw link refl
find-first (arg ∷ before) after url (other, others) link =
    rw other (find-first before after url others link)

refocus-messages : (o : Option Window) → messages (refocus o) ≡ []
unfolding messages
refocus-messages none = refl
refocus-messages (some w) =
    if-either (λ es. messages (es ++ focus ∷ []) ≡ []) w.is_minimized (λ m. refl) (λ m. refl)

follow-messages :
    (w : Window) (later : Option Window) (url : String)
    → messages (follow (some w) later (some url)) ≡ ("deep-link", url) ∷ []
unfolding follow handle_deep_link messages
follow-messages w later url =
    if-either
      (λ es.
        messages ((es ++ focus ∷ send "deep-link" url ∷ []) ++ refocus later)
        ≡ ("deep-link", url) ∷ [])
      w.is_minimized (λ m. ap (λ ms. ("deep-link", url) ∷ ms) (refocus-messages later))
      (λ m. ap (λ ms. ("deep-link", url) ∷ ms) (refocus-messages later))

-- A second instance that is started with a link sends the window the first of its arguments that is
-- a link, and nothing else.
pub second_instance_lem :
    (w : Window) (later : Option Window) (before after : List String) (url : String)
    → AreNoLinks before
    → is_link url ≡ true
    → messages (second_instance (some w) later (before ++ url ∷ after)) ≡ ("deep-link", url) ∷ []
unfolding second_instance
second_instance_lem w later before after url others link =
    ap (λ o. messages (follow (some w) later o)) (find-first before after url others link)
    ∙ follow-messages w later url

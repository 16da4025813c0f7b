-- ===== src/Web/Chat/Errors.antt =====
-- Failing requests.
use Prim.Native.Char.{Char}
use agentunited.Prelude.{ℕ, String, Bool, true, Option, some, [], ◌≡◌, arith, ◌⊎◌}
use agentunited.Prelude.Dict.{Dict}
use agentunited.Web.Chat.{
  ApiMessage, ApiChannel, Listing, HttpResponse, ok, thrown, empty, unreadable, api_request,
  get_channels, get_messages, send_message, list_dms,
}

module _ (show : ℕ → String) (lower : String → String) (is_space : Char → Bool)
    (upper : Char → Char) (store : Dict String) where
  -- A success with an empty body, or with one that is no JSON, is an empty list for getChannels,
  -- and makes getMessages, listDMs and sendMessage throw a TypeError.
  pub empty_answers :
      (c : HttpResponse (Listing ApiChannel)) (l : HttpResponse (Listing ApiMessage))
      (m : HttpResponse (Option ApiMessage))
      → c.ok ≡ true
      → l.ok ≡ true
      → m.ok ≡ true
      → (c.body ≡ empty) ⊎ (c.body ≡ unreadable)
      → (l.body ≡ empty) ⊎ (l.body ≡ unreadable)
      → (m.body ≡ empty) ⊎ (m.body ≡ unreadable)
      → (get_channels show lower is_space upper store (some c) ≡ ok [])
        × (list_dms show lower is_space upper store (some c) ≡ thrown)
        × (get_messages show lower is_space upper store (some l) ≡ thrown)
        × (send_message show lower is_space upper store (some m) ≡ thrown)
  unfolding get_channels list_dms get_messages send_message api_request
  empty_answers c l m fine fine' fine'' none_c none_l none_m =
      (ground arith, ground arith, ground arith, ground arith)

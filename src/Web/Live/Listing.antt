-- ===== src/Web/Live/Listing.antt =====
-- The messages that the page shows.
use Prim.Native.Char.{Char}
use agentunited.Prelude.{
  ℕ, String, Bool, true, false, ◌||◌, Option, none, some, List, [], ◌∷◌, ◌++◌, ◌≡◌, refl, ◌∙◌, ap,
  subst, arith, All, str_eq, eq_iff, Bool-cases, inl, inr,
}
use agentunited.Prelude.Js.{Value, undefined, null, str, num, bool, get, ◌or_else◌, is_text}
use agentunited.Web.Live.{
  Live, Message, strict_eq, has_id, add_new, load_messages, on_message, message_of, accept,
  send_message, is_message_type,
}

strict_eq_comm : (a b : Value) → strict_eq a b ≡ strict_eq b a
strict_eq_comm (str s) (str t) = ground (arith, eq_iff s t, eq_iff t s)
strict_eq_comm (num n) (num m) = ground arith
strict_eq_comm (bool true) (bool true) = refl
strict_eq_comm (bool true) (bool false) = refl
strict_eq_comm (bool false) (bool true) = refl
strict_eq_comm (bool false) (bool false) = refl
strict_eq_comm a b = ground arith

-- No two messages of a list have the same id.
abbrev pub Distinct : List Message → Type 0
Distinct [] = Unit
Distinct (m ∷ ms) = (has_id m.id ms ≡ false) × Distinct ms

has_id-append_one :
    (id : Value) (m : Message) (ms : List Message)
    → has_id id (ms ++ m ∷ []) ≡ (has_id id ms || strict_eq m.id id)
has_id-append_one id m [] = ground arith
has_id-append_one id m (x ∷ ms) = ground (arith, has_id-append_one id m ms)

Distinct-append_one :
    (m : Message) (ms : List Message)
    → has_id m.id ms ≡ false
    → Distinct ms
    → Distinct (ms ++ m ∷ [])
Distinct-append_one m [] new d = (refl, tt)
Distinct-append_one m (x ∷ ms) new d = (
  ground (arith, has_id-append_one x.id m ms, strict_eq_comm x.id m.id),
  Distinct-append_one m ms (ground arith) d.1,
)

add_new-Distinct : (m : Message) (ms : List Message) → Distinct ms → Distinct (add_new m ms)
add_new-Distinct m ms d = elim (Bool-cases (has_id m.id ms)) [
  | inl old ↦ rw old d
  | inr new ↦ rw new (Distinct-append_one m ms new d)
]

accept-Distinct :
    (channel : String) (o : Option Message) (s : Live)
    → Distinct s.messages
    → Distinct (accept channel o s).messages
unfolding accept
accept-Distinct channel none s d = d
accept-Distinct channel (some m) s d = elim (Bool-cases (is_text channel m.channel_id)) [
  | inl e ↦ rw e (add_new-Distinct m s.messages d)
  | inr e ↦ rw e d
]

strict_eq→eq : (a b : Value) → strict_eq a b ≡ true → a ≡ b
strict_eq→eq undefined undefined h = refl
strict_eq→eq null null h = refl
strict_eq→eq (str s) (str t) h = ap str ((eq_iff s t).0 h)
strict_eq→eq (num n) (num m) h = ground arith
strict_eq→eq (bool true) (bool true) h = refl
strict_eq→eq (bool false) (bool false) h = refl
strict_eq→eq a b h = ground arith

has_id-add_new :
    (m m' : Message) (ms : List Message)
    → strict_eq m.id m'.id ≡ true
    → has_id m'.id (add_new m ms) ≡ true
has_id-add_new m m' ms same = elim (Bool-cases (has_id m.id ms)) [
  | inl old ↦ rw old (subst (λ id. has_id id ms ≡ true) (strict_eq→eq m.id m'.id same) old)
  | inr new ↦ rw new (ground (arith, has_id-append_one m'.id m ms))
]

accept_old :
    (channel : String) (m : Message) (s : Live)
    → has_id m.id s.messages ≡ true
    → accept channel (some m) s ≡ s
unfolding accept
accept_old channel m s old = ground arith

sent_over_http :
    (opened : ℕ → Bool) (channel text : String) (m : Message) (s : Live)
    → s.ws ≡ none
    → (send_message opened channel text (some m) s).0 ≡ record s { messages = add_new m s.messages }
unfolding send_message
sent_over_http opened channel text m s closed = ground arith

not_connected : (t : Value) → is_message_type t ≡ true → is_text "connected" t ≡ false
not_connected (str s) h = elim (Bool-cases (str_eq s "connected")) [
  | inl e ↦
      let other : is_message_type (str "connected") ≡ true =
        subst (λ x. is_message_type (str x) ≡ true) ((eq_iff s "connected").0 e) h in
      cc other
  | inr e ↦ e
]
not_connected t h = refl

module _ (is_space : Char → Bool) (upper : Char → Char) (text_of : Value → String) where
  -- Everything that changes the list, for one channel; the channel's own history replaces it.
  pub data Event : Type 0 where
    loads : Bool → Option (List Message) → Event
    receives : String → String → Value → Event
    sends : (ℕ → Bool) → String → Option Message → Event

  pub step : String → Event → Live → Live
  step channel (loads cancelled fetched) s = load_messages channel cancelled fetched s
  step channel (receives id now v) s = on_message is_space upper text_of channel id now v s
  step channel (sends opened text sent) s = (send_message opened channel text sent s).0

  pub run : String → List Event → Live → Live
  run channel [] s = s
  run channel (e ∷ es) s = run channel es (step channel e s)

  -- The history that the server answers with has no id twice.
  abbrev pub IsClean : Event → Type 0
  IsClean (loads cancelled (some ms)) = Distinct ms
  IsClean _ = Unit

  on_message-Distinct :
      (channel id now : String) (v : Value) (s : Live)
      → Distinct s.messages
      → Distinct (on_message is_space upper text_of channel id now v s).messages
  unfolding on_message
  on_message-Distinct channel id now v s d =
      let m = message_of is_space upper channel id now s.store (get "data" v or_else v) in
      ground (arith, accept-Distinct channel m s d)

  step-Distinct :
      (channel : String) (e : Event) (s : Live)
      → IsClean e
      → Distinct s.messages
      → Distinct (step channel e s).messages
  unfolding step load_messages send_message
  step-Distinct channel (loads cancelled none) s c d = ground arith
  step-Distinct channel (loads cancelled (some ms)) s c d = ground arith
  step-Distinct channel (receives id now v) s c d = on_message-Distinct channel id now v s d
  step-Distinct channel (sends opened text none) s c d = ground arith
  step-Distinct channel (sends opened text (some m)) s c d =
      ground (arith, add_new-Distinct m s.messages d)

  -- Whatever arrives over the socket and over HTTP, and in whatever order, no message is shown
  -- twice, as long as the histories that are loaded hold none twice.
  pub run-Unique :
      (channel : String) (es : List Event) (s : Live)
      → All IsClean es
      → Distinct s.messages
      → Distinct (run channel es s).messages
  unfolding run
  run-Unique channel [] s c d = d
  run-Unique channel (e ∷ es) s (c, cs) d =
      run-Unique channel es (step channel e s) cs (step-Distinct channel e s c d)

  on_message-accept :
      (channel id now : String) (v : Value) (s : Live)
      → is_message_type (get "type" v) ≡ true
      → on_message is_space upper text_of channel id now v s
        ≡ accept channel
            (message_of is_space upper channel id now s.store (get "data" v or_else v))
            s
  unfolding on_message
  on_message-accept channel id now v s typed = rw (not_connected (get "type" v) typed, typed) refl

  -- A message that was sent over HTTP is not added again when its event arrives: an event whose
  -- message has the id that the answer had changes nothing.
  pub echo_once :
      (channel id now text : String) (opened : ℕ → Bool) (v : Value) (m m' : Message) (s : Live)
      → s.ws ≡ none
      → message_of is_space upper channel id now s.store (get "data" v or_else v) ≡ some m'
      → strict_eq m.id m'.id ≡ true
      → is_message_type (get "type" v) ≡ true
      → on_message is_space upper text_of channel id now v
          (send_message opened channel text (some m) s).0
        ≡ (send_message opened channel text (some m) s).0
  echo_once channel id now text opened v m m' s closed read same typed =
      let s' : Live = record s { messages = add_new m s.messages } in
      let sent : (send_message opened channel text (some m) s).0 ≡ s' =
        sent_over_http opened channel text m s closed in
      rw sent (
        on_message-accept channel id now v s' typed
        ∙ ap (λ o. accept channel o s') read
        ∙ accept_old channel m' s' (has_id-add_new m m' s.messages same))

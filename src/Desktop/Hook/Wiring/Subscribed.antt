-- ===== src/Desktop/Hook/Wiring/Subscribed.antt =====
-- However often the effect runs, the callbacks of one run are subscribed.
use agentunited.Prelude.{
  ℕ, String, Bool, false, List, [], ◌∷◌, ◌++◌, ◌≡◌, refl, sym, ap, ◌∙◌, ◌==◌, str_eq, if◌then◌else◌,
  any, append_assoc, append-nil, Bool-cases, inl, inr, All,
}
use agentunited.Prelude.Dict.{get_or}
use agentunited.Desktop.Service.{
  Service, on, unsubscribe, on_connection_change, off_connection_change, remove_first,
}
use agentunited.Desktop.Service.Listeners.{
  callbacks, callbacks-on, callbacks-unsubscribe, remove_first-append, connection_listeners-on,
  connection_listeners-off, connection_listeners-on_message,
}
use agentunited.Desktop.Hook.{Hook}
use agentunited.Desktop.Hook.Wiring.{
  Callbacks, events, on_all, unsubscribe_all, subscribe, cleanup, resubscribe,
}

-- Those of the subscriptions that are for a type.
abbrev pub for_type : String → List (String × ℕ) → List ℕ
for_type type [] = []
for_type type ((t, c) ∷ es) =
    let rest = for_type type es in if str_eq t type then c ∷ rest else rest

abbrev is_in : ℕ → List ℕ → Bool
is_in c xs = any (λ x. x == c) xs

-- No callback for the type is among those given.
abbrev pub IsNewFor : String → List (String × ℕ) → List ℕ → Type 0
IsNewFor type [] xs = Unit
IsNewFor type ((t, c) ∷ es) xs = (is_in c xs ≡ false) × IsNewFor type es xs

-- The functions of a run are none that the service had before the hook.
pub record IsNew (s : Service) (cb : Callbacks) : Type 0 where
  pub connection : is_in cb.to_connection s.connection_listeners ≡ false
  pub messages : (type : String) → IsNewFor type (events cb) (callbacks type s)

-- The service has what it had, and the callbacks of the one run.
pub record HasSubscribed (before : Service) (cb : Callbacks) (s : Service) : Type 0 where
  pub connection : s.connection_listeners ≡ before.connection_listeners ++ cb.to_connection ∷ []
  pub messages :
      (type : String) → callbacks type s ≡ callbacks type before ++ for_type type (events cb)

callbacks-on_all :
    (type : String) (es : List (String × ℕ)) (s : Service)
    → callbacks type (on_all es s) ≡ callbacks type s ++ for_type type es
unfolding on_all
callbacks-on_all type [] s = sym (append-nil (callbacks type s))
callbacks-on_all type ((t, c) ∷ es) s = elim (Bool-cases (str_eq t type)) [
  | inl e ↦
      callbacks-on_all type es (on t c s)
      ∙ rw (callbacks-on t type c s)
          (rw e (append_assoc (callbacks type s) (c ∷ []) (for_type type es)))
  | inr e ↦ callbacks-on_all type es (on t c s) ∙ rw (callbacks-on t type c s) (rw e refl)
]

callbacks-unsubscribe_all :
    (type : String) (es : List (String × ℕ)) (old : List ℕ) (s : Service)
    → IsNewFor type es old
    → callbacks type s ≡ old ++ for_type type es
    → callbacks type (unsubscribe_all es s) ≡ old
unfolding unsubscribe_all
callbacks-unsubscribe_all type [] old s new e = e ∙ append-nil old
callbacks-unsubscribe_all type ((t, c) ∷ es) old s (n, new) h =
    callbacks-unsubscribe_all type es old (unsubscribe t c s) new (
      callbacks-unsubscribe t type c s ∙ elim (Bool-cases (str_eq t type)) [
        | inl e ↦
            let found : callbacks type s ≡ old ++ c ∷ for_type type es = h ∙ rw e refl in
            rw e (ap (remove_first c) found ∙ remove_first-append c old (for_type type es) n)
        | inr e ↦
            let found : callbacks type s ≡ old ++ for_type type es = h ∙ rw e refl in rw e found
      ])

connection-on_all :
    (es : List (String × ℕ)) (s : Service)
    → (on_all es s).connection_listeners ≡ s.connection_listeners
unfolding on_all
connection-on_all [] s = refl
connection-on_all ((t, c) ∷ es) s =
    connection-on_all es (on t c s) ∙ (connection_listeners-on_message t c s).0

connection-unsubscribe_all :
    (es : List (String × ℕ)) (s : Service)
    → (unsubscribe_all es s).connection_listeners ≡ s.connection_listeners
unfolding unsubscribe_all
connection-unsubscribe_all [] s = refl
connection-unsubscribe_all ((t, c) ∷ es) s =
    connection-unsubscribe_all es (unsubscribe t c s) ∙ (connection_listeners-on_message t c s).1

-- Where two services have the same callbacks.
pub record HasSame (before s : Service) : Type 0 where
  pub connection : s.connection_listeners ≡ before.connection_listeners
  pub messages : (type : String) → callbacks type s ≡ callbacks type before

subscribe-HasSubscribed :
    (before : Service) (cb : Callbacks) (s : Service)
    → HasSame before s
    → HasSubscribed before cb (subscribe cb s)
unfolding subscribe
subscribe-HasSubscribed before cb s same =
    let (c, m) = connection_listeners-on cb.to_connection s in
    let s' = on_connection_change cb.to_connection s in
    record {
      connection =
          connection-on_all (events cb) s'
          ∙ c
          ∙ ap (λ xs. xs ++ cb.to_connection ∷ []) same.connection;
      messages = λ type.
          callbacks-on_all type (events cb) s'
          ∙ ap (λ d. get_or type [] d ++ for_type type (events cb)) m
          ∙ ap (λ xs. xs ++ for_type type (events cb)) (same.messages type);
    }

-- The cleanup of a run takes away what the run has subscribed, no more and no less.
cleanup-HasSame :
    (before : Service) (cb : Callbacks) (s : Service) (h : Hook)
    → IsNew before cb
    → HasSubscribed before cb s
    → HasSame before (cleanup cb (s, h)).0
unfolding cleanup
cleanup-HasSame before cb s h new has =
    let (c, m) = connection_listeners-off cb.to_connection s in
    let s' = off_connection_change cb.to_connection s in
    record {
      connection =
          connection-unsubscribe_all (events cb) s'
          ∙ c
          ∙ ap (remove_first cb.to_connection) has.connection
          ∙ remove_first-append cb.to_connection before.connection_listeners [] new.connection
          ∙ append-nil before.connection_listeners;
      messages = λ type.
          callbacks-unsubscribe_all type (events cb) (callbacks type before) s' (new.messages type)
            (ap (get_or type []) m ∙ has.messages type);
    }

-- The runs of the effect, each behind the cleanup of the one before.
abbrev pub rerun : Callbacks → List Callbacks → Service × Hook → Service × Hook
rerun cb [] w = w
rerun cb (next ∷ cbs) w = rerun next cbs (resubscribe cb next w)

abbrev pub latest : Callbacks → List Callbacks → Callbacks
latest cb [] = cb
latest cb (next ∷ cbs) = latest next cbs

latest-IsNew :
    (s : Service) (cb : Callbacks) (cbs : List Callbacks)
    → IsNew s cb
    → All (IsNew s) cbs
    → IsNew s (latest cb cbs)
latest-IsNew s cb [] new news = new
latest-IsNew s cb (next ∷ cbs) new (n, news) = latest-IsNew s next cbs n news

rerun-HasSubscribed :
    (before : Service) (cb : Callbacks) (cbs : List Callbacks) (s : Service) (h : Hook)
    → IsNew before cb
    → All (IsNew before) cbs
    → HasSubscribed before cb s
    → HasSubscribed before (latest cb cbs) (rerun cb cbs (s, h)).0
unfolding resubscribe
rerun-HasSubscribed before cb [] s h new news has = has
rerun-HasSubscribed before cb (next ∷ cbs) s h new (n, news) has =
    let w = cleanup cb (s, h) in
    rerun-HasSubscribed before next cbs (subscribe next w.0) w.1 n news
      (subscribe-HasSubscribed before next w.0 (cleanup-HasSame before cb s h new has))

-- However often the channel is switched, the service calls, for every type of message and for the
-- connection, what it called before the hook was mounted, and then the functions of the latest run
-- of the effect, each once; and when the hook is taken away, exactly what it called before it. The
-- functions of a run have to be new ones.
pub rerun-subscribes :
    (s : Service) (h : Hook) (cb : Callbacks) (cbs : List Callbacks)
    → IsNew s cb
    → All (IsNew s) cbs
    → HasSubscribed s (latest cb cbs) (rerun cb cbs (subscribe cb s, h)).0
      × HasSame s (cleanup (latest cb cbs) (rerun cb cbs (subscribe cb s, h))).0
rerun-subscribes s h cb cbs new news =
    let w : Service × Hook = rerun cb cbs (subscribe cb s, h) in
    let mounted =
      subscribe-HasSubscribed s cb s (record { connection = refl; messages = λ type. refl }) in
    let has = rerun-HasSubscribed s cb cbs (subscribe cb s) h new news mounted in
    (has, cleanup-HasSame s (latest cb cbs) w.0 w.1 (latest-IsNew s cb cbs new news) has)

-- ===== src/Desktop/Hook/Typing.antt =====
-- Who is typing in which channel.
use agentunited.Prelude.{
  ℕ, ◌≡◌, refl, String, Bool, false, not, ◌&&◌, ◌||◌, List, [], ◌∷◌, ◌++◌, arith, str_eq, eq_iff,
  if◌then◌else◌, any,
}
use agentunited.Prelude.Dict.{get_or, lookup-insert}
use agentunited.Desktop.Hook.{
  Hook, UserData, typing_start, typing_stop, typing_expired, is_user, without_user,
}

abbrev pub typing_in : String → Hook → List UserData
typing_in c s = get_or c [] s.typing_users

-- Whether the user with this id is shown as typing in channel c.
abbrev pub is_typing : String → String → Hook → Bool
is_typing c u s = any (is_user u) (typing_in c s)

any-append_one :
    (u : String) (v : UserData) (us : List UserData)
    → any (is_user u) (us ++ v ∷ []) ≡ (any (is_user u) us || str_eq v.id u)
any-append_one u v [] = ground arith
any-append_one u v (w ∷ us) = ground (arith, any-append_one u v us)

any-without :
    (u v : String) (us : List UserData)
    → any (is_user u) (without_user v us) ≡ (not (str_eq u v) && any (is_user u) us)
any-without u v [] = ground arith
any-without u v (w ∷ us) =
    ground (arith, any-without u v us, eq_iff w.id u, eq_iff w.id v, eq_iff u v)

-- The ids in a list are pairwise different.
abbrev pub Distinct : List UserData → Type 0
Distinct [] = Unit
Distinct (u ∷ us) = (any (is_user u.id) us ≡ false) × Distinct us

Distinct-append_one :
    (v : UserData) (us : List UserData)
    → any (is_user v.id) us ≡ false
    → Distinct us
    → Distinct (us ++ v ∷ [])
Distinct-append_one v [] n d = (refl, tt)
Distinct-append_one v (w ∷ us) n d = (
  ground (arith, any-append_one w.id v us, eq_iff v.id w.id, eq_iff w.id v.id),
  Distinct-append_one v us (ground arith) d.1,
)

Distinct-without : (v : String) (us : List UserData) → Distinct us → Distinct (without_user v us)
Distinct-without v [] d = tt
Distinct-without v (w ∷ us) d = ground (arith, Distinct-without v us d.1, any-without w.id v us)

typing_in-start :
    (c c' : String) (u : UserData) (h : ℕ) (s : Hook)
    → typing_in c' (typing_start c u h s) ≡ (
        if str_eq c c' && not (is_typing c u.id s) then typing_in c s ++ u ∷ [] else typing_in c' s)
unfolding typing_start
typing_in-start c c' u h s =
    ground (arith, eq_iff c c', lookup-insert c c' (typing_in c s ++ u ∷ []) s.typing_users)

typing_in-expired :
    (c c' u : String) (s : Hook)
    → typing_in c' (typing_expired c u s)
      ≡ (if str_eq c c' then without_user u (typing_in c s) else typing_in c' s)
unfolding typing_expired
typing_in-expired c c' u s =
    ground (arith, eq_iff c c', lookup-insert c c' (without_user u (typing_in c s)) s.typing_users)

typing_in-stop :
    (c c' : String) (u : UserData) (s : Hook)
    → typing_in c' (typing_stop c u s) ≡ typing_in c' (typing_expired c u.id s)
unfolding typing_stop typing_expired
typing_in-stop c c' u s = refl

-- `typing.start` adds exactly one pair of a channel and a user to those shown, and `typing.stop`
-- removes exactly one, as the expired timeout does.
pub is_typing_lem :
    (c c' u' : String) (u : UserData) (h : ℕ) (s : Hook)
    → (is_typing c' u' (typing_start c u h s)
        ≡ (is_typing c' u' s || (str_eq c c' && str_eq u.id u')))
      × (is_typing c' u' (typing_stop c u s)
          ≡ (is_typing c' u' s && not (str_eq c c' && str_eq u' u.id)))
      × (is_typing c' u' (typing_expired c u.id s) ≡ is_typing c' u' (typing_stop c u s))
is_typing_lem c c' u' u h s = (
  ground (
    arith,
    typing_in-start c c' u h s,
    any-append_one u' u (typing_in c s),
    eq_iff c c',
    eq_iff u.id u',
  ),
  rw (typing_in-stop c c' u s) (
      ground (
        arith,
        typing_in-expired c c' u.id s,
        any-without u' u.id (typing_in c s),
        eq_iff c c',
        eq_iff u' u.id,
      )),
  rw (typing_in-stop c c' u s),
)

pub data Event : Type 0 where
  starts : String → UserData → ℕ → Event
  stops : String → UserData → Event
  expires : String → String → Event

unfoldable pub run : List Event → Hook → Hook
run [] s = s
run (starts c u h ∷ es) s = run es (typing_start c u h s)
run (stops c u ∷ es) s = run es (typing_stop c u s)
run (expires c u ∷ es) s = run es (typing_expired c u s)

Distinct-start :
    (c c' : String) (u : UserData) (h : ℕ) (s : Hook)
    → ((k : String) → Distinct (typing_in k s))
    → Distinct (typing_in c' (typing_start c u h s))
Distinct-start c c' u h s d =
    rw (typing_in-start c c' u h s)
      (ground (arith, d c', Distinct-append_one u (typing_in c s), d c))

Distinct-expired :
    (c c' u : String) (s : Hook)
    → ((k : String) → Distinct (typing_in k s))
    → Distinct (typing_in c' (typing_expired c u s))
Distinct-expired c c' u s d =
    rw (typing_in-expired c c' u s) (ground (arith, d c', Distinct-without u (typing_in c s), d c))

-- Whatever typing events arrive, no user is listed twice in a channel.
pub run-Distinct :
    (es : List Event) (s : Hook)
    → ((c : String) → Distinct (typing_in c s))
    → (c : String) → Distinct (typing_in c (run es s))
unfolding run
run-Distinct [] s d = d
run-Distinct (starts c u h ∷ es) s d = run-Distinct es _ (λ c'. Distinct-start c c' u h s d)
run-Distinct (stops c u ∷ es) s d =
    run-Distinct es _ (λ c'. rw (typing_in-stop c c' u s) (Distinct-expired c c' u.id s d))
run-Distinct (expires c u ∷ es) s d = run-Distinct es _ (λ c'. Distinct-expired c c' u s d)

-- ===== src/Desktop/Accessibility/Announcing.antt =====
-- What the screen reader is given to speak, and in which order.
use agentunited.Prelude.{
  ℕ, suc, zero, ◌-◌, String, true, false, Option, none, some, List, [], ◌∷◌, ◌++◌, append-nil,
  append_assoc, length, ◌==◌, is_some, if◌then◌else◌, ◌≡◌, refl, sym, ap, ◌∙◌, arith, Bool-cases,
  inl, inr,
}
use agentunited.Desktop.Accessibility.{
  Reader, Region, Spoken, Priority, process_queue, speak, announce_in, region_of, cleared, announce,
  timer_fired, silent,
}

pub data Event : Type 0 where
  announces : String → Priority → Event
  fires : Event

-- A timeout fires only while one is pending.
pub step : Event → Reader → Reader × List Spoken
step (announces m p) r = announce true m p r
step fires r = if r.timers == 0 then (r, []) else timer_fired r

pub run : List Event → Reader → Reader × List Spoken
run [] r = (r, [])
run (e ∷ es) r =
    let (r', spoken) = step e r in let (r'', later) = run es r' in (r'', spoken ++ later)

abbrev pub texts : List Spoken → List String
texts [] = []
texts ((m, p) ∷ out) = m ∷ texts out

abbrev pub asked : List Event → List String
asked [] = []
asked (announces m p ∷ es) = m ∷ asked es
asked (fires ∷ es) = asked es

texts-append : (a b : List Spoken) → texts (a ++ b) ≡ texts a ++ texts b
texts-append [] b = refl
texts-append ((m, p) ∷ a) b = ap (◌∷◌ m) (texts-append a b)

-- What a step keeps: there is a region, and each message is spoken or in the queue.
abbrev Accounts : List String → Reader × List Spoken → Type 0
Accounts messages (r, out) =
    (is_some r.live_region ≡ true) × (texts out ++ r.announce_queue ≡ messages)

speak-Accounts :
    (q : List String) (g : Option Region) (r : Reader)
    → r.announce_queue ≡ q
    → r.live_region ≡ g
    → is_some g ≡ true
    → Accounts q (speak q g r)
unfolding speak
speak-Accounts [] g r e e' region = (rw e' region, e)
speak-Accounts (m ∷ q) none r e e' region = cc region
speak-Accounts (m ∷ q) (some g) r e e' region = (refl, refl)

process-Accounts :
    (r : Reader) → is_some r.live_region ≡ true → Accounts r.announce_queue (process_queue r)
unfolding process_queue
process-Accounts r region = speak-Accounts r.announce_queue r.live_region r refl refl region

region_of-IsSome : (o : Option Region) → is_some (region_of true o) ≡ true
region_of-IsSome none = refl
region_of-IsSome (some g) = refl

announce-Accounts :
    (m : String) (p : Priority) (o : Option Region) (r : Reader)
    → is_some o ≡ true
    → Accounts (r.announce_queue ++ m ∷ []) (announce_in o m p r)
unfolding announce_in
announce-Accounts m p none r region = cc region
announce-Accounts m p (some g) r region = elim (Bool-cases r.is_announcing) [
  | inl busy ↦ rw busy (refl, refl)
  | inr free ↦ rw free (
      process-Accounts
        (record r {
          announce_queue = r.announce_queue ++ m ∷ [];
          is_announcing = false;
          live_region = some (record g { aria_live = p });
        })
        refl)
]

cleared-IsSome : (o : Option Region) → is_some o ≡ true → is_some (cleared o) ≡ true
cleared-IsSome (some g) h = refl
cleared-IsSome none h = cc h

step-Accounts :
    (e : Event) (r : Reader)
    → is_some r.live_region ≡ true
    → Accounts (r.announce_queue ++ asked (e ∷ [])) (step e r)
unfolding step announce timer_fired
step-Accounts (announces m p) r region =
    announce-Accounts m p (region_of true r.live_region) r (region_of-IsSome r.live_region)
step-Accounts fires r region = elim (Bool-cases (r.timers == 0)) [
  | inl none_pending ↦ rw none_pending (region, sym (append-nil r.announce_queue))
  | inr pending ↦
      rw (pending, append-nil r.announce_queue)
        (process-Accounts (record r { timers = r.timers - 1; live_region = cleared r.live_region })
          (cleared-IsSome r.live_region region))
]

asked-cons : (e : Event) (es : List Event) → asked (e ∷ es) ≡ asked (e ∷ []) ++ asked es
asked-cons (announces m p) es = refl
asked-cons fires es = refl

-- Every message that is announced is spoken once, in the order of the announcements: what has been
-- spoken and what is still in the queue make up the messages, for any history of announcements and
-- timeouts.
pub run-spoken :
    (es : List Event) (r : Reader)
    → is_some r.live_region ≡ true
    → texts (run es r).1 ++ (run es r).0.announce_queue ≡ r.announce_queue ++ asked es
unfolding run
run-spoken [] r region = sym (append-nil r.announce_queue)
run-spoken (e ∷ es) r region =
    let a = step-Accounts e r region in
    let r' : Reader = (step e r).0 in
    let out : List Spoken = (step e r).1 in
    let later : List Spoken = (run es r').1 in
    let ih = run-spoken es r' a.0 in
    rw
      (
        asked-cons e es,
        texts-append out later,
        append_assoc (texts out) (texts later) (run es r').0.announce_queue,
        ih,
      )
      (sym (append_assoc (texts out) r'.announce_queue (asked es))
        ∙ ap (λ l. l ++ asked es) a.1
        ∙ append_assoc r.announce_queue (asked (e ∷ [])) (asked es))

-- A timeout is pending exactly while a message is being announced, and nothing waits without one.
pub record IsTimed (r : Reader) : Type 0 where
  pub region : is_some r.live_region ≡ true
  pub busy : r.is_announcing ≡ true → r.timers ≡ 1
  pub free : r.is_announcing ≡ false → (r.timers ≡ 0) × (r.announce_queue ≡ [])

speak-IsTimed :
    (q : List String) (g : Option Region) (r : Reader)
    → r.announce_queue ≡ q
    → r.live_region ≡ g
    → is_some g ≡ true
    → r.timers ≡ 0
    → IsTimed (speak q g r).0
unfolding speak
speak-IsTimed [] g r e e' region none_pending = record {
  region = rw e' region;
  busy = λ h. cc h;
  free = λ h. (none_pending, e);
}
speak-IsTimed (m ∷ q) none r e e' region none_pending = cc region
speak-IsTimed (m ∷ q) (some g) r e e' region none_pending = record {
  region = refl;
  busy = λ h. omega (arith, none_pending);
  free = λ h. cc h;
}

announce_in-IsTimed :
    (m : String) (p : Priority) (o : Option Region) (r : Reader)
    → is_some o ≡ true
    → IsTimed r
    → IsTimed (announce_in o m p r).0
unfolding announce_in process_queue
announce_in-IsTimed m p none r region t = cc region
announce_in-IsTimed m p (some g) r region t = elim (Bool-cases r.is_announcing) [
  | inl busy ↦ rw busy (record { region = refl; busy = λ h. t.busy busy; free = λ h. cc h })
  | inr free ↦
      let queued : Reader = record r {
        announce_queue = r.announce_queue ++ m ∷ [];
        is_announcing = false;
        live_region = some (record g { aria_live = p });
      } in
      rw free (
        speak-IsTimed queued.announce_queue queued.live_region queued refl refl refl
          (t.free free).0)
]

one_pending : (r : Reader) → IsTimed r → (r.timers == 0) ≡ false → r.timers ≡ 1
one_pending r t h = elim (Bool-cases r.is_announcing) [
  | inl busy ↦ t.busy busy
  | inr free ↦ let e = (t.free free).0 in ground arith
]

step-IsTimed : (e : Event) (r : Reader) → IsTimed r → IsTimed (step e r).0
unfolding step announce timer_fired process_queue
step-IsTimed (announces m p) r t =
    announce_in-IsTimed m p (region_of true r.live_region) r (region_of-IsSome r.live_region) t
step-IsTimed fires r t = elim (Bool-cases (r.timers == 0)) [
  | inl none_pending ↦ rw none_pending t
  | inr pending ↦
      let fired : Reader = record r {
        timers = r.timers - 1;
        live_region = cleared r.live_region;
      } in
      let one = one_pending r t pending in
      rw pending (
        speak-IsTimed fired.announce_queue fired.live_region fired refl refl
          (cleared-IsSome r.live_region t.region) (omega (arith, one)))
]

-- That stays so over any history.
pub run-IsTimed : (es : List Event) (r : Reader) → IsTimed r → IsTimed (run es r).0
unfolding run
run-IsTimed [] r t = t
run-IsTimed (e ∷ es) r t = run-IsTimed es (step e r).0 (step-IsTimed e r t)

speak-cons :
    (m : String) (q : List String) (g : Option Region) (r : Reader)
    → is_some g ≡ true
    → (texts (speak (m ∷ q) g r).1 ≡ m ∷ [])
      × ((speak (m ∷ q) g r).0.announce_queue ≡ q)
      × (is_some (speak (m ∷ q) g r).0.live_region ≡ true)
unfolding speak
speak-cons m q none r region = cc region
speak-cons m q (some g) r region = (refl, refl, refl)

timer_fired-cons :
    (m : String) (q : List String) (r : Reader)
    → is_some r.live_region ≡ true
    → r.announce_queue ≡ m ∷ q
    → (texts (timer_fired r).1 ≡ m ∷ [])
      × ((timer_fired r).0.announce_queue ≡ q)
      × (is_some (timer_fired r).0.live_region ≡ true)
unfolding timer_fired process_queue
timer_fired-cons m q r region e = rw e (
    speak-cons m q (cleared r.live_region)
      (record r {
        announce_queue = m ∷ q;
        timers = r.timers - 1;
        live_region = cleared r.live_region;
      })
      (cleared-IsSome r.live_region region))

pub fire_all : ℕ → Reader → Reader × List Spoken
fire_all zero r = (r, [])
fire_all (suc n) r =
    let (r', out) = timer_fired r in let (r'', later) = fire_all n r' in (r'', out ++ later)

-- As many timeouts as messages wait, and one more, speak them all and leave the reader free.
pub fire_all_drains :
    (q : List String) (r : Reader)
    → is_some r.live_region ≡ true
    → r.announce_queue ≡ q
    → (texts (fire_all (suc (length q)) r).1 ≡ q)
      × ((fire_all (suc (length q)) r).0.announce_queue ≡ [])
      × ((fire_all (suc (length q)) r).0.is_announcing ≡ false)
unfolding fire_all timer_fired process_queue
fire_all_drains [] r region e = rw e (refl, refl, refl)
fire_all_drains (m ∷ q) r region e =
    let one = timer_fired-cons m q r region e in
    let ih = fire_all_drains q (timer_fired r).0 one.2 one.1 in
    (
      rw (texts-append (timer_fired r).1 (fire_all (suc (length q)) (timer_fired r).0).1, one.0)
          (ap (◌∷◌ m) ih.0),
      ih.1,
      ih.2,
    )

-- Of three messages in a row, the priority of the last is the one that the second is spoken with.
pub priority_lost :
    (a b c : String) (p q u : Priority) (g : Region)
    → (run
        (announces a p ∷ announces b q ∷ announces c u ∷ fires ∷ [])
        (record silent { live_region = some g })).1
      ≡ (a, p) ∷ (b, u) ∷ []
unfolding run step announce announce_in timer_fired process_queue speak
priority_lost a b c p q u g = refl

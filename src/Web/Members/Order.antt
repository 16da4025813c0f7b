-- ===== src/Web/Members/Order.antt =====
-- The order of the members.
use agentunited.Prelude.{
  ℕ, ◌+◌, ◌≤◌, ◌<◌, String, Bool, true, false, ◌||◌, List, [], ◌∷◌, any, All, map, ltb,
  if◌then◌else◌, if-either, ◌≡◌, refl, ap, ◌∙◌, arith,
}
use agentunited.Web.Forms.{answered}
use agentunited.Web.Members.{
  Member, Role, owner, admin, member, role_order, comes_first, insert_member, insert_all, sort,
  Panel, members_loaded, ApiMember, member_of,
}

-- The place of a group: the online owners, admins and members, and then the others.
abbrev pub rank : Member → ℕ
rank m = (if m.online then 0 else 3) + role_order m.role

-- Nobody stands before one of an earlier group.
abbrev pub IsRanked : List Member → Type 0
IsRanked [] = Unit
IsRanked (m ∷ ms) = All (λ other. rank m ≤ rank other) ms × IsRanked ms

role-bound : (r : Role) → role_order r < 3
role-bound owner = omega arith
role-bound admin = omega arith
role-bound member = omega arith

by_role-cases :
    (a b : ℕ) (test : Bool)
    → ((if ltb a b then true else if ltb b a then false else test) ≡ true → a ≤ b)
      × ((if ltb a b then true else if ltb b a then false else test) ≡ false → b ≤ a)
by_role-cases a b test = (λ h. ground arith, λ h. ground arith)

ranks :
    (x y : Bool) (a b : ℕ) (test : Bool)
    → a < 3
    → b < 3
    → let inner = if ltb a b then true else if ltb b a then false else test in
      let first = if x then (if y then inner else true) else if y then false else inner in
      (first ≡ true → (if x then 0 else 3) + a ≤ (if y then 0 else 3) + b)
      × (first ≡ false → (if y then 0 else 3) + b ≤ (if x then 0 else 3) + a)
ranks true true a b test small small' =
    let (left, right) = by_role-cases a b test in
    (λ h. omega (arith, left h), λ h. omega (arith, right h))
ranks true false a b test small small' = (λ h. omega (arith, small, small'), λ h. ground arith)
ranks false true a b test small small' = (λ h. ground arith, λ h. omega (arith, small, small'))
ranks false false a b test small small' =
    let (left, right) = by_role-cases a b test in
    (λ h. omega (arith, left h), λ h. omega (arith, right h))

swap : (a b c : Bool) → (a || (b || c)) ≡ (b || (a || c))
swap a b c = ground arith

swap' : (a b c : Bool) → (a || (b || c)) ≡ ((b || a) || c)
swap' a b c = ground arith

or_false : (a : Bool) → (a || false) ≡ a
or_false a = ground arith

module _ (name_first : String → String → Bool) where
  rank-comes_first :
      (a b : Member)
      → (comes_first name_first a b ≡ true → rank a ≤ rank b)
        × (comes_first name_first a b ≡ false → rank b ≤ rank a)
  rank-comes_first a b =
      ranks a.online b.online (role_order a.role) (role_order b.role) (name_first a.name b.name)
        (role-bound a.role) (role-bound b.role)

  below :
      (m x : Member) (xs : List Member)
      → rank m ≤ rank x
      → All (λ other. rank x ≤ rank other) xs
      → All (λ other. rank m ≤ rank other) xs
  below m x [] h all = tt
  below m x (y ∷ xs) h all = (omega (arith, h, all.0), below m x xs h all.1)

  insert-All :
      (k : ℕ) (m : Member) (xs : List Member)
      → k ≤ rank m
      → All (λ other. k ≤ rank other) xs
      → All (λ other. k ≤ rank other) (insert_member (comes_first name_first) m xs)
  unfolding insert_member
  insert-All k m [] h all = (h, tt)
  insert-All k m (x ∷ xs) h all =
      if-either (All (λ other. k ≤ rank other)) (comes_first name_first m x)
        (λ first. (h, (all.0, all.1))) (λ later. (all.0, insert-All k m xs h all.1))

  insert-IsRanked :
      (m : Member) (xs : List Member)
      → IsRanked xs
      → IsRanked (insert_member (comes_first name_first) m xs)
  unfolding insert_member
  insert-IsRanked m [] ranked = (tt, tt)
  insert-IsRanked m (x ∷ xs) ranked =
      if-either IsRanked (comes_first name_first m x)
        (λ first. let h = (rank-comes_first m x).0 first in ((h, below m x xs h ranked.0), ranked))
        (λ later. (
          insert-All (rank x) m xs ((rank-comes_first m x).1 later) ranked.0,
          insert-IsRanked m xs ranked.1,
        ))

  all-IsRanked :
      (done ms : List Member)
      → IsRanked done
      → IsRanked (insert_all (comes_first name_first) done ms)
  unfolding insert_all
  all-IsRanked done [] ranked = ranked
  all-IsRanked done (m ∷ ms) ranked =
      all-IsRanked (insert_member (comes_first name_first) m done) ms
        (insert-IsRanked m done ranked)

  any-insert :
      (p : Member → Bool) (m : Member) (xs : List Member)
      → any p (insert_member (comes_first name_first) m xs) ≡ (p m || any p xs)
  unfolding insert_member
  any-insert p m [] = refl
  any-insert p m (x ∷ xs) =
      if-either (λ ys. any p ys ≡ (p m || any p (x ∷ xs))) (comes_first name_first m x)
        (λ first. refl)
        (λ later. ap (λ b. p x || b) (any-insert p m xs) ∙ swap (p x) (p m) (any p xs))

  any-all :
      (p : Member → Bool) (done ms : List Member)
      → any p (insert_all (comes_first name_first) done ms) ≡ (any p ms || any p done)
  unfolding insert_all
  any-all p done [] = refl
  any-all p done (m ∷ ms) =
      any-all p (insert_member (comes_first name_first) m done) ms
      ∙ ap (λ b. any p ms || b) (any-insert p m done)
      ∙ swap' (any p ms) (p m) (any p done)

  -- Whatever order the names have, the members that were loaded are all shown and nobody else, those who
  -- are online before those who are not, and of each the owners before the admins and these before
  -- the others.
  pub members_loaded_lem :
      (online : String → Bool) (ms : List ApiMember) (p : Panel)
      → let shown = (members_loaded name_first online (answered ms) p).members in
        IsRanked shown
        × ((test : Member → Bool) → any test shown ≡ any test (map (member_of online) ms))
  unfolding members_loaded sort
  members_loaded_lem online ms p = (
    all-IsRanked [] (map (member_of online) ms) tt,
    λ test.
        any-all test [] (map (member_of online) ms)
        ∙ or_false (any test (map (member_of online) ms)),
  )

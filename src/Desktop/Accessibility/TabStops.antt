-- ===== src/Desktop/Accessibility/TabStops.antt =====
-- Moving the focus: the tab stop of a list, and the trap of a dialog.
use agentunited.Prelude.{
  ℕ, ◌<◌, Bool, true, false, none, some, List, [], ◌∷◌, ◌==◌, if◌then◌else◌, ◌≡◌, ◌≢◌, Option-cases,
  inl, inr, arith,
}
use agentunited.Desktop.Accessibility.{
  Key, arrow_down, arrow_up, home_key, end_key, other_key, next_index, Roving, roving_key, trap_tab,
  last_of,
}

-- The focused item is one of n, and it alone is a tab stop.
pub record IsSingle (n : ℕ) (r : Roving) : Type 0 where
  pub inside : r.focused < n
  pub single : (j : ℕ) → r.tab_stop j ≡ (j == r.focused)

-- Keys reach the item that has the focus.
pub run : ℕ → List Key → Roving → Roving
run n [] r = r
run n (k ∷ ks) r = run n ks (roving_key n k r.focused r)

next_inside : (n i : ℕ) (k : Key) (j : ℕ) → i < n → next_index n k i ≡ some j → j < n
unfolding next_index
next_inside n i arrow_down j inside e = ground arith
next_inside n i arrow_up j inside e = ground arith
next_inside n i home_key j inside e = ground arith
next_inside n i end_key j inside e = ground arith
next_inside n i other_key j inside e = cc e

moved_single :
    (i k j : ℕ) (old : Bool)
    → old ≡ (j == i)
    → (if j == k then true else if j == i then false else old) ≡ (j == k)
moved_single i k j old e = ground arith

roving_key-IsSingle :
    (n : ℕ) (k : Key) (r : Roving) → IsSingle n r → IsSingle n (roving_key n k r.focused r)
unfolding roving_key
roving_key-IsSingle n k r s = elim (Option-cases (next_index n k r.focused)) [
  | inl stays ↦ rw (roving_key, stays) s
  | inr (i, moves) ↦
      rw (roving_key, moves)
        (record {
          inside = next_inside n r.focused k i s.inside moves;
          single = λ j. moved_single r.focused i j (r.tab_stop j) (s.single j);
        })
]

-- Whatever keys are pressed, the focus stays inside the list and the focused item is its only tab
-- stop.
pub run-IsSingle : (n : ℕ) (ks : List Key) (r : Roving) → IsSingle n r → IsSingle n (run n ks r)
unfolding run
run-IsSingle n [] r s = s
run-IsSingle n (k ∷ ks) r s =
    run-IsSingle n ks (roving_key n k r.focused r) (roving_key-IsSingle n k r s)

-- In a dialog Tab leads from the last element to the first, and Shift and Tab from the first to the
-- last; from any other element the browser moves the focus.
pub trap_tab_lem :
    (e l : ℕ) (es : List ℕ)
    → last_of (e ∷ es) ≡ some l
    → (trap_tab (e ∷ es) false l ≡ some e)
      × (trap_tab (e ∷ es) true e ≡ some l)
      × ((x : ℕ) → x ≢ l → trap_tab (e ∷ es) false x ≡ none)
      × ((x : ℕ) → x ≢ e → trap_tab (e ∷ es) true x ≡ none)
unfolding trap_tab
trap_tab_lem e l es last = (
  rw last (ground arith),
  rw last (ground arith),
  λ x ne. rw last (ground arith),
  λ x ne. ground arith,
)

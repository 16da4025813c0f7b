-- ===== src/Web/Mentions/Spans.antt =====
-- Where parseMentions finds mentions.
use Prim.Native.Char.{Char, code}
use Prim.Native.String.{[], ◌∷◌, count}
use text.Mathlib.TextLemmas.{length-cons}
use agentunited.Prelude.{
  ℕ, suc, ◌+◌, ◌≤◌, ◌<◌, String, Bool, true, false, All, any, find, eq_refl, subst, ◌&&◌, not,
  Option, none, some, List, [], ◌∷◌, ◌≡◌, refl, arith, ◌==◌, str_eq, Bool-cases, inl, inr,
}
use agentunited.Prelude.Text.{is_word}
use agentunited.Web.Mentions.{
  push_mention, Member, Mention, word_of, matches, mentions_of, parse_mentions, member_named,
}

-- Matches that lie between two positions, each behind the end of the one before it.
abbrev Placed : ℕ → ℕ → List (ℕ × String) → Type 0
Placed i n [] = i ≤ n
Placed i n ((j, w) ∷ found) = (i ≤ j) × Placed (j + (count w + 1)) n found

-- The same of mentions, none of which is empty.
abbrev pub LaidOut : ℕ → ℕ → List Mention → Type 0
LaidOut i n [] = i ≤ n
LaidOut i n (m ∷ ms) =
    (i ≤ m.start_index) × (m.start_index < m.end_index) × LaidOut m.end_index n ms

Placed-earlier :
    (i j n : ℕ) (found : List (ℕ × String)) → i ≤ j → Placed j n found → Placed i n found
Placed-earlier i j n [] le p = omega arith
Placed-earlier i j n ((k, w) ∷ found) le p = (omega arith, p.1)

LaidOut-earlier : (i j n : ℕ) (ms : List Mention) → i ≤ j → LaidOut j n ms → LaidOut i n ms
LaidOut-earlier i j n [] le p = omega arith
LaidOut-earlier i j n (m ∷ ms) le p = (omega (arith, p.0), p.1, p.2)

word_no_at : (c : Char) → is_word c ≡ true → (code c == b'@') ≡ false
word_no_at c word = ground arith

shift : (i k : ℕ) → i + suc k ≡ i + 1 + k
shift i k = omega arith

-- The matches from position i on start behind the word that the text starts with.
matches-Placed : (i : ℕ) (s : String) → Placed (i + count (word_of s)) (i + count s) (matches i s)
unfolding matches word_of
matches-Placed i [] = omega arith
matches-Placed i (c ∷ s) =
    let rest = matches-Placed (i + 1) s in
    elim (Bool-cases (is_word c)) [
      | inl word ↦
          rw
            (
              word,
              word_no_at c word,
              length-cons c (word_of s),
              length-cons c s,
              shift i (count (word_of s)),
              shift i (count s),
            )
            rest
      | inr other ↦ elim (Bool-cases (code c == b'@' && not (str_eq (word_of s) ""))) [
        | inl starts ↦
            rw (other, starts, length-cons c s)
              (
                omega arith,
                Placed-earlier (i + (count (word_of s) + 1)) (i + 1 + count (word_of s))
                    (i + suc (count s)) (matches (i + 1) s) (omega arith)
                    (rw (shift i (count s)) rest),
              )
        | inr not_here ↦
            rw (other, not_here, length-cons c s)
              (Placed-earlier (i + 0) (i + 1 + count (word_of s)) (i + suc (count s))
                (matches (i + 1) s) (omega arith) (rw (shift i (count s)) rest))
      ]
    ]

-- The mention shows the id and the name of a member.
abbrev pub IsKnown : List Member → Mention → Type 0
IsKnown members m =
    any (λ (x : Member). str_eq x.id m.user_id && str_eq x.name m.display) members ≡ true

find-IsKnown :
    (p : Member → Bool) (members : List Member) (x : Member) (i j : ℕ)
    → find p members ≡ some x
    → IsKnown members (record { user_id = x.id; display = x.name; start_index = i; end_index = j })
find-IsKnown p (y ∷ ys) x i j found =
    let later = find-IsKnown p ys x i j in grind (arith, eq_refl x.id, eq_refl x.name)
find-IsKnown p [] x i j found = ground arith

push_mention-LaidOut :
    (i n j : ℕ) (w : String) (o : Option Member) (ms : List Mention)
    → i ≤ j
    → LaidOut (j + (count w + 1)) n ms
    → LaidOut i n (push_mention j w o ms)
push_mention-LaidOut i n j w none ms le rest =
    LaidOut-earlier i (j + (count w + 1)) n ms (omega (arith, le)) rest
push_mention-LaidOut i n j w (some m) ms le rest = (le, omega arith, rest)

push_mention-IsKnown :
    (p : Member → Bool) (members : List Member) (j : ℕ) (w : String) (o : Option Member)
    (ms : List Mention)
    → find p members ≡ o
    → All (IsKnown members) ms
    → All (IsKnown members) (push_mention j w o ms)
push_mention-IsKnown p members j w none ms found rest = rest
push_mention-IsKnown p members j w (some m) ms found rest =
    (find-IsKnown p members m j (j + (count w + 1)) found, rest)

module _ (lower : String → String) (members : List Member) where
  mentions_of-LaidOut :
      (i n : ℕ) (found : List (ℕ × String))
      → Placed i n found
      → LaidOut i n (mentions_of lower members found)
  unfolding mentions_of
  mentions_of-LaidOut i n [] placed = placed
  mentions_of-LaidOut i n ((j, w) ∷ found) placed =
      push_mention-LaidOut i n j w (member_named lower members w) (mentions_of lower members found)
        placed.0 (mentions_of-LaidOut (j + (count w + 1)) n found placed.1)

  mentions_of-IsKnown :
      (found : List (ℕ × String)) → All (IsKnown members) (mentions_of lower members found)
  unfolding mentions_of member_named
  mentions_of-IsKnown [] = tt
  mentions_of-IsKnown ((j, w) ∷ found) =
      push_mention-IsKnown _ members j w (member_named lower members w)
        (mentions_of lower members found) refl (mentions_of-IsKnown found)

  -- The mentions that parseMentions finds lie in the text, in order and apart from each other, none
  -- is empty, and each carries the id and the name of one of the members.
  pub parse_mentions_lem :
      (text : String)
      → LaidOut 0 (count text) (parse_mentions lower members text)
        × All (IsKnown members) (parse_mentions lower members text)
  unfolding parse_mentions
  parse_mentions_lem text = (
    mentions_of-LaidOut 0 (count text) (matches 0 text) (
        Placed-earlier 0 (0 + count (word_of text)) (count text) (matches 0 text) (omega arith) (
          subst (λ n. Placed (0 + count (word_of text)) n (matches 0 text)) (omega arith)
            (matches-Placed 0 text))),
    mentions_of-IsKnown (matches 0 text),
  )

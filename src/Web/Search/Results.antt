-- ===== src/Web/Search/Results.antt =====
-- What a search shows.
use agentunited.Prelude.{
  ℕ, ◌+◌, ◌≤◌, suc, String, Option, List, [], ◌∷◌, map, length, ltb, leb, All, if-either, ◌≡◌, refl,
  ap, ◌∙◌, arith,
}
use agentunited.Web.Search.{
  Panel, Channel, Message, SearchResult, all_results, enhanced, insert_message, insert_all,
  searched,
}

module _ (trim : String → String) (time_of : String → ℕ) where
  abbrev time : SearchResult → ℕ
  time r = time_of r.message.timestamp

  -- No result is older than one behind it.
  abbrev pub AreNewestFirst : List SearchResult → Type 0
  AreNewestFirst [] = Unit
  AreNewestFirst (r ∷ rs) =
      All (λ (other : SearchResult). time_of other.message.timestamp ≤ time_of r.message.timestamp)
        rs
      × AreNewestFirst rs

  module _ (channels : List Channel) where
    abbrev shown : List Message → List SearchResult
    shown = map (enhanced channels)

    insert-All :
        (k : ℕ) (m : Message) (xs : List Message)
        → time_of m.timestamp ≤ k
        → All (λ (other : SearchResult). time_of other.message.timestamp ≤ k) (shown xs)
        → All
            (λ (other : SearchResult). time_of other.message.timestamp ≤ k)
            (shown (insert_message trim time_of m xs))
    unfolding insert_message enhanced
    insert-All k m [] h all = (h, tt)
    insert-All k m (x ∷ xs) h all =
        if-either
          (λ ys. All (λ (other : SearchResult). time_of other.message.timestamp ≤ k) (shown ys))
          (ltb (time_of x.timestamp) (time_of m.timestamp)) (λ first. (h, all))
          (λ later. (all.0, insert-All k m xs h all.1))

    older :
        (k n : ℕ) (rs : List SearchResult)
        → k ≤ n
        → All (λ (other : SearchResult). time_of other.message.timestamp ≤ k) rs
        → All (λ (other : SearchResult). time_of other.message.timestamp ≤ n) rs
    older k n [] h all = tt
    older k n (r ∷ rs) h all = (omega (arith, h, all.0), older k n rs h all.1)

    insert-AreNewestFirst :
        (m : Message) (xs : List Message)
        → AreNewestFirst (shown xs)
        → AreNewestFirst (shown (insert_message trim time_of m xs))
    unfolding insert_message enhanced
    insert-AreNewestFirst m [] sorted = (tt, tt)
    insert-AreNewestFirst m (x ∷ xs) sorted =
        if-either (λ ys. AreNewestFirst (shown ys))
          (ltb (time_of x.timestamp) (time_of m.timestamp))
          (λ first.
            let h : time_of x.timestamp ≤ time_of m.timestamp = ground (arith, first) in
            ((h, older (time_of x.timestamp) (time_of m.timestamp) (shown xs) h sorted.0), sorted))
          (λ later.
            let h : time_of m.timestamp ≤ time_of x.timestamp = ground (arith, later) in
            (insert-All (time_of x.timestamp) m xs h sorted.0, insert-AreNewestFirst m xs sorted.1))

    all-AreNewestFirst :
        (done ms : List Message)
        → AreNewestFirst (shown done)
        → AreNewestFirst (shown (insert_all trim time_of done ms))
    unfolding insert_all
    all-AreNewestFirst done [] sorted = sorted
    all-AreNewestFirst done (m ∷ ms) sorted =
        all-AreNewestFirst (insert_message trim time_of m done) ms
          (insert-AreNewestFirst m done sorted)

    length-insert :
        (m : Message) (xs : List Message)
        → length (insert_message trim time_of m xs) ≡ suc (length xs)
    unfolding insert_message
    length-insert m [] = refl
    length-insert m (x ∷ xs) =
        if-either (λ (ys : List Message). length ys ≡ suc (suc (length xs)))
          (ltb (time_of x.timestamp) (time_of m.timestamp)) (λ first. refl)
          (λ later. ap suc (length-insert m xs))

    length-all :
        (done ms : List Message)
        → length (insert_all trim time_of done ms) ≡ length ms + length done
    unfolding insert_all
    length-all done [] = omega arith
    length-all done (m ∷ ms) =
        omega (arith, length-all (insert_message trim time_of m done) ms, length-insert m done)

    length-shown : (ms : List Message) → length (shown ms) ≡ length ms
    length-shown [] = refl
    length-shown (m ∷ ms) = ap suc (length-shown ms)

    -- A search shows as many results as its channels answered, those that failed left out, the newest
    -- first, and says that there are more from 50 on.
    pub searched_lem :
        (answers : List (Option (List Message))) (p : Panel)
        → let q = searched trim time_of channels answers p in
          (length q.results ≡ length (all_results answers))
          × AreNewestFirst q.results
          × (q.has_more ≡ leb 50 (length (all_results answers)))
    unfolding searched
    searched_lem answers p =
        let ms = all_results answers in
        let count : length (insert_all trim time_of [] ms) ≡ length ms =
          omega (arith, length-all [] ms) in
        (
          length-shown (insert_all trim time_of [] ms) ∙ count,
          all-AreNewestFirst [] ms tt,
          ap (leb 50) count,
        )

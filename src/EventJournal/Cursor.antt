-- ===== src/EventJournal/Cursor.antt =====
-- Replaying a run page by page from a cursor.
use deepkeel.Base.{
  ℕ, zero, suc, ◌-◌, ◌≤◌, ◌<◌, String, ◌≡◌, refl, sym, ap, subst, ◌∙◌, List, [], ◌∷◌, ◌++◌, arith,
  string_eq, nat_eq, pair_eq, length, take, drop, filter,
}
use deepkeel.Base.Int.{ℤ, pos}
use deepkeel.Scope.{RuntimeScope, storage_key}
use deepkeel.EventJournal.Journal.{
  EventEnvelope, Journal, events_at, latest, page_size, later_than, read_after_scoped,
}

module _ {Content : Type 0} where
  -- The sequence numbers of the events grow, and are all above a number.
  abbrev pub IncreasingFrom : ℕ → List (EventEnvelope Content) → Type 0
  IncreasingFrom n [] = Unit
  IncreasingFrom n (e ∷ es) = (n < e.sequence) × IncreasingFrom e.sequence es

  take-drop : (n : ℕ) (es : List (EventEnvelope Content)) → take n es ++ drop n es ≡ es
  take-drop zero es = refl
  take-drop (suc n) [] = refl
  take-drop (suc n) (e ∷ es) = ap (λ l. e ∷ l) (take-drop n es)

  length-drop_suc :
      (n : ℕ) (e : EventEnvelope Content) (es : List (EventEnvelope Content)) (fuel : ℕ)
      → length es ≤ fuel
      → length (drop n es) ≤ fuel
  length-drop_suc zero e es fuel h = h
  length-drop_suc (suc n) e [] fuel h = h
  length-drop_suc (suc n) e (x ∷ es) fuel h = length-drop_suc n e es fuel (omega arith)

  filter_all :
      (n m : ℕ) (es : List (EventEnvelope Content))
      → n ≤ m
      → IncreasingFrom m es
      → filter (later_than n) es ≡ es
  filter_all n m [] h i = refl
  filter_all n m (e ∷ es) h i = ground (arith, i, filter_all n e.sequence es (omega arith) i.1)

  filter_again :
      (n m : ℕ) (es : List (EventEnvelope Content))
      → n ≤ m
      → filter (later_than m) es ≡ filter (later_than m) (filter (later_than n) es)
  filter_again n m [] h = refl
  filter_again n m (e ∷ es) h = ground (arith, filter_again n m es)

  -- the last event of a page is not before its first
  pub le-latest :
      (n : ℕ) (e : EventEnvelope Content) (es : List (EventEnvelope Content))
      → IncreasingFrom n (e ∷ es)
      → e.sequence ≤ latest (e ∷ es)
  unfolding latest
  le-latest n e [] i = omega arith
  le-latest n e (f ∷ es) i = omega (arith, i, le-latest e.sequence f es i.1)

  IncreasingFrom-front :
      (n : ℕ) (front back : List (EventEnvelope Content))
      → IncreasingFrom n (front ++ back)
      → IncreasingFrom n front
  IncreasingFrom-front n [] back i = tt
  IncreasingFrom-front n (e ∷ front) back i = (i.0, IncreasingFrom-front e.sequence front back i.1)

  -- after a page, what is later than its last event is the rest
  filter_rest :
      (n : ℕ) (e : EventEnvelope Content) (page rest : List (EventEnvelope Content))
      → IncreasingFrom n (e ∷ page ++ rest)
      → filter (later_than (latest (e ∷ page))) (e ∷ page ++ rest) ≡ rest
  unfolding latest
  filter_rest n e [] rest i =
      ground (arith, filter_all e.sequence e.sequence rest (omega arith) i.1)
  filter_rest n e (f ∷ page) rest i =
      let late : e.sequence < latest (f ∷ page) = omega (
        arith,
        i.1,
        le-latest e.sequence f page (IncreasingFrom-front e.sequence (f ∷ page) rest i.1),
      ) in
      ground (arith, late, filter_rest e.sequence f page rest i.1)

  IncreasingFrom-rest :
      (n : ℕ) (e : EventEnvelope Content) (page rest : List (EventEnvelope Content))
      → IncreasingFrom n (e ∷ page ++ rest)
      → IncreasingFrom (latest (e ∷ page)) rest
  unfolding latest
  IncreasingFrom-rest n e [] rest i = i.1
  IncreasingFrom-rest n e (f ∷ page) rest i = IncreasingFrom-rest e.sequence f page rest i.1

  abbrev next_page :
      List (EventEnvelope Content)
      → (ℕ → List (EventEnvelope Content))
      → List (EventEnvelope Content)
  next_page [] more = []
  next_page (e ∷ page) more = e ∷ page ++ more (latest (e ∷ page))

  -- A reader that asks for the events after the last one that it has seen, until none is left
  unfoldable pub read_pages :
      ℕ → String → RuntimeScope → ℤ → Journal Content → ℕ → List (EventEnvelope Content)
  read_pages zero run_id scope limit journal cursor = []
  read_pages (suc fuel) run_id scope limit journal cursor =
      next_page (read_after_scoped run_id scope (pos cursor) limit journal)
        (read_pages fuel run_id scope limit journal)

  module _ (run_id : String) (scope : RuntimeScope) (limit : ℤ) (journal : Journal Content) where
    abbrev all_events : List (EventEnvelope Content)
    all_events = events_at journal (storage_key scope, run_id)

    read_rest :
        (fuel cursor k : ℕ) (rest : List (EventEnvelope Content))
        → page_size limit ≡ suc k
        → filter (later_than cursor) all_events ≡ rest
        → IncreasingFrom cursor rest
        → length rest ≤ fuel
        → read_pages fuel run_id scope limit journal cursor ≡ rest
    unfolding read_pages read_after_scoped
    read_rest zero cursor k [] one found i fits = refl
    read_rest zero cursor k (e ∷ es) one found i fits = absurd (omega arith)
    read_rest (suc fuel) cursor k [] one found i fits = rw (found, one)
    read_rest (suc fuel) cursor k (e ∷ es) one found i fits =
        let whole : e ∷ take k es ++ drop k es ≡ e ∷ es = ap (λ l. e ∷ l) (take-drop k es) in
        let i' : IncreasingFrom cursor (e ∷ take k es ++ drop k es) =
          subst (IncreasingFrom cursor) (sym whole) i in
        let page : List (EventEnvelope Content) = e ∷ take k es in
        let onward : cursor ≤ latest page = omega (
          arith,
          i.0,
          le-latest cursor e (take k es)
              (IncreasingFrom-front cursor (e ∷ take k es) (drop k es) i'),
        ) in
        let later : filter (later_than (latest page)) all_events ≡ drop k es =
          filter_again cursor (latest page) all_events onward
          ∙ ap (filter (later_than (latest page))) (found ∙ sym whole)
          ∙ filter_rest cursor e (take k es) (drop k es) i' in
        rw (found, one)
          (ap (λ l. e ∷ take k es ++ l)
              (read_rest fuel (latest page) k (drop k es) one later
                (IncreasingFrom-rest cursor e (take k es) (drop k es) i')
                (length-drop_suc k e es fuel (omega arith)))
            ∙ whole)

    -- Replay is complete. Where the events of a run are in increasing order, a reader that starts at
    -- cursor 0 and pages on from the last event that it has seen, with any limit and enough rounds,
    -- gets all of them, in order, each once.
    pub read_pages_complete :
        (fuel : ℕ)
        → IncreasingFrom 0 all_events
        → length all_events ≤ fuel
        → read_pages fuel run_id scope limit journal 0 ≡ all_events
    read_pages_complete fuel i fits =
        read_rest fuel 0 (page_size limit - 1) all_events (omega arith)
          (filter_all 0 0 all_events (omega arith) i) i fits

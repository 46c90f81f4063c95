-- ===== src/EventJournal/Ordered.antt =====
-- What the journal keeps: order, identity, and what was written before.
use deepkeel.Base.{
  ℕ, ◌<◌, ◌≡◌, refl, ap, subst, ◌∙◌, inl, inr, true, Bool-cases, none, some, Option-cases, Result,
  ok, err, Result-cases, List, [], ◌∷◌, ◌++◌, All, All-append, arith, if◌then◌else◌, Eq, ◌==◌,
  string_eq, nat_eq, pair_eq, beq_refl, eq_of_beq,
}
use deepkeel.Base.Dict.{Dict, get, put, get-put, get-empty}
use deepkeel.Scope.{RuntimeScope, RunKey, StorageKey, storage_key}
use deepkeel.EventJournal.Journal.{
  JournalError, EventEnvelope, Journal, envelope_equals, envelope_equals_iff, new_journal,
  event_scope_key, events_at, latest, append_scoped,
}
use deepkeel.EventJournal.Cursor.{IncreasingFrom, le-latest}

module _ {Content : Type 0} where
  -- the journal with one more event
  abbrev pub extended : EventEnvelope Content → RuntimeScope → Journal Content → Journal Content
  extended event scope journal = record {
    events =
        put journal.events (storage_key scope, event.run_id)
          (events_at journal (storage_key scope, event.run_id) ++ event ∷ []);
    by_id = put journal.by_id (storage_key scope, event.event_id) event;
  }

module _ {Content : Type 0} ⦃same : Eq Content⦄ where
  -- what an append that returns has done
  pub data Appended (event : EventEnvelope Content) (scope : RuntimeScope)
      (journal : Journal Content) (event' : EventEnvelope Content) (journal' : Journal Content)
      : Type 0 where
    again :
        get journal.by_id (storage_key scope, event.event_id) ≡ some event
        → event' ≡ event
        → journal' ≡ journal
        → Appended event scope journal event' journal'
    fresh :
        get journal.by_id (storage_key scope, event.event_id) ≡ none
        → latest (events_at journal (storage_key scope, event.run_id)) < event.sequence
        → event_scope_key event ≡ storage_key scope
        → event' ≡ event
        → journal' ≡ extended event scope journal
        → Appended event scope journal event' journal'

  scope-checked :
      (event : EventEnvelope Content) (scope : RuntimeScope) (journal : Journal Content)
      {event' : EventEnvelope Content} {journal' : Journal Content}
      → append_scoped event scope journal ≡ ok (event', journal')
      → (event_scope_key event == storage_key scope) ≡ true
  unfolding append_scoped
  scope-checked event scope journal h = ground arith

  found_again :
      (event : EventEnvelope Content) (scope : RuntimeScope) (journal : Journal Content)
      (existing : EventEnvelope Content) {event' : EventEnvelope Content}
      {journal' : Journal Content}
      → get journal.by_id (storage_key scope, event.event_id) ≡ some existing
      → append_scoped event scope journal ≡ ok (event', journal')
      → (existing ≡ event) × (event' ≡ existing) × (journal' ≡ journal)
  unfolding append_scoped
  found_again event scope journal existing e h =
      elim (Bool-cases (envelope_equals existing event)) [
        | inl t ↦
            ((envelope_equals_iff existing event).0 t, ground (arith, e, t), ground (arith, e, t))
        | inr f ↦ absurd (ground (arith, e, f))
      ]

  pub append_scoped-ok :
      (event : EventEnvelope Content) (scope : RuntimeScope) (journal : Journal Content)
      {event' : EventEnvelope Content} {journal' : Journal Content}
      → append_scoped event scope journal ≡ ok (event', journal')
      → Appended event scope journal event' journal'
  unfolding append_scoped
  append_scoped-ok event scope journal h =
      elim (Option-cases (get journal.by_id (storage_key scope, event.event_id))) [
        | inl e ↦
            fresh e (ground (arith, e)) (eq_of_beq (scope-checked event scope journal h))
              (ground (arith, e)) (ground (arith, e))
        | inr (existing, e) ↦
            let (is_event, returned, kept) = found_again event scope journal existing e h in
            again (e ∙ ap some is_event) (returned ∙ is_event) kept
      ]

  -- Every run's events are in increasing order, stand under their own run and scope, and are found by
  -- their ids.
  pub record IsOrdered (journal : Journal Content) : Type 0 where
    pub increasing : (key : RunKey) → IncreasingFrom 0 (events_at journal key)
    pub recorded :
        (key : RunKey)
        → All
            (λ (e : EventEnvelope Content).
              ((event_scope_key e, e.run_id) ≡ key)
              × (get journal.by_id (key.0, e.event_id) ≡ some e))
            (events_at journal key)

  IncreasingFrom-append :
      (n : ℕ) (es : List (EventEnvelope Content)) (e : EventEnvelope Content)
      → n < e.sequence
      → latest es < e.sequence
      → IncreasingFrom n es
      → IncreasingFrom n (es ++ e ∷ [])
  unfolding latest
  IncreasingFrom-append n [] e h l i = (h, tt)
  IncreasingFrom-append n (x ∷ []) e h l i = (i.0, (l, tt))
  IncreasingFrom-append n (x ∷ y ∷ es) e h l i = (
    i.0,
    IncreasingFrom-append x.sequence (y ∷ es) e (omega (arith, i.1, le-latest x.sequence y es i.1))
        l i.1,
  )

  pub events_at-fresh :
      (journal : Journal Content) (key j : RunKey) (es : List (EventEnvelope Content))
      (by_id : Dict RunKey (EventEnvelope Content))
      → events_at (record { events = put journal.events key es; by_id = by_id }) j
        ≡ (if key == j then es else events_at journal j)
  unfolding events_at
  events_at-fresh journal key j es by_id =
      rw get-put (elim (Bool-cases (key == j)) [ inl e ↦ rw e | inr e ↦ rw e ])

  abbrev IsRecorded : RunKey → Journal Content → EventEnvelope Content → Type 0
  IsRecorded key journal e =
      ((event_scope_key e, e.run_id) ≡ key) × (get journal.by_id (key.0, e.event_id) ≡ some e)

  -- a record under a new id displaces none
  IsRecorded-still :
      (key : RunKey) (journal journal' : Journal Content) (id : RunKey)
      (new : EventEnvelope Content) (es : List (EventEnvelope Content))
      → get journal.by_id id ≡ none
      → journal'.by_id ≡ put journal.by_id id new
      → All (IsRecorded key journal) es
      → All (IsRecorded key journal') es
  IsRecorded-still key journal journal' id new [] free e h = tt
  IsRecorded-still key journal journal' id new (x ∷ es) free e ((own, found), h) = (
    (
      own,
      rw e (
          rw get-put (elim (Bool-cases (id == (key.0, x.event_id))) [
            | inl b ↦
                let clash : id ≡ (key.0, x.event_id) = eq_of_beq b in
                absurd (cc (free, found, ap (get journal.by_id) clash))
            | inr b ↦ rw b found
          ])),
    ),
    IsRecorded-still key journal journal' id new es free e h,
  )

  IsRecorded-here :
      (event : EventEnvelope Content) (scope : RuntimeScope) (journal : Journal Content)
      → get journal.by_id (storage_key scope, event.event_id) ≡ none
      → event_scope_key event ≡ storage_key scope
      → IsOrdered journal
      → let key : RunKey = (storage_key scope, event.run_id) in
        All (IsRecorded key (extended event scope journal)) (events_at journal key ++ event ∷ [])
  IsRecorded-here event scope journal free own w =
      All-append _ (events_at journal (storage_key scope, event.run_id)) (event ∷ [])
        (IsRecorded-still (storage_key scope, event.run_id) journal (extended event scope journal)
          (storage_key scope, event.event_id) event
          (events_at journal (storage_key scope, event.run_id)) free refl
          (w.recorded (storage_key scope, event.run_id)))
        (
          (
            ap (λ (k : StorageKey). (k, event.run_id)) own,
            rw get-put (
                rw (
                  (pair_eq.equals_iff (storage_key scope, event.event_id)
                      (storage_key scope, event.event_id)).1
                    refl)),
          ),
          tt,
        )

  Appended-IsOrdered :
      {event event' : EventEnvelope Content} {scope : RuntimeScope}
      {journal journal' : Journal Content}
      → 0 < event.sequence
      → Appended event scope journal event' journal'
      → IsOrdered journal
      → IsOrdered journal'
  Appended-IsOrdered positive (again e r k) w = rw k w
  Appended-IsOrdered {event} {event'} {scope} {journal} {journal'} positive (fresh free l own r k)
        w =
      let here : RunKey = (storage_key scope, event.run_id) in
      rw k (record {
        increasing = λ key. rw events_at-fresh (elim (Bool-cases (here == key)) [
          | inl b ↦ rw b (
              IncreasingFrom-append 0 (events_at journal here) event positive l (w.increasing here))
          | inr b ↦ rw b (w.increasing key)
        ]);
        recorded = λ key. elim (Bool-cases (here == key)) [
          | inl b ↦
              let same_run : here ≡ key = eq_of_beq b in
              let written : All (IsRecorded here (extended event scope journal))
                  (events_at (extended event scope journal) here) =
                rw
                  (
                    events_at-fresh journal here here (events_at journal here ++ event ∷ [])
                        (put journal.by_id (storage_key scope, event.event_id) event),
                    beq_refl here,
                  )
                  (IsRecorded-here event scope journal free own w) in
              subst
                (λ (j : RunKey).
                  All (IsRecorded j (extended event scope journal))
                    (events_at (extended event scope journal) j))
                same_run written
          | inr b ↦ rw events_at-fresh (
              rw b (
                IsRecorded-still key journal (extended event scope journal)
                  (storage_key scope, event.event_id) event (events_at journal key) free refl
                  (w.recorded key)))
        ];
      })

  positive-checked :
      (event : EventEnvelope Content) (scope : RuntimeScope) (journal : Journal Content)
      {p : EventEnvelope Content × Journal Content}
      → append_scoped event scope journal ≡ ok p
      → 0 < event.sequence
  unfolding append_scoped
  positive-checked event scope journal h = ground arith

  -- the journal after appends, of which those that raise leave it as it is
  abbrev pub kept :
      Journal Content
      → Result JournalError (EventEnvelope Content × Journal Content)
      → Journal Content
  kept journal (err e) = journal
  kept journal (ok p) = p.1

  unfoldable pub append_all :
      Journal Content → List (EventEnvelope Content × RuntimeScope) → Journal Content
  append_all journal [] = journal
  append_all journal ((event, scope) ∷ rest) =
      append_all (kept journal (append_scoped event scope journal)) rest

  kept-IsOrdered :
      (event : EventEnvelope Content) (scope : RuntimeScope) (journal : Journal Content)
      → IsOrdered journal
      → IsOrdered (kept journal (append_scoped event scope journal))
  kept-IsOrdered event scope journal w = elim (Result-cases (append_scoped event scope journal)) [
    | inl ((event', journal'), e) ↦ rw e (
        Appended-IsOrdered (positive-checked event scope journal e)
          (append_scoped-ok event scope journal e) w)
    | inr (error, e) ↦ rw e w
  ]

  append_all-IsOrdered :
      (journal : Journal Content) (appends : List (EventEnvelope Content × RuntimeScope))
      → IsOrdered journal
      → IsOrdered (append_all journal appends)
  unfolding append_all
  append_all-IsOrdered journal [] w = w
  append_all-IsOrdered journal ((event, scope) ∷ rest) w =
      append_all-IsOrdered (kept journal (append_scoped event scope journal)) rest
        (kept-IsOrdered event scope journal w)

  new_journal-IsOrdered : IsOrdered (new_journal {Content = Content})
  unfolding events_at
  new_journal-IsOrdered = record {
    increasing = λ key. rw get-empty tt;
    recorded = λ key. rw get-empty tt;
  }

  -- Whatever is appended to a new journal, with rejected appends among it, the events of every run are
  -- in strictly increasing order of their numbers, which start above 0; each stands under its own scope
  -- and run; and each is the event that its id finds.
  pub reachable-IsOrdered :
      (appends : List (EventEnvelope Content × RuntimeScope))
      → IsOrdered (append_all new_journal appends)
  reachable-IsOrdered appends = append_all-IsOrdered new_journal appends new_journal-IsOrdered

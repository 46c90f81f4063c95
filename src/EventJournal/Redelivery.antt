-- ===== src/EventJournal/Redelivery.antt =====
-- Redelivery and permanence: an event that was appended stays where it is, and can be appended again.
use deepkeel.Base.{
  ◌≡◌, refl, sym, ap, ◌∙◌, inl, inr, true, Bool-cases, none, some, ok, Result-cases, List, [], ◌∷◌,
  ◌++◌, arith, Eq, ◌==◌, string_eq, nat_eq, pair_eq, beq_refl, eq_of_beq, append_nil, append_assoc,
}
use deepkeel.Base.Dict.{get, put, get-put}
use deepkeel.Scope.{RuntimeScope, RunKey, storage_key}
use deepkeel.EventJournal.Journal.{
  EventEnvelope, Journal, envelope_equals, envelope_equals_iff, events_at, append_scoped,
}
use deepkeel.EventJournal.Ordered.{
  extended, Appended, again, fresh, append_scoped-ok, kept, append_all, events_at-fresh,
}

module _ {Content : Type 0} ⦃same : Eq Content⦄ where
  -- a step of the journal keeps the ids that it knows and only adds to its runs
  record Extends (journal journal' : Journal Content) : Type 0 where
    pub ids :
        (id : RunKey) (event : EventEnvelope Content)
        → get journal.by_id id ≡ some event
        → get journal'.by_id id ≡ some event
    pub runs :
        (key : RunKey)
        → (more : List (EventEnvelope Content)) × (events_at journal' key
            ≡ events_at journal key ++ more)

  Extends-refl : (journal : Journal Content) → Extends journal journal
  Extends-refl journal = record {
    ids = λ id event h. h;
    runs = λ key. ([], sym (append_nil (events_at journal key)));
  }

  Extends-trans : {a b c : Journal Content} → Extends a b → Extends b c → Extends a c
  Extends-trans {a} {b} {c} ab bc = record {
    ids = λ id event h. bc.ids id event (ab.ids id event h);
    runs = λ key.
        let (more, e) = ab.runs key in
        let (further, e') = bc.runs key in
        (
          more ++ further,
          e' ∙ ap (λ l. l ++ further) e ∙ append_assoc (events_at a key) more further,
        );
  }

  Extends-extended :
      (event : EventEnvelope Content) (scope : RuntimeScope) (journal : Journal Content)
      → get journal.by_id (storage_key scope, event.event_id) ≡ none
      → Extends journal (extended event scope journal)
  Extends-extended event scope journal free =
      let here : RunKey = (storage_key scope, event.run_id) in
      let id : RunKey = (storage_key scope, event.event_id) in
      record {
        ids = λ id' e h. rw get-put (elim (Bool-cases (id == id')) [
          | inl b ↦
              let clash : id ≡ id' = eq_of_beq b in
              absurd (cc (free, h, ap (get journal.by_id) clash))
          | inr b ↦ rw b h
        ]);
        runs = λ key. elim (Bool-cases (here == key)) [
          | inl b ↦
              let one : here ≡ key = eq_of_beq b in
              (
                event ∷ [],
                rw
                    (
                      events_at-fresh journal here key (events_at journal here ++ event ∷ [])
                          (put journal.by_id id event),
                      b,
                    )
                    (ap (λ (k : RunKey). events_at journal k ++ event ∷ []) one),
              )
          | inr b ↦ (
            [],
            rw
                (
                  events_at-fresh journal here key (events_at journal here ++ event ∷ [])
                      (put journal.by_id id event),
                  b,
                )
                (sym (append_nil (events_at journal key))),
          )
        ];
      }

  Extends-appended :
      {event event' : EventEnvelope Content} {scope : RuntimeScope}
      {journal journal' : Journal Content}
      → Appended event scope journal event' journal'
      → Extends journal journal'
  Extends-appended {journal = journal} (again e r k) = rw k (Extends-refl journal)
  Extends-appended {event} {scope = scope} {journal = journal} (fresh free l own r k) =
      rw k (Extends-extended event scope journal free)

  Extends-kept :
      (event : EventEnvelope Content) (scope : RuntimeScope) (journal : Journal Content)
      → Extends journal (kept journal (append_scoped event scope journal))
  Extends-kept event scope journal = elim (Result-cases (append_scoped event scope journal)) [
    | inl ((event', journal'), e) ↦ rw e (Extends-appended (append_scoped-ok event scope journal e))
    | inr (error, e) ↦ rw e (Extends-refl journal)
  ]

  Extends-append_all :
      (journal : Journal Content) (appends : List (EventEnvelope Content × RuntimeScope))
      → Extends journal (append_all journal appends)
  unfolding append_all
  Extends-append_all journal [] = Extends-refl journal
  Extends-append_all journal ((event, scope) ∷ rest) =
      Extends-trans (Extends-kept event scope journal)
        (Extends-append_all (kept journal (append_scoped event scope journal)) rest)

  -- The journal only grows: whatever is appended, rejected appends among it, the events that a run had
  -- stay in their places at the front of the run, and each id still finds the event that it found.
  pub append_all-grows :
      (journal : Journal Content) (appends : List (EventEnvelope Content × RuntimeScope))
      (key id : RunKey) (event : EventEnvelope Content)
      → get journal.by_id id ≡ some event
      → ((more : List (EventEnvelope Content)) × (events_at (append_all journal appends) key
            ≡ events_at journal key ++ more))
        × (get (append_all journal appends).by_id id ≡ some event)
  append_all-grows journal appends key id event h =
      let grown : Extends journal (append_all journal appends) =
        Extends-append_all journal appends in
      (grown.runs key, grown.ids id event h)

  found-Appended :
      {event event' : EventEnvelope Content} {scope : RuntimeScope}
      {journal journal' : Journal Content}
      → Appended event scope journal event' journal'
      → (get journal'.by_id (storage_key scope, event.event_id) ≡ some event) × (event' ≡ event)
  found-Appended (again e r k) = (rw k e, r)
  found-Appended {event} {scope = scope} (fresh free l own r k) =
      let id : RunKey = (storage_key scope, event.event_id) in
      let here : (id == id) ≡ true = beq_refl id in (rw k (rw (get-put, here) refl), r)

  append_scoped-found :
      (event : EventEnvelope Content) (scope : RuntimeScope) (journal later : Journal Content)
      {event' : EventEnvelope Content} {journal' : Journal Content}
      → append_scoped event scope journal ≡ ok (event', journal')
      → get later.by_id (storage_key scope, event.event_id) ≡ some event
      → append_scoped event scope later ≡ ok (event, later)
  unfolding append_scoped
  append_scoped-found event scope journal later h e =
      let same_event : envelope_equals event event ≡ true =
        (envelope_equals_iff event event).1 refl in
      rw e (ground (arith, h, same_event))

  -- An append is idempotent. Where an append returned, then whatever is appended after it, the same
  -- append again returns the same event and leaves the journal as it is.
  pub append_again :
      (event : EventEnvelope Content) (scope : RuntimeScope) (journal : Journal Content)
      {event' : EventEnvelope Content} {journal' : Journal Content}
      (appends : List (EventEnvelope Content × RuntimeScope))
      → append_scoped event scope journal ≡ ok (event', journal')
      → append_scoped event scope (append_all journal' appends)
        ≡ ok (event', append_all journal' appends)
  append_again event scope journal {event'} {journal'} appends h =
      let done : Appended event scope journal event' journal' =
        append_scoped-ok event scope journal h in
      let (found, returned) = found-Appended done in
      let grown : Extends journal' (append_all journal' appends) =
        Extends-append_all journal' appends in
      append_scoped-found event scope journal (append_all journal' appends) h
        (grown.ids (storage_key scope, event.event_id) event found)
      ∙ ap (λ (e : EventEnvelope Content). ok (e, append_all journal' appends)) (sym returned)

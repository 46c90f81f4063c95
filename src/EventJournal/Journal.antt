-- ===== src/EventJournal/Journal.antt =====
-- `InMemoryRuntimeEventJournal`. An event is the envelope of runtime_api.py; what the journal does not
-- look into (titles, payload, types, times) is its `content`, which has an equality.
use deepkeel.Base.{
  ℕ, String, Bool, true, not, ◌&&◌, ◌||◌, Option, none, some, List, [], ◌∷◌, ◌++◌, Result, ok, err,
  raise_if, ◌>>=◌, ◌>>◌, if◌then◌else◌, ◌≡◌, ◌↔◌, Eq, ◌==◌, string_eq, nat_eq, pair_eq, ltb, leb,
  filter, take, get_last?, min, max, arith, eq_iff, nat_beq_iff,
}
use deepkeel.Base.Int.{ℤ, clip}
use deepkeel.Base.Dict.{Dict, empty, get, put}
use deepkeel.Base.Text.{or_else}
use deepkeel.Scope.{RuntimeScope, StorageKey, RunKey, storage_key}

pub data JournalError : Type 0 where
  identity_required : JournalError
  foreign_scope : JournalError
  event_id_reused : JournalError
  sequence_must_increase : JournalError
  scope_required : JournalError

-- RuntimeEventEnvelope
pub record EventEnvelope (Content : Type 0) : Type 0 where
  pub event_id : String
  pub sequence : ℕ
  pub run_id : String
  pub tenant_id : String
  pub user_id : String
  pub namespace : String
  pub content : Content

module _ {Content : Type 0} ⦃same : Eq Content⦄ where
  -- `existing != candidate`: the models differ in a field
  abbrev pub envelope_equals : EventEnvelope Content → EventEnvelope Content → Bool
  envelope_equals a b =
      a.event_id == b.event_id
      && a.sequence == b.sequence
      && a.run_id == b.run_id
      && a.tenant_id == b.tenant_id
      && a.user_id == b.user_id
      && a.namespace == b.namespace
      && a.content == b.content

  pub envelope_equals_iff : (a b : EventEnvelope Content) → (envelope_equals a b ≡ true) ↔ (a ≡ b)
  envelope_equals_iff a b = ground (
    arith,
    eq_iff a.event_id b.event_id,
    nat_beq_iff a.sequence b.sequence,
    eq_iff a.run_id b.run_id,
    eq_iff a.tenant_id b.tenant_id,
    eq_iff a.user_id b.user_id,
    eq_iff a.namespace b.namespace,
    same.equals_iff a.content b.content,
  )

-- max(1, min(int(limit), 1000)), and `clip` is max(0, int(after_sequence))
abbrev pub page_size : ℤ → ℕ
page_size limit = max 1 (min (clip limit) 1000)

-- InMemoryRuntimeEventJournal: the events of each run, and each event by its id
pub record Journal (Content : Type 0) : Type 0 where
  pub events : Dict RunKey (List (EventEnvelope Content))
  pub by_id : Dict RunKey (EventEnvelope Content)

module _ {Content : Type 0} where
  abbrev pub new_journal : Journal Content
  new_journal = record { events = empty; by_id = empty }

  -- _event_scope(event).storage_key
  unfoldable pub event_scope_key : EventEnvelope Content → StorageKey
  event_scope_key event =
      (event.tenant_id, (or_else event.namespace "default", or_else event.user_id "local-device"))

  -- _validate_event_scope
  unfoldable pub validate_event_scope :
      EventEnvelope Content → RuntimeScope → Result JournalError (Unit {0})
  unfolding event_scope_key
  validate_event_scope event scope =
      raise_if (not (event_scope_key event == storage_key scope)) foreign_scope

  abbrev pub or_nil : Option (List (EventEnvelope Content)) → List (EventEnvelope Content)
  or_nil none = []
  or_nil (some events) = events

  -- self._events.get(key, [])
  unfoldable pub events_at : Journal Content → RunKey → List (EventEnvelope Content)
  events_at journal key = or_nil (get journal.events key)

  abbrev pub sequence_of : Option (EventEnvelope Content) → ℕ
  sequence_of none = 0
  sequence_of (some event) = event.sequence

  -- events[-1].sequence if events else 0
  unfoldable pub latest : List (EventEnvelope Content) → ℕ
  latest events = sequence_of (get_last? events)

module _ {Content : Type 0} ⦃same : Eq Content⦄ where
  -- the part of `append_scoped` under the lock, by what is found under the event's id
  abbrev pub append_found :
      EventEnvelope Content
      → RunKey
      → RunKey
      → Journal Content
      → Option (EventEnvelope Content)
      → Result JournalError (EventEnvelope Content × Journal Content)
  append_found candidate run_key event_key journal (some existing) =
      if envelope_equals existing candidate then ok (existing, journal) else err event_id_reused
  append_found candidate run_key event_key journal none =
      let events = events_at journal run_key in
      if leb candidate.sequence (latest events)
      then err sequence_must_increase
      else ok (
        candidate,
        record {
          events = put journal.events run_key (events ++ candidate ∷ []);
          by_id = put journal.by_id event_key candidate;
        },
      )

  unfoldable pub append_scoped :
      EventEnvelope Content
      → RuntimeScope
      → Journal Content
      → Result JournalError (EventEnvelope Content × Journal Content)
  unfolding validate_event_scope latest events_at
  append_scoped event scope journal = do
    raise_if (event.run_id == "" || event.event_id == "" || ltb event.sequence 1) identity_required
    validate_event_scope event scope
    append_found event (storage_key scope, event.run_id) (storage_key scope, event.event_id) journal
        (get journal.by_id (storage_key scope, event.event_id))

module _ {Content : Type 0} where
  unfoldable pub latest_sequence_scoped : String → RuntimeScope → Journal Content → ℕ
  unfolding latest events_at
  latest_sequence_scoped run_id scope journal =
      latest (events_at journal (storage_key scope, run_id))

  abbrev pub later_than : ℕ → EventEnvelope Content → Bool
  later_than cursor event = ltb cursor event.sequence

  unfoldable pub read_after_scoped :
      String → RuntimeScope → ℤ → ℤ → Journal Content → List (EventEnvelope Content)
  unfolding events_at
  read_after_scoped run_id scope after_sequence limit journal =
      take (page_size limit)
        (filter (later_than (clip after_sequence)) (events_at journal (storage_key scope, run_id)))

  -- the events of the runs that go by an id, in the order in which the runs were first written
  unfoldable pub matching :
      String → List (RunKey × List (EventEnvelope Content)) → List (List (EventEnvelope Content))
  matching run_id [] = []
  matching run_id ((key, events) ∷ rest) =
      let others = matching run_id rest in if key.1 == run_id then events ∷ others else others

  abbrev pub only :
      List (List (EventEnvelope Content)) → Result JournalError (List (EventEnvelope Content))
  only [] = ok []
  only (events ∷ []) = ok events
  only (_ ∷ _ ∷ _) = err scope_required

  -- _unscoped_events
  unfoldable pub unscoped_events :
      String → Journal Content → Result JournalError (List (EventEnvelope Content))
  unfolding matching
  unscoped_events run_id journal = only (matching run_id journal.events.entries)

  latest_sequence : String → Journal Content → Result JournalError ℕ
  unfolding latest unscoped_events
  latest_sequence run_id journal = do events ← unscoped_events run_id journal; ok (latest events)

  read_after : String → ℤ → ℤ → Journal Content → Result JournalError (List (EventEnvelope Content))
  unfolding unscoped_events
  read_after run_id after_sequence limit journal = do
    events ← unscoped_events run_id journal
    ok (take (page_size limit) (filter (later_than (clip after_sequence)) events))

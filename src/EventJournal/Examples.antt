-- ===== src/EventJournal/Examples.antt =====
-- Tests of the journal, and each of its theorems at a concrete input.
use deepkeel.Base.{
  ℕ, String, ◌≡◌, refl, some, ok, List, [], ◌∷◌, ◌++◌, arith, string_eq, nat_eq, pair_eq,
}
use deepkeel.Base.Int.{pos}
use deepkeel.Base.Dict.{get, put, empty}
use deepkeel.Scope.{RuntimeScope, RunKey, storage_key, default_scope}
use deepkeel.EventJournal.Journal.{
  EventEnvelope, Journal, new_journal, append_scoped, events_at, latest, validate_event_scope,
  event_scope_key,
}
use deepkeel.EventJournal.Ordered.{IsOrdered, reachable-IsOrdered, append_all, kept}
use deepkeel.EventJournal.Redelivery.{append_again, append_all-grows}
use deepkeel.EventJournal.Cursor.{read_pages, read_pages_complete}

abbrev event_at : String → ℕ → EventEnvelope ℕ
event_at id n = record {
  event_id = id;
  sequence = n;
  run_id = "run";
  tenant_id = "";
  user_id = "";
  namespace = "";
  content = n;
}

abbrev start : Journal ℕ
start = new_journal

abbrev appends : List (EventEnvelope ℕ × RuntimeScope)
appends =
    (event_at "a" 2, default_scope)
    ∷ (event_at "b" 5, default_scope)
    ∷ (event_at "c" 5, default_scope)
    ∷ (event_at "d" 7, default_scope)
    ∷ []

abbrev run_key : RunKey
run_key = (storage_key default_scope, "run")

-- `append_all`, with all that it calls open
computes : Journal ℕ → List (EventEnvelope ℕ × RuntimeScope) → Journal ℕ
unfolding append_all append_scoped event_scope_key validate_event_scope events_at latest get put
    storage_key empty
computes = append_all

-- an event with a number that is not new is rejected
three_events :
    events_at (computes start appends) run_key
    ≡ event_at "a" 2 ∷ event_at "b" 5 ∷ event_at "d" 7 ∷ []
unfolding computes
three_events = refl

reachable-IsOrdered_example : IsOrdered (append_all start appends)
reachable-IsOrdered_example = reachable-IsOrdered appends

append_again_example :
    append_scoped
      (event_at "a" 2)
      default_scope
      (append_all (kept start (append_scoped (event_at "a" 2) default_scope start)) appends)
    ≡ ok (
      event_at "a" 2,
      append_all (kept start (append_scoped (event_at "a" 2) default_scope start)) appends,
    )
unfolding computes
append_again_example = append_again (event_at "a" 2) default_scope start appends refl

append_all-grows_example :
    ((more : List (EventEnvelope ℕ)) × (events_at
          (append_all (append_all start appends) ((event_at "e" 9, default_scope) ∷ []))
          run_key
        ≡ events_at (append_all start appends) run_key ++ more))
    × (get
          (append_all (append_all start appends) ((event_at "e" 9, default_scope) ∷ [])).by_id
          (storage_key default_scope, "b")
        ≡ some (event_at "b" 5))
unfolding computes
append_all-grows_example =
    append_all-grows (append_all start appends) ((event_at "e" 9, default_scope) ∷ []) run_key
      (storage_key default_scope, "b") (event_at "b" 5) refl

read_pages_complete_example :
    read_pages 3 "run" default_scope (pos 2) (append_all start appends) 0
    ≡ events_at (append_all start appends) run_key
unfolding computes
read_pages_complete_example =
    read_pages_complete "run" default_scope (pos 2) (append_all start appends) 3
      ((reachable-IsOrdered appends).increasing run_key) (omega arith)

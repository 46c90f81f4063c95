-- ===== src/StateStore/Examples.antt =====
-- Tests of the state store, and each of its theorems at a concrete input.
use deepkeel.Base.{
  String, ◌≡◌, refl, false, Option, none, some, List, [], ◌∷◌, ok, err, string_eq, pair_eq,
  ne_of_beq, inl,
}
use deepkeel.Base.Int.{pos, int_eq}
use deepkeel.Base.Dict.{get, put, empty}
use deepkeel.Base.Text.{strip, lower}
use deepkeel.Base.Objects.{text_objects}
use deepkeel.Scope.{RuntimeScope, RunKey, storage_key, default_scope}
use deepkeel.StateStore.Status.{is_terminal, normalize_runtime_status}
use deepkeel.StateStore.Aggregate.{
  StateError, RuntimeStateMutation, RuntimeStateReceipt, apply, injected,
}
use deepkeel.StateStore.Memory.{
  Stage, fresh, after_checkpoint, aggregate, checks, append_event, append_checkpoint,
  delete_checkpoints, settle_state, keep_receipt,
}
use deepkeel.StateStore.Commit.{States, state_at, commit_scoped, attempt, fail_at, as_replayed}
use deepkeel.StateStore.Outcome.{Same}
use deepkeel.StateStore.WellFormed.{IsWellFormed}
use deepkeel.StateStore.Histories.{
  Request, key_of, handle, serve, reachable-IsWellFormed, settled_forever,
}
use deepkeel.StateStore.Atomicity.{commit_atomic, commit_isolated}
use deepkeel.StateStore.Replay.{commit_once}
use deepkeel.StateStore.Fencing.{Superseded-refused}
use deepkeel.StateStore.Reload.{Reloaded, load_after_commit}

abbrev started : RuntimeStateMutation String
started = record {
  mutation_id = "m1";
  run_id = "run";
  event_type = "run.started";
  target_status = "Running";
  event_payload = empty;
  event_visibility = "internal";
  checkpoint_type = "runtime";
  checkpoint_state = empty;
  resume_token = "";
  final_message_id = none;
  error_code = none;
  error_message = none;
  cancel_requested = none;
  delete_checkpoint_types = [];
  expected_version = none;
  expected_sequence = none;
  fence_token = "worker-b";
  fence_generation = pos 2;
}

abbrev finished : RuntimeStateMutation String
finished = record started {
  mutation_id = "m2";
  event_type = "run.settled";
  target_status = "cancelled";
  expected_version = some (pos 1);
}

abbrev stale : RuntimeStateMutation String
stale = record started { mutation_id = "m3"; fence_token = "worker-a"; fence_generation = pos 1 }

abbrev call : RuntimeStateMutation String → Request String
call m = record { injector = none; now = 7; scope = default_scope; mutation = m }

abbrev crashing : Request String
crashing = record {
  injector = some (λ (stage : Stage). crash stage);
  now = 7;
  scope = default_scope;
  mutation = started;
}
  where
    crash : Stage → Option StateError
    crash after_checkpoint = some (injected "disk full")
    crash _ = none

abbrev new_store : States String
new_store = empty

abbrev served : List (Request String)
served = call started ∷ call stale ∷ crashing ∷ call finished ∷ []

abbrev run_key : RunKey
run_key = key_of (call started)

-- `serve`, with all that it calls open
computes : List (Request String) → States String
unfolding serve commit_scoped attempt apply aggregate is_terminal normalize_runtime_status strip
    lower checks append_event append_checkpoint delete_checkpoints settle_state keep_receipt get put
    empty state_at storage_key fail_at
computes = serve new_store

-- The stale and the crashing commit leave no trace, and the last one settles the run.
served_twice :
    ((state_at (serve new_store served) run_key).version ≡ 2)
    × ((state_at (serve new_store served) run_key).status ≡ "canceled")
unfolding computes
served_twice = (refl, refl)

reachable-IsWellFormed_example : IsWellFormed (state_at (serve empty served) run_key)
reachable-IsWellFormed_example = reachable-IsWellFormed served run_key

settled_forever_example :
    state_at (serve (serve empty served) (call stale ∷ [])) run_key
    ≡ state_at (serve empty served) run_key
unfolding computes
settled_forever_example =
    settled_forever (serve empty served) (call stale ∷ []) run_key
      (reachable-IsWellFormed served run_key) refl

-- the run had no entry, and has one now
commit_atomic_example : get (handle new_store crashing).1 run_key ≡ some fresh
unfolding computes
commit_atomic_example = commit_atomic new_store crashing {e = injected "disk full"} run_key refl

-- another tenant's run of the same id
abbrev other_scope : RuntimeScope
other_scope = record default_scope { tenant_id = "tenant" }

commit_isolated_example :
    get (handle new_store (call started)).1 (storage_key other_scope, "run") ≡ none
unfolding get empty
commit_isolated_example =
    commit_isolated new_store (call started) other_scope "run" (inl (ne_of_beq refl))

abbrev first_receipt : RuntimeStateReceipt
first_receipt = record {
  mutation_id = "m1";
  run_id = "run";
  version = 1;
  sequence = 1;
  status = "running";
  replayed = false;
}

commit_once_example :
    let later = serve (handle new_store (call started)).1 (call finished ∷ []) in
    ((handle later (call started)).0 ≡ ok (as_replayed first_receipt))
    × Same later (handle later (call started)).1
unfolding computes
commit_once_example =
    commit_once new_store (call started) (call started) (call finished ∷ []) run_key refl refl refl
      refl

Superseded-refused_example :
    ((e : StateError) × ((handle
          (serve (handle new_store (call started)).1 (crashing ∷ []))
          (call stale)).0
        ≡ err e))
    × Same
        (serve (handle new_store (call started)).1 (crashing ∷ []))
        (handle (serve (handle new_store (call started)).1 (crashing ∷ [])) (call stale)).1
unfolding computes
Superseded-refused_example =
    Superseded-refused new_store (call started) (call stale) (crashing ∷ []) {r = first_receipt}
      refl (ne_of_beq refl) refl refl (inl refl) refl

load_after_commit_example : Reloaded new_store (call started)
unfolding computes
load_after_commit_example =
    load_after_commit new_store (call started) {r = first_receipt} (ne_of_beq refl) refl
      (ne_of_beq refl) refl refl

-- ===== src/StateStore/Commit.antt =====
-- `InMemoryRuntimeStateStore.commit_scoped`. The lock is held over the whole call, so a call is one
-- step. The time of day and what the failure injector raises are its arguments.
use deepkeel.Base.{ℕ, ◌+◌, String, true, Option, none, some, Result, ok, err, string_eq, pair_eq}
use deepkeel.Base.Exec.{Exec, pure, lift, read, modify, raise_some, ◌>>=◌, ◌>>◌}
use deepkeel.Base.Dict.{Dict, get, put}
use deepkeel.Base.Text.{or_else}
use deepkeel.Base.Objects.{Objects}
use deepkeel.Scope.{RuntimeScope, RunKey, storage_key, scope_of_user}
use deepkeel.StateStore.Aggregate.{
  StateError, RuntimeStateMutation, RuntimeStateReceipt, RunAggregate, apply,
}
use deepkeel.StateStore.Memory.{
  MemoryRuntimeState, Stage, FailureInjector, before_event, after_event, after_checkpoint,
  after_checkpoint_cleanup, before_commit, fresh, aggregate, append_event, append_checkpoint,
  delete_checkpoints, settle_state, receipt_of, keep_receipt, checks,
}

-- InMemoryRuntimeStateStore
abbrev pub States : Type 0 → Type 0
States Any = Dict RunKey (MemoryRuntimeState Any)

-- RuntimeStateReceipt(**{**replay.as_dict(), "replayed": True})
abbrev pub as_replayed : RuntimeStateReceipt → RuntimeStateReceipt
as_replayed r = record r { replayed = true }

module _ {Any : Type 0} where
  abbrev pub or_fresh : Option (MemoryRuntimeState Any) → MemoryRuntimeState Any
  or_fresh none = fresh
  or_fresh (some s) = s

  -- the state that `setdefault` returns: a run that has no entry reads as a new one
  unfoldable pub state_at : States Any → RunKey → MemoryRuntimeState Any
  state_at states key = or_fresh (get states key)

  -- _fail_at
  unfoldable pub fail_at :
      FailureInjector → Stage → Exec (MemoryRuntimeState Any) StateError (Unit {0})
  fail_at none stage = raise_some none
  fail_at (some injector) stage = raise_some (injector stage)

module _ {Any : Type 0} ⦃py : Objects Any⦄ where
  -- The body of the `try`, on the state object: an exception leaves what was written.
  unfoldable pub attempt :
      FailureInjector
      → RunAggregate Any
      → ℕ
      → RuntimeStateMutation Any
      → Exec (MemoryRuntimeState Any) StateError RuntimeStateReceipt
  unfolding fail_at
  attempt injector agg now m = do
    fail_at injector before_event
    s ← read
    agg' ← lift (apply agg m (s.sequence + 1))
    modify (append_event m)
    fail_at injector after_event
    modify (append_checkpoint m)
    fail_at injector after_checkpoint
    modify (delete_checkpoints m)
    fail_at injector after_checkpoint_cleanup
    modify (settle_state agg' now m)
    modify (keep_receipt m)
    fail_at injector before_commit
    s' ← read
    pure (receipt_of m s')

  -- `except Exception: self._states[state_key] = before; raise`
  abbrev pub or_restore :
      States Any
      → RunKey
      → MemoryRuntimeState Any
      → Result StateError RuntimeStateReceipt × MemoryRuntimeState Any
      → Result StateError RuntimeStateReceipt × States Any
  or_restore states key before (ok receipt, written) = (ok receipt, put states key written)
  or_restore states key before (err e, written) = (err e, put (put states key written) key before)

  abbrev pub if_passed :
      Result StateError (Unit {0})
      → States Any
      → Result StateError RuntimeStateReceipt × States Any
      → Result StateError RuntimeStateReceipt × States Any
  if_passed (err e) states rest = (err e, states)
  if_passed (ok _) states rest = rest

  abbrev pub if_new :
      Option RuntimeStateReceipt
      → States Any
      → Result StateError RuntimeStateReceipt × States Any
      → Result StateError RuntimeStateReceipt × States Any
  if_new (some replay) states rest = (ok (as_replayed replay), states)
  if_new none states rest = rest

  -- The commit to one run, whose state `setdefault` has put into the store
  unfoldable pub commit_at :
      FailureInjector
      → ℕ
      → RunKey
      → RuntimeStateMutation Any
      → States Any
      → Result StateError RuntimeStateReceipt × States Any
  commit_at injector now key m states =
      let current = state_at states key in
      let present = put states key current in
      if_new (get current.receipts m.mutation_id) present (
        if_passed (checks current m) present (
          or_restore present key current
            (attempt injector (aggregate current m.run_id) now m current)))

  unfoldable pub commit_scoped :
      FailureInjector
      → ℕ
      → RuntimeScope
      → RuntimeStateMutation Any
      → States Any
      → Result StateError RuntimeStateReceipt × States Any
  unfolding commit_at
  commit_scoped injector now scope m states =
      commit_at injector now (storage_key scope, m.run_id) m states

  unfoldable pub commit :
      FailureInjector
      → ℕ
      → String
      → RuntimeStateMutation Any
      → States Any
      → Result StateError RuntimeStateReceipt × States Any
  unfolding commit_scoped
  commit injector now user m states =
      commit_scoped injector now (scope_of_user (or_else user "local-device")) m states

-- ===== src/StateStore/Entries.antt =====
-- The entries of the store after a commit, read key by key with nothing put in for a missing one.
use deepkeel.Base.{
  ℕ, ◌≡◌, ◌≢◌, refl, ◌∙◌, inl, inr, false, Bool-cases, Option, none, some, Result, ok, err,
  if◌then◌else◌, ◌==◌, string_eq, pair_eq, beq_ne,
}
use deepkeel.Base.Dict.{get, put, get-put}
use deepkeel.Base.Objects.{Objects}
use deepkeel.Scope.{RunKey}
use deepkeel.StateStore.Aggregate.{StateError, RuntimeStateMutation, RuntimeStateReceipt}
use deepkeel.StateStore.Memory.{MemoryRuntimeState, FailureInjector, aggregate, checks}
use deepkeel.StateStore.Commit.{
  States, state_at, or_fresh, attempt, commit_at, or_restore, if_passed, if_new,
}

module _ {Any : Type 0} ⦃py : Objects Any⦄ where
  module _ (injector : FailureInjector) (now : ℕ) (key : RunKey) (m : RuntimeStateMutation Any)
      (states : States Any) (j : RunKey) where
    abbrev present : States Any
    present = put states key (state_at states key)

    -- what stands where a commit has raised: only the entry that `setdefault` puts
    abbrev entry_after_error : Option (MemoryRuntimeState Any)
    entry_after_error = if key == j then some (or_fresh (get states key)) else get states j

    get-present : get present j ≡ entry_after_error
    unfolding state_at
    get-present = get-put states key j (state_at states key)

    get-restored :
        (written : MemoryRuntimeState Any)
        → get (put (put present key written) key (state_at states key)) j ≡ entry_after_error
    unfolding state_at
    get-restored written = elim (Bool-cases (key == j)) [
      | inl e ↦ rw (get-put, e) refl
      | inr e ↦ rw (get-put, e, get-put, e, get-put, e) refl
    ]

    after_error :
        (o : Option RuntimeStateReceipt) (c : Result StateError (Unit {0}))
        (a : Result StateError RuntimeStateReceipt × MemoryRuntimeState Any) {x : StateError}
        → (if_new o present
            (if_passed c present (or_restore present key (state_at states key) a))).0
          ≡ err x
        → get
            (if_new o present
              (if_passed c present (or_restore present key (state_at states key) a))).1
            j
          ≡ entry_after_error
    after_error (some old) c a h = absurd (cc h)
    after_error none (err e) a h = get-present
    after_error none (ok u) (err e, written) h = get-restored written
    after_error none (ok u) (ok r, written) h = absurd (cc h)

    elsewhere :
        (o : Option RuntimeStateReceipt) (c : Result StateError (Unit {0}))
        (a : Result StateError RuntimeStateReceipt × MemoryRuntimeState Any)
        → (key == j) ≡ false
        → get
            (if_new o present
              (if_passed c present (or_restore present key (state_at states key) a))).1
            j
          ≡ get states j
    elsewhere (some old) c a h = get-present ∙ rw h refl
    elsewhere none (err e) a h = get-present ∙ rw h refl
    elsewhere none (ok u) (err e, written) h = get-restored written ∙ rw h refl
    elsewhere none (ok u) (ok r, written) h =
        get-put present key j written ∙ rw h (get-present ∙ rw h refl)

    pub get-commit_at_error :
        {x : StateError}
        → (commit_at injector now key m states).0 ≡ err x
        → get (commit_at injector now key m states).1 j
          ≡ (if key == j then some (or_fresh (get states key)) else get states j)
    unfolding commit_at
    get-commit_at_error h =
        after_error (get (state_at states key).receipts m.mutation_id)
          (checks (state_at states key) m)
          (attempt injector (aggregate (state_at states key) m.run_id) now m (state_at states key))
          h

    pub get-commit_at_elsewhere :
        key ≢ j → get (commit_at injector now key m states).1 j ≡ get states j
    unfolding commit_at
    get-commit_at_elsewhere ne =
        elsewhere (get (state_at states key).receipts m.mutation_id)
          (checks (state_at states key) m)
          (attempt injector (aggregate (state_at states key) m.run_id) now m (state_at states key))
          (beq_ne ne)

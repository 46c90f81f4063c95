-- ===== src/StateStore/Outcome.antt =====
-- The three ways in which a commit ends, read key by key.
use deepkeel.Base.{
  ℕ, ◌≡◌, refl, ap, subst, inl, inr, Bool-cases, Option, none, some, Result, ok, err, if◌then◌else◌,
  ◌==◌, string_eq, pair_eq, eq_of_beq, beq_refl,
}
use deepkeel.Base.Dict.{get, put, get-put}
use deepkeel.Base.Objects.{Objects}
use deepkeel.Scope.{RunKey}
use deepkeel.StateStore.Aggregate.{StateError, RuntimeStateMutation, RuntimeStateReceipt}
use deepkeel.StateStore.Memory.{MemoryRuntimeState, FailureInjector, aggregate, checks}
use deepkeel.StateStore.Commit.{
  States, state_at, as_replayed, attempt, commit_at, or_restore, if_passed, if_new,
}
use deepkeel.StateStore.Committed.{Made, attempt-ok}

module _ {Any : Type 0} where
  pub state_at-put :
      (states : States Any) (key j : RunKey) (s : MemoryRuntimeState Any)
      → state_at (put states key s) j ≡ (if key == j then s else state_at states j)
  unfolding state_at
  state_at-put states key j s =
      rw get-put (elim (Bool-cases (key == j)) [ inl e ↦ rw e | inr e ↦ rw e ])

  -- every run reads as before
  abbrev pub Same : States Any → States Any → Type 0
  Same states states' = (j : RunKey) → state_at states' j ≡ state_at states j

  -- one run reads as given, the others as before
  abbrev pub Updates : RunKey → MemoryRuntimeState Any → States Any → States Any → Type 0
  Updates key s' states states' =
      (j : RunKey) → state_at states' j ≡ (if key == j then s' else state_at states j)

  pub Same-present :
      (states : States Any) (key : RunKey) → Same states (put states key (state_at states key))
  Same-present states key j = rw state_at-put (elim (Bool-cases (key == j)) [
    | inl e ↦ rw e (ap (state_at states) (eq_of_beq e))
    | inr e ↦ rw e
  ])

  -- what `except` does undoes what was written
  pub Same-restored :
      (states : States Any) (key : RunKey) (s : MemoryRuntimeState Any)
      → Same states
          (put (put (put states key (state_at states key)) key s) key (state_at states key))
  Same-restored states key s j = rw state_at-put (elim (Bool-cases (key == j)) [
    | inl e ↦ rw e (ap (state_at states) (eq_of_beq e))
    | inr e ↦ rw e (rw state_at-put (rw e (Same-present states key j)))
  ])

  Updates-put :
      (states : States Any) (key : RunKey) (s : MemoryRuntimeState Any)
      → Updates key s states (put (put states key (state_at states key)) key s)
  Updates-put states key s j =
      rw state_at-put
        (elim (Bool-cases (key == j)) [ inl e ↦ rw e | inr e ↦ rw e (Same-present states key j) ])

module _ {Any : Type 0} ⦃py : Objects Any⦄ where
  pub data Outcome (injector : FailureInjector) (now : ℕ) (key : RunKey)
      (m : RuntimeStateMutation Any) (states : States Any)
      (result : Result StateError RuntimeStateReceipt × States Any) : Type 0 where
    replayed :
        (old : RuntimeStateReceipt)
        → get (state_at states key).receipts m.mutation_id ≡ some old
        → result.0 ≡ ok (as_replayed old)
        → Same states result.1
        → Outcome injector now key m states result
    refused :
        (e : StateError)
        → get (state_at states key).receipts m.mutation_id ≡ none
        → result.0 ≡ err e
        → Same states result.1
        → Outcome injector now key m states result
    committed :
        (r : RuntimeStateReceipt) (s' : MemoryRuntimeState Any)
        → get (state_at states key).receipts m.mutation_id ≡ none
        → checks (state_at states key) m ≡ ok tt
        → Made (aggregate (state_at states key) m.run_id) now m (state_at states key) s' r
        → result.0 ≡ ok r
        → Updates key s' states result.1
        → Outcome injector now key m states result

  module _ (injector : FailureInjector) (now : ℕ) (key : RunKey) (m : RuntimeStateMutation Any)
      (states : States Any) where
    abbrev present : States Any
    present = put states key (state_at states key)

    ending :
        (o : Option RuntimeStateReceipt) (c : Result StateError (Unit {0}))
        (a : Result StateError RuntimeStateReceipt × MemoryRuntimeState Any)
        → get (state_at states key).receipts m.mutation_id ≡ o
        → checks (state_at states key) m ≡ c
        → attempt injector (aggregate (state_at states key) m.run_id) now m (state_at states key)
          ≡ a
        → Outcome injector now key m states (
            if_new o present (if_passed c present (or_restore present key (state_at states key) a)))
    ending (some old) c a eo ec ea = replayed old eo refl (Same-present states key)
    ending none (err e) a eo ec ea = refused e eo refl (Same-present states key)
    ending none (ok u) (err e, s') eo ec ea = refused e eo refl (Same-restored states key s')
    ending none (ok u) (ok r, s') eo ec ea =
        committed r s' eo ec
          (subst
            (λ (p : Result StateError RuntimeStateReceipt × MemoryRuntimeState Any).
              Made (aggregate (state_at states key) m.run_id) now m (state_at states key) p.1 r)
            ea
            (attempt-ok injector (aggregate (state_at states key) m.run_id) now m
              (state_at states key)
              (ap (λ (p : Result StateError RuntimeStateReceipt × MemoryRuntimeState Any). p.0)
                ea)))
          refl (Updates-put states key s')

    pub commit_at-Outcome : Outcome injector now key m states (commit_at injector now key m states)
    unfolding commit_at
    commit_at-Outcome = ending _ _ _ refl refl refl

    get-put_self :
        (d : States Any) (s : MemoryRuntimeState Any)
        → get (put d key s) key ≡ some (state_at (put d key s) key)
    unfolding state_at
    get-put_self d s = rw get-put (rw (beq_refl key))

    entry_left :
        (o : Option RuntimeStateReceipt) (c : Result StateError (Unit {0}))
        (a : Result StateError RuntimeStateReceipt × MemoryRuntimeState Any)
        → let result =
            if_new o present
              (if_passed c present (or_restore present key (state_at states key) a)) in
          get result.1 key ≡ some (state_at result.1 key)
    entry_left (some old) c a = get-put_self states (state_at states key)
    entry_left none (err e) a = get-put_self states (state_at states key)
    entry_left none (ok u) (err e, s') = get-put_self (put present key s') (state_at states key)
    entry_left none (ok u) (ok r, s') = get-put_self present s'

    -- a commit, whatever it returns, leaves an entry for its run
    pub get-commit_at :
        get (commit_at injector now key m states).1 key
        ≡ some (state_at (commit_at injector now key m states).1 key)
    unfolding commit_at
    get-commit_at =
        entry_left (get (state_at states key).receipts m.mutation_id)
          (checks (state_at states key) m)
          (attempt injector (aggregate (state_at states key) m.run_id) now m (state_at states key))

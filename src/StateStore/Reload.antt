-- ===== src/StateStore/Reload.antt =====
-- The state of a run as it is read back: what the reducer returned.
use deepkeel.Base.{
  ℕ, ◌+◌, String, ◌≡◌, ◌≢◌, refl, ap, ◌∙◌, inl, inr, Bool, true, false, not, Bool-cases, none, some,
  List, [], ◌∷◌, ◌++◌, ok, arith, if◌then◌else◌, string_eq, pair_eq, nat_eq, eq_iff, beq_refl,
  contains, filter, get_last?, get_last?-append,
}
use deepkeel.Base.Int.{int_eq}
use deepkeel.Base.Dict.{get}
use deepkeel.Base.Text.{or_else}
use deepkeel.Base.Objects.{Objects}
use deepkeel.Scope.{RuntimeScope, storage_key}
use deepkeel.StateStore.Status.{
  is_terminal, is_terminal-or_else, normalize_runtime_status, normalize-normalize,
}
use deepkeel.StateStore.Aggregate.{
  RuntimeStateMutation, RuntimeStateReceipt, RunAggregate, apply, snapshot, post_init,
}
use deepkeel.StateStore.Memory.{
  MemoryRuntimeState, Checkpoint, new_event, new_checkpoint, aggregate, checks, append_event,
  append_checkpoint, delete_checkpoints, settle_state, keep_receipt,
}
use deepkeel.StateStore.Commit.{States, state_at, commit_scoped}
use deepkeel.StateStore.Applied.{apply-Applied}
use deepkeel.StateStore.Committed.{Made, written}
use deepkeel.StateStore.Outcome.{get-commit_at, replayed, refused, committed}
use deepkeel.StateStore.Histories.{Request, key_of, handle, HandleOutcome, handle-Outcome}
use deepkeel.StateStore.Fencing.{fence-written}
use deepkeel.StateStore.Queries.{lookup_state, load_snapshot_scoped}

filter-append {ℓ} :
    {A : Type ℓ} (p : A → Bool) (xs ys : List A) → filter p (xs ++ ys) ≡ filter p xs ++ filter p ys
filter-append p [] ys = refl
filter-append p (x ∷ xs) ys = elim (Bool-cases (p x)) [
  | inl e ↦ rw e (ap (λ l. x ∷ l) (filter-append p xs ys))
  | inr e ↦ rw e (filter-append p xs ys)
]

or_else_given : (s d : String) → s ≢ "" → or_else s d ≡ s
or_else_given String.[] d h = absurd (h refl)
or_else_given (String.◌∷◌ c s) d h = refl

terminal_given : (s : String) → is_terminal s ≡ true → or_else s "preparing" ≡ s
unfolding is_terminal
terminal_given String.[] h = absurd (cc)
terminal_given (String.◌∷◌ c s) h = refl

module _ {Any : Type 0} where
  post_init-ok :
      (self : RunAggregate Any) (n : String)
      → self.run_id ≢ ""
      → normalize_runtime_status n ≡ or_else n "preparing"
      → self.status ≡ n
      → self.settled ≡ is_terminal n
      → self.settlement_status ≡ (if is_terminal n then n else "")
      → post_init self ≡ ok (record self { status = or_else n "preparing" })
  unfolding post_init
  post_init-ok self n h again e settled settlement = ground (
    arith,
    ap normalize_runtime_status e,
    is_terminal-or_else n,
    terminal_given n,
    eq_iff self.run_id "",
    beq_refl n,
    eq_iff self.settlement_status n,
    eq_iff self.settlement_status "",
    ap is_terminal again,
  )

  -- The snapshot of a run with an id is always valid: its constructor does not raise.
  pub snapshot-aggregate :
      (s : MemoryRuntimeState Any) (run_id : String)
      → run_id ≢ ""
      → snapshot (aggregate s run_id)
        ≡ ok (record (aggregate s run_id) {
          status = or_else (normalize_runtime_status s.status) "preparing";
        })
  unfolding snapshot aggregate
  snapshot-aggregate s run_id h =
      post_init-ok (aggregate s run_id) (normalize_runtime_status s.status) h
        (normalize-normalize s.status) refl refl refl

module _ {Any : Type 0} ⦃py : Objects Any⦄ where
  last_checkpoint :
      (m : RuntimeStateMutation Any) (n : ℕ) (cs : List (Checkpoint Any))
      → contains m.delete_checkpoint_types m.checkpoint_type ≡ false
      → get_last? (
          filter
            (λ (c : Checkpoint Any). not (contains m.delete_checkpoint_types c.checkpoint_type))
            (cs ++ new_checkpoint m n ∷ []))
        ≡ some (new_checkpoint m n)
  last_checkpoint m n cs h =
      let keeps =
        λ (c : Checkpoint Any). not (contains m.delete_checkpoint_types c.checkpoint_type) in
      rw
        (filter-append
          (λ (c : Checkpoint Any). not (contains m.delete_checkpoint_types c.checkpoint_type)))
        (rw h (get_last?-append (filter keeps cs) (new_checkpoint m n)))

  -- Reading a run back after a commit gives what the reducer returned, under the new fence and time.
  -- That is so where the commit does not delete checkpoints of its own type, and its target status
  -- is not blank.
  pub reload-Made :
      (run_id : String) {now : ℕ} {m : RuntimeStateMutation Any} {s s' : MemoryRuntimeState Any}
      {r : RuntimeStateReceipt}
      → contains m.delete_checkpoint_types m.checkpoint_type ≡ false
      → normalize_runtime_status m.target_status ≢ ""
      → (made : Made (aggregate s run_id) now m s s' r)
      → aggregate s' run_id ≡ record (made.agg') {
        fence_token = s'.fence_token;
        fence_generation = s'.fence_generation;
        updated_at = some now;
      }
  unfolding written append_event append_checkpoint delete_checkpoints settle_state keep_receipt
      aggregate
  reload-Made run_id {now} {m} {s} h n made =
      let a = apply-Applied (aggregate s run_id) m (s.sequence + 1) made.applied in
      rw (made.writes, last_checkpoint m (s.sequence + 1) s.checkpoints h)
        (rw (get_last?-append s.events (new_event m s)) (
          rw a.result (
            rw (normalize-normalize m.target_status)
              (rw (or_else_given (normalize_runtime_status m.target_status) "preparing" n)))))

  snapshot-Made :
      (run_id : String) {now : ℕ} {m : RuntimeStateMutation Any} {s s' : MemoryRuntimeState Any}
      {r : RuntimeStateReceipt}
      → run_id ≢ ""
      → contains m.delete_checkpoint_types m.checkpoint_type ≡ false
      → normalize_runtime_status m.target_status ≢ ""
      → checks s m ≡ ok tt
      → (made : Made (aggregate s run_id) now m s s' r)
      → snapshot (aggregate s' run_id)
        ≡ ok (record (made.agg') {
          fence_token = s'.fence_token;
          fence_generation = m.fence_generation;
          updated_at = some now;
        })
  unfolding aggregate
  snapshot-Made run_id {now} {m} {s} {s'} h keeps n c made =
      let a = apply-Applied (aggregate s run_id) m (s.sequence + 1) made.applied in
      let reload = reload-Made run_id keeps n made in
      let status : or_else (normalize_runtime_status s'.status) "preparing" ≡ made.agg'.status =
        rw (ap (λ (x : RunAggregate Any). x.status) reload)
          (rw a.result (or_else_given (normalize_runtime_status m.target_status) "preparing" n)) in
      snapshot-aggregate s' run_id h
      ∙ ap ok (
          ap
            (λ (x : RunAggregate Any). record x {
              status = or_else (normalize_runtime_status s'.status) "preparing";
            })
            reload
          ∙ rw (status, (fence-written run_id c made).1))

  lookup_state_of_entry :
      (states : States Any) (run_id : String) (scope : RuntimeScope) (s : MemoryRuntimeState Any)
      → get states (storage_key scope, run_id) ≡ some s
      → lookup_state states run_id scope ≡ s
  unfolding lookup_state
  lookup_state_of_entry states run_id scope s h = rw (h, lookup_state)

  get-handle :
      (states : States Any) (q : Request Any)
      → get (handle states q).1 (key_of q) ≡ some (state_at (handle states q).1 (key_of q))
  unfolding commit_scoped
  get-handle states q = get-commit_at q.injector q.now (key_of q) q.mutation states

  lookup_state-handle :
      (states : States Any) (q : Request Any)
      → lookup_state (handle states q).1 q.mutation.run_id q.scope
        ≡ state_at (handle states q).1 (key_of q)
  lookup_state-handle states q =
      lookup_state_of_entry (handle states q).1 q.mutation.run_id q.scope _ (get-handle states q)

  -- What is known of a snapshot that is loaded after a commit
  pub record Reloaded (states : States Any) (q : Request Any) : Type 0 where
    pub agg' : RunAggregate Any
    pub applied :
        let s = state_at states (key_of q) in
        apply (aggregate s q.mutation.run_id) q.mutation (s.sequence + 1) ≡ ok agg'
    pub loaded :
        let s' = state_at (handle states q).1 (key_of q) in
        load_snapshot_scoped (handle states q).1 q.mutation.run_id q.scope
        ≡ ok (record agg' {
          fence_token = s'.fence_token;
          fence_generation = q.mutation.fence_generation;
          updated_at = some q.now;
        })

  loaded_after :
      (states : States Any) (q : Request Any) {r : RuntimeStateReceipt}
      → q.mutation.run_id ≢ ""
      → contains q.mutation.delete_checkpoint_types q.mutation.checkpoint_type ≡ false
      → normalize_runtime_status q.mutation.target_status ≢ ""
      → get (state_at states (key_of q)).receipts q.mutation.mutation_id ≡ none
      → (handle states q).0 ≡ ok r
      → HandleOutcome states q
      → Reloaded states q
  unfolding load_snapshot_scoped
  loaded_after states q h keeps n free ok' (replayed old f e same) = absurd (cc)
  loaded_after states q h keeps n free ok' (refused x f e same) = absurd (cc)
  loaded_after states q h keeps n free ok' (committed r s' f c made e updates) = record {
    agg' = made.agg';
    applied = made.applied;
    loaded = rw (lookup_state-handle states q) (
        rw (updates (key_of q))
          (rw (beq_refl (key_of q)) (snapshot-Made q.mutation.run_id h keeps n c made)));
  }

  -- A snapshot that is loaded after a new commit has returned is the state that the reducer returned
  -- for it, under the mutation's fence generation and the time of the commit. That is so where the
  -- run has an id, the target status is not blank, and the mutation deletes no checkpoint of the
  -- type that it writes.
  pub load_after_commit :
      (states : States Any) (q : Request Any) {r : RuntimeStateReceipt}
      → q.mutation.run_id ≢ ""
      → contains q.mutation.delete_checkpoint_types q.mutation.checkpoint_type ≡ false
      → normalize_runtime_status q.mutation.target_status ≢ ""
      → get (state_at states (key_of q)).receipts q.mutation.mutation_id ≡ none
      → (handle states q).0 ≡ ok r
      → Reloaded states q
  load_after_commit states q h keeps n free e =
      loaded_after states q h keeps n free e (handle-Outcome states q)

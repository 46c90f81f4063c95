-- ===== src/StateStore/WellFormed.antt =====
-- The invariant of one run's state, and that a commit which returns keeps it.
use deepkeel.Base.{
  ℕ, suc, ◌+◌, ◌≤◌, String, ◌≡◌, refl, sym, ap, ◌∙◌, Bool, true, false, some, List, [], ◌∷◌, ◌++◌,
  length, length-append, All, All-append, All-filter, ok, arith, if◌then◌else◌, ◌==◌, string_eq,
  pair_eq, eq_iff,
}
use deepkeel.Base.Int.{neg_part}
use deepkeel.Base.Dict.{get, get-put, get-empty}
use deepkeel.Base.Text.{or_else}
use deepkeel.Base.Objects.{Objects}
use deepkeel.StateStore.Status.{
  is_terminal, normalize_runtime_status, run_settled_event, normalize-normalize,
  normalize-preparing, is_terminal-or_else,
}
use deepkeel.StateStore.Aggregate.{RuntimeStateMutation, RuntimeStateReceipt, RunAggregate}
use deepkeel.StateStore.Memory.{
  Event, Checkpoint, new_event, MemoryRuntimeState, fresh, aggregate, checks, append_event,
  append_checkpoint, delete_checkpoints, settle_state, keep_receipt, receipt_of,
}
use deepkeel.StateStore.Applied.{Applied, apply-Applied}
use deepkeel.StateStore.Committed.{Made, written}

abbrev pub one_if : Bool → ℕ
one_if true = 1
one_if false = 0

module _ {Any : Type 0} where
  -- The events are numbered from `n` on, without a gap.
  abbrev pub NumberedFrom : ℕ → List (Event Any) → Type 0
  NumberedFrom n [] = Unit
  NumberedFrom n (e ∷ es) = (e.sequence ≡ n) × NumberedFrom (suc n) es

  -- how many `run.settled` events a journal holds
  abbrev pub settled_events : List (Event Any) → ℕ
  settled_events [] = 0
  settled_events (e ∷ es) =
      let rest = settled_events es in if e.event_type == run_settled_event then suc rest else rest

  pub record IsWellFormed (s : MemoryRuntimeState Any) : Type 0 where
    pub versions : s.version ≡ s.sequence
    pub journal : length s.events ≡ s.sequence
    pub numbered : NumberedFrom 1 s.events
    pub settled_once : settled_events s.events ≡ one_if (is_terminal s.status)
    pub normalized : normalize_runtime_status s.status ≡ or_else s.status "preparing"
    pub checkpointed : All (λ (c : Checkpoint Any). c.sequence ≤ s.sequence) s.checkpoints
    pub fenced : neg_part s.fence_generation ≡ 0
    pub receipted :
        (id : String) (r : RuntimeStateReceipt)
        → get s.receipts id ≡ some r
        → (r.mutation_id ≡ id)
          × (r.replayed ≡ false)
          × (r.sequence ≡ r.version)
          × (r.version ≤ s.version)

  NumberedFrom-append :
      (n : ℕ) (es : List (Event Any)) (e : Event Any)
      → NumberedFrom n es
      → e.sequence ≡ n + length es
      → NumberedFrom n (es ++ e ∷ [])
  NumberedFrom-append n [] e h k = (omega arith, tt)
  NumberedFrom-append n (x ∷ es) e h k = (h.0, NumberedFrom-append (suc n) es e h.1 (omega arith))

  settled_events-append :
      (es : List (Event Any)) (e : Event Any)
      → settled_events (es ++ e ∷ [])
        ≡ settled_events es + one_if (e.event_type == run_settled_event)
  settled_events-append [] e = ground arith
  settled_events-append (x ∷ es) e = ground (arith, settled_events-append es e)

  All-le_suc :
      (n : ℕ) (cs : List (Checkpoint Any))
      → All (λ (c : Checkpoint Any). c.sequence ≤ n) cs
      → All (λ (c : Checkpoint Any). c.sequence ≤ n + 1) cs
  All-le_suc n [] h = tt
  All-le_suc n (c ∷ cs) h = (omega arith, All-le_suc n cs h.1)

  pub fresh-IsWellFormed : IsWellFormed (fresh {Any = Any})
  unfolding is_terminal
  fresh-IsWellFormed = record {
    versions = refl;
    journal = refl;
    numbered = tt;
    settled_once = refl;
    normalized = normalize-preparing;
    checkpointed = tt;
    fenced = refl;
    receipted = λ id r h. absurd (ground (arith, get-empty {V = RuntimeStateReceipt} id));
  }

module _ {Any : Type 0} ⦃py : Objects Any⦄ where
  module _ (now : ℕ) (m : RuntimeStateMutation Any) (s : MemoryRuntimeState Any) (run_id : String)
      (agg' : RunAggregate Any) (a : Applied (aggregate s run_id) m (s.sequence + 1) agg')
      (w : IsWellFormed s) (fence : neg_part m.fence_generation ≡ 0) where
    version-applied : agg'.version ≡ s.version + 1
    unfolding aggregate
    version-applied = ap (λ (x : RunAggregate Any). x.version) a.result

    status-applied : agg'.status ≡ normalize_runtime_status m.target_status
    status-applied = ap (λ (x : RunAggregate Any). x.status) a.result

    was_open : is_terminal s.status ≡ false
    unfolding aggregate
    was_open = sym (is_terminal-or_else s.status) ∙ ap is_terminal (sym w.normalized) ∙ a.was_open

    journal_written : length (s.events ++ new_event m s ∷ []) ≡ s.sequence + 1
    journal_written = omega (arith, length-append {0} s.events (new_event m s ∷ []), w.journal)

    settled_written :
        settled_events (s.events ++ new_event m s ∷ []) ≡ one_if (is_terminal agg'.status)
    settled_written =
        rw (settled_events-append, w.settled_once, was_open, status-applied, a.settles)
          (omega arith)

    written-IsWellFormed : IsWellFormed (written agg' now m s)
    unfolding written append_event append_checkpoint delete_checkpoints settle_state keep_receipt
        receipt_of
    written-IsWellFormed = record {
      versions = version-applied ∙ ap (λ n. n + 1) w.versions;
      journal = journal_written;
      numbered =
          NumberedFrom-append 1 s.events (new_event m s) w.numbered (omega (arith, w.journal));
      settled_once = settled_written;
      normalized = rw status-applied (normalize-normalize m.target_status);
      checkpointed = All-filter _ _ _ (
          All-append _ s.checkpoints _ (All-le_suc s.sequence s.checkpoints w.checkpointed)
            (omega arith, tt));
      fenced = ground (arith, w.fenced);
      receipted = λ id r.
          rw get-put (ground (arith, eq_iff m.mutation_id id, w.receipted id r, version-applied));
    }

  fence-checked :
      (s : MemoryRuntimeState Any) (m : RuntimeStateMutation Any)
      → checks s m ≡ ok tt
      → neg_part m.fence_generation ≡ 0
  unfolding checks
  fence-checked s m h = ground arith

  -- A commit that returns keeps the invariant of its run.
  pub Made-IsWellFormed :
      (run_id : String) {now : ℕ} {m : RuntimeStateMutation Any} {s s' : MemoryRuntimeState Any}
      {r : RuntimeStateReceipt}
      → checks s m ≡ ok tt
      → Made (aggregate s run_id) now m s s' r
      → IsWellFormed s
      → IsWellFormed s'
  Made-IsWellFormed run_id {now} {m} {s} checked made w = rw made.writes (
      written-IsWellFormed now m s run_id made.agg'
        (apply-Applied (aggregate s run_id) m (s.sequence + 1) made.applied) w
        (fence-checked s m checked))

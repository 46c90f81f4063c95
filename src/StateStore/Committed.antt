-- ===== src/StateStore/Committed.antt =====
-- What a commit that returns has done to its run.
use deepkeel.Base.{ℕ, ◌+◌, ◌≡◌, inl, inr, ok, Result-cases, arith}
use deepkeel.Base.Objects.{Objects}
use deepkeel.StateStore.Aggregate.{RuntimeStateMutation, RuntimeStateReceipt, RunAggregate, apply}
use deepkeel.StateStore.Memory.{
  MemoryRuntimeState, FailureInjector, append_event, append_checkpoint, delete_checkpoints,
  settle_state, receipt_of, keep_receipt,
}
use deepkeel.StateStore.Commit.{attempt}

module _ {Any : Type 0} ⦃py : Objects Any⦄ where
  -- every write of a commit, in order
  unfoldable pub written :
      RunAggregate Any
      → ℕ
      → RuntimeStateMutation Any
      → MemoryRuntimeState Any
      → MemoryRuntimeState Any
  written agg now m s =
      keep_receipt m
        (settle_state agg now m (delete_checkpoints m (append_checkpoint m (append_event m s))))

  -- an attempt that returns has made every write, from the aggregate that `apply` returned
  pub record Made (agg : RunAggregate Any) (now : ℕ) (m : RuntimeStateMutation Any)
      (s s' : MemoryRuntimeState Any) (r : RuntimeStateReceipt) : Type 0 where
    pub agg' : RunAggregate Any
    pub applied : apply agg m (s.sequence + 1) ≡ ok agg'
    pub writes : s' ≡ written agg' now m s
    pub receipt : r ≡ receipt_of m s'

  pub attempt-ok :
      (injector : FailureInjector) (agg : RunAggregate Any) (now : ℕ) (m : RuntimeStateMutation Any)
      (s : MemoryRuntimeState Any) {r : RuntimeStateReceipt}
      → (attempt injector agg now m s).0 ≡ ok r
      → Made agg now m s (attempt injector agg now m s).1 r
  unfolding attempt written
  attempt-ok injector agg now m s h = elim (Result-cases (apply agg m (s.sequence + 1))) [
    | inl (agg', e) ↦ record {
      agg' = agg';
      applied = e;
      writes = ground (arith, e);
      receipt = ground (arith, e);
    }
    | inr (x, e) ↦ absurd (ground (arith, e))
  ]

-- ===== src/StateStore/Applied.antt =====
-- What `RunAggregate.apply` has checked when it returns, and what it returns.
use deepkeel.Base.{
  ℕ, ◌+◌, ◌≡◌, true, false, ok, arith, if◌then◌else◌, ◌==◌, string_eq, eq_iff, nat_eq,
}
use deepkeel.Base.Objects.{Objects}
use deepkeel.StateStore.Status.{is_terminal, normalize_runtime_status, run_settled_event}
use deepkeel.StateStore.Aggregate.{RunAggregate, RuntimeStateMutation, apply, payload_status}

module _ {Any : Type 0} ⦃py : Objects Any⦄ where
  -- The contract of `apply`: the run was open and is the mutation's, the event is the next one, it
  -- is `run.settled` exactly when the target status is terminal, and then its payload agrees.
  pub record Applied (self : RunAggregate Any) (m : RuntimeStateMutation Any) (sequence : ℕ)
      (self' : RunAggregate Any) : Type 0 where
    pub same_run : m.run_id ≡ self.run_id
    pub was_open : self.settled ≡ false
    pub next : sequence ≡ self.sequence + 1
    pub settles :
        (m.event_type == run_settled_event) ≡ is_terminal (normalize_runtime_status m.target_status)
    pub agrees :
        m.event_type ≡ run_settled_event
        → payload_status m ≡ normalize_runtime_status m.target_status
    pub result : self' ≡ record self {
      sequence = self.sequence + 1;
      version = self.version + 1;
      status = normalize_runtime_status m.target_status;
      settled = is_terminal (normalize_runtime_status m.target_status);
      settlement_status =
          if is_terminal (normalize_runtime_status m.target_status)
          then normalize_runtime_status m.target_status
          else "";
      last_event_type = m.event_type;
      checkpoint_type = m.checkpoint_type;
      checkpoint_state = m.checkpoint_state;
      resume_token = m.resume_token;
    }

  apply-eq_run :
      (self : RunAggregate Any) (m : RuntimeStateMutation Any) (n : ℕ) {self' : RunAggregate Any}
      → apply self m n ≡ ok self'
      → ((m.run_id == self.run_id) ≡ true) × (self.settled ≡ false) × (n ≡ self.sequence + 1)
  unfolding apply
  apply-eq_run self m n h = ground arith

  pub apply-Applied :
      (self : RunAggregate Any) (m : RuntimeStateMutation Any) (n : ℕ) {self' : RunAggregate Any}
      → apply self m n ≡ ok self'
      → Applied self m n self'
  unfolding apply
  apply-Applied self m n h = record {
    same_run = (eq_iff m.run_id self.run_id).0 (apply-eq_run self m n h).0;
    was_open = (apply-eq_run self m n h).1;
    next = (apply-eq_run self m n h).2;
    settles = ground arith;
    agrees = λ e. ground (
      arith,
      e,
      eq_iff m.event_type run_settled_event,
      eq_iff (payload_status m) (normalize_runtime_status m.target_status),
    );
    result = ground (arith, (apply-eq_run self m n h).2);
  }

-- ===== src/StateStore/Memory.antt =====
-- `_MemoryRuntimeState`, the checks of a commit, and each of the writes that a commit is made of.
-- The time of day and what the failure injector raises are arguments.
use deepkeel.Base.{
  ℕ, ◌+◌, String, Bool, false, not, ◌&&◌, Option, none, some, List, [], ◌∷◌, ◌++◌, Result, ok,
  raise_if, ◌>>◌, if◌then◌else◌, ◌==◌, string_eq, nat_eq, pair_eq, contains, filter, get_last?,
}
use deepkeel.Base.Int.{ℤ, pos, ltb_ℤ, int_eq}
use deepkeel.Base.Dict.{Dict, empty, put}
use deepkeel.StateStore.Status.{normalize_runtime_status, is_terminal}
use deepkeel.StateStore.Aggregate.{
  StateError, negative_fence_generation, fence_token_required, version_changed, sequence_changed,
  fence_required, stale_fence, fence_token_mismatch, Payload, RuntimeStateMutation,
  RuntimeStateReceipt, RunAggregate,
}

-- One entry of `events`, and one of `checkpoints`
pub record Event (Any : Type 0) : Type 0 where
  pub sequence : ℕ
  pub event_type : String
  pub payload : Payload Any
  pub visibility : String

pub record Checkpoint (Any : Type 0) : Type 0 where
  pub sequence : ℕ
  pub checkpoint_type : String
  pub state : Payload Any
  pub resume_token : String

-- _MemoryRuntimeState
pub record MemoryRuntimeState (Any : Type 0) : Type 0 where
  pub version : ℕ
  pub sequence : ℕ
  pub status : String
  pub events : List (Event Any)
  pub checkpoints : List (Checkpoint Any)
  pub receipts : Dict String RuntimeStateReceipt
  pub fence_token : String
  pub fence_generation : ℤ
  pub updated_at : Option ℕ

-- Where the failure injector is called
pub data Stage : Type 0 where
  before_event after_event after_checkpoint after_checkpoint_cleanup before_commit : Stage

abbrev pub FailureInjector : Type 0
FailureInjector = Option (Stage → Option StateError)

-- the comparisons with `expected_version` and `expected_sequence`
abbrev pub differs : Option ℤ → ℕ → Bool
differs none n = false
differs (some e) n = not (e == pos n)

module _ {Any : Type 0} where
  -- _MemoryRuntimeState()
  abbrev pub fresh : MemoryRuntimeState Any
  fresh = record {
    version = 0;
    sequence = 0;
    status = "preparing";
    events = [];
    checkpoints = [];
    receipts = empty;
    fence_token = "";
    fence_generation = pos 0;
    updated_at = none;
  }

  abbrev event_type_of : Option (Event Any) → String
  event_type_of none = ""
  event_type_of (some e) = e.event_type

  abbrev checkpoint_type_of : Option (Checkpoint Any) → String
  checkpoint_type_of none = ""
  checkpoint_type_of (some c) = c.checkpoint_type

  abbrev checkpoint_state_of : Option (Checkpoint Any) → Payload Any
  checkpoint_state_of none = empty
  checkpoint_state_of (some c) = c.state

  abbrev resume_token_of : Option (Checkpoint Any) → String
  resume_token_of none = ""
  resume_token_of (some c) = c.resume_token

  -- _MemoryRuntimeState.aggregate
  unfoldable pub aggregate : MemoryRuntimeState Any → String → RunAggregate Any
  aggregate self run_id =
      let latest = get_last? self.checkpoints in
      let normalized = normalize_runtime_status self.status in
      record {
        run_id = run_id;
        version = self.version;
        sequence = self.sequence;
        status = normalized;
        settled = is_terminal normalized;
        settlement_status = if is_terminal normalized then normalized else "";
        last_event_type = event_type_of (get_last? self.events);
        checkpoint_type = checkpoint_type_of latest;
        checkpoint_state = checkpoint_state_of latest;
        resume_token = resume_token_of latest;
        fence_token = self.fence_token;
        fence_generation = self.fence_generation;
        updated_at = self.updated_at;
      }

  -- _assert_fence_is_current
  unfoldable pub assert_fence_is_current :
      MemoryRuntimeState Any → RuntimeStateMutation Any → Result StateError (Unit {0})
  assert_fence_is_current current m =
      let generation = m.fence_generation in
      let token = m.fence_token in
      do
        raise_if (ltb_ℤ generation (pos 0)) negative_fence_generation
        raise_if (not (generation == pos 0) && token == "") fence_token_required
        raise_if (not (current.fence_generation == pos 0) && generation == pos 0) fence_required
        raise_if (ltb_ℤ generation current.fence_generation) stale_fence
        raise_if
            (generation == current.fence_generation
              && not (generation == pos 0)
              && not (token == current.fence_token))
            fence_token_mismatch
        ok tt

  unfoldable pub assert_expected :
      MemoryRuntimeState Any → RuntimeStateMutation Any → Result StateError (Unit {0})
  assert_expected current m = do
    raise_if (differs m.expected_version current.version) version_changed
    raise_if (differs m.expected_sequence current.sequence) sequence_changed
    ok tt

  -- what `current.events.append` and `current.checkpoints.append` are given
  abbrev pub new_event : RuntimeStateMutation Any → MemoryRuntimeState Any → Event Any
  new_event m s = record {
    sequence = s.sequence + 1;
    event_type = m.event_type;
    payload = m.event_payload;
    visibility = m.event_visibility;
  }

  abbrev pub new_checkpoint : RuntimeStateMutation Any → ℕ → Checkpoint Any
  new_checkpoint m sequence = record {
    sequence = sequence;
    checkpoint_type = m.checkpoint_type;
    state = m.checkpoint_state;
    resume_token = m.resume_token;
  }

  unfoldable pub append_event :
      RuntimeStateMutation Any → MemoryRuntimeState Any → MemoryRuntimeState Any
  append_event m s = record s { sequence = s.sequence + 1; events = s.events ++ new_event m s ∷ [] }

  unfoldable pub append_checkpoint :
      RuntimeStateMutation Any → MemoryRuntimeState Any → MemoryRuntimeState Any
  append_checkpoint m s = record s {
    checkpoints = s.checkpoints ++ new_checkpoint m s.sequence ∷ [];
  }

  unfoldable pub delete_checkpoints :
      RuntimeStateMutation Any → MemoryRuntimeState Any → MemoryRuntimeState Any
  delete_checkpoints m s =
      let keeps =
        λ (c : Checkpoint Any). not (contains m.delete_checkpoint_types c.checkpoint_type) in
      record s { checkpoints = filter keeps s.checkpoints }

  unfoldable pub settle_state :
      RunAggregate Any
      → ℕ
      → RuntimeStateMutation Any
      → MemoryRuntimeState Any
      → MemoryRuntimeState Any
  settle_state agg now m s =
      let fenced = not (m.fence_generation == pos 0) in
      record s {
        version = agg.version;
        status = agg.status;
        updated_at = some now;
        fence_generation = if fenced then m.fence_generation else s.fence_generation;
        fence_token = if fenced then m.fence_token else s.fence_token;
      }

  unfoldable pub receipt_of :
      RuntimeStateMutation Any → MemoryRuntimeState Any → RuntimeStateReceipt
  receipt_of m s = record {
    mutation_id = m.mutation_id;
    run_id = m.run_id;
    version = s.version;
    sequence = s.sequence;
    status = s.status;
    replayed = false;
  }

  unfoldable pub keep_receipt :
      RuntimeStateMutation Any → MemoryRuntimeState Any → MemoryRuntimeState Any
  unfolding receipt_of
  keep_receipt m s = record s { receipts = put s.receipts m.mutation_id (receipt_of m s) }

  -- The checks before the `try`
  unfoldable pub checks :
      MemoryRuntimeState Any → RuntimeStateMutation Any → Result StateError (Unit {0})
  unfolding assert_fence_is_current assert_expected
  checks current m = do assert_fence_is_current current m; assert_expected current m

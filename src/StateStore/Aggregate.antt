-- ===== src/StateStore/Aggregate.antt =====
-- The records of state_store.py, and `RunAggregate`: the reducer of a run's durable mutations.
use deepkeel.Base.{
  ℕ, ◌+◌, String, Bool, not, ◌&&◌, ◌||◌, Option, none, some, List, Result, ok, raise_if, ◌>>◌,
  if◌then◌else◌, ◌==◌, string_eq, nat_eq, bool_beq,
}
use deepkeel.Base.Int.{ℤ}
use deepkeel.Base.Dict.{Dict, get}
use deepkeel.Base.Objects.{Objects}
use deepkeel.StateStore.Status.{is_terminal, normalize_runtime_status, run_settled_event}

-- One constructor for each `raise` of the module. The first nine are `ValueError`s, the others
-- `RuntimeStateConflict`s, and the last stands for what the injected failure raises.
pub data StateError : Type 0 where
  run_id_mismatch : StateError
  terminal_needs_run_settled : StateError
  run_settled_needs_terminal : StateError
  run_id_required : StateError
  settled_mismatch : StateError
  settlement_status_mismatch : StateError
  unexpected_settlement_status : StateError
  negative_fence_generation : StateError
  fence_token_required : StateError
  run_already_settled : StateError
  sequence_gap : StateError
  version_changed : StateError
  sequence_changed : StateError
  fence_required : StateError
  stale_fence : StateError
  fence_token_mismatch : StateError
  injected : String → StateError

-- A `dict[str, Any]`; `copy.deepcopy` of one is the same value.
abbrev pub Payload : Type 0 → Type 0
Payload Any = Dict String Any

pub record RuntimeStateMutation (Any : Type 0) : Type 0 where
  pub mutation_id : String
  pub run_id : String
  pub event_type : String
  pub target_status : String
  pub event_payload : Payload Any
  pub event_visibility : String
  pub checkpoint_type : String
  pub checkpoint_state : Payload Any
  pub resume_token : String
  pub final_message_id : Option String
  pub error_code : Option String
  pub error_message : Option String
  pub cancel_requested : Option Bool
  pub delete_checkpoint_types : List String
  pub expected_version : Option ℤ
  pub expected_sequence : Option ℤ
  pub fence_token : String
  pub fence_generation : ℤ

pub record RuntimeStateReceipt : Type 0 where
  pub mutation_id : String
  pub run_id : String
  pub version : ℕ
  pub sequence : ℕ
  pub status : String
  pub replayed : Bool

-- `RunAggregate`; a frozen `RunStateSnapshot` has the same fields.
pub record RunAggregate (Any : Type 0) : Type 0 where
  pub run_id : String
  pub version : ℕ
  pub sequence : ℕ
  pub status : String
  pub settled : Bool
  pub settlement_status : String
  pub last_event_type : String
  pub checkpoint_type : String
  pub checkpoint_state : Payload Any
  pub resume_token : String
  pub fence_token : String
  pub fence_generation : ℤ
  pub updated_at : Option ℕ

abbrev pub RunStateSnapshot : Type 0 → Type 0
RunStateSnapshot = RunAggregate

module _ {Any : Type 0} ⦃py : Objects Any⦄ where
  -- str(value or default)
  abbrev text_or : Option Any → String → String
  text_or none d = d
  text_or (some v) d = if py.truthy v then py.to_str v else d

  -- What `run.settled` says the run's status is.
  unfoldable pub payload_status : RuntimeStateMutation Any → String
  payload_status m =
      normalize_runtime_status
        (text_or (get m.event_payload "status") (normalize_runtime_status m.target_status))

  -- RunAggregate.apply: it writes only after the last check.
  unfoldable pub apply :
      RunAggregate Any → RuntimeStateMutation Any → ℕ → Result StateError (RunAggregate Any)
  unfolding payload_status
  apply self m sequence =
      let target = normalize_runtime_status m.target_status in
      let terminal = is_terminal target in
      do
        raise_if (not (m.run_id == self.run_id)) run_id_mismatch
        raise_if self.settled run_already_settled
        raise_if (not (sequence == self.sequence + 1)) sequence_gap
        raise_if (terminal && not (m.event_type == run_settled_event)) terminal_needs_run_settled
        raise_if
            (m.event_type == run_settled_event
              && (not terminal || not (payload_status m == target)))
            run_settled_needs_terminal
        ok (record self {
          sequence = sequence;
          version = self.version + 1;
          status = target;
          settled = terminal;
          settlement_status = if terminal then target else "";
          last_event_type = m.event_type;
          checkpoint_type = m.checkpoint_type;
          checkpoint_state = m.checkpoint_state;
          resume_token = m.resume_token;
        })

module _ {Any : Type 0} where
  -- RunStateSnapshot.__post_init__. A version and a sequence are numbers here, never negative.
  unfoldable pub post_init : RunStateSnapshot Any → Result StateError (RunStateSnapshot Any)
  post_init self =
      let normalized = normalize_runtime_status self.status in
      let terminal = is_terminal normalized in
      do
        raise_if (self.run_id == "") run_id_required
        raise_if (not (bool_beq self.settled terminal)) settled_mismatch
        raise_if (terminal && not (self.settlement_status == normalized)) settlement_status_mismatch
        raise_if (not terminal && not (self.settlement_status == "")) unexpected_settlement_status
        ok (record self { status = normalized })

  -- RunAggregate.snapshot
  unfoldable pub snapshot : RunAggregate Any → Result StateError (RunStateSnapshot Any)
  unfolding post_init
  snapshot self = post_init self

  can_accept_input : RunStateSnapshot Any → Bool
  can_accept_input self = self.settled || self.status == "waiting_user_input"

  input_strategy : RunStateSnapshot Any → String
  unfolding can_accept_input
  input_strategy self = if can_accept_input self then "follow_up" else "hard_interrupt"

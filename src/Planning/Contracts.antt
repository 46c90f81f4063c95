-- ===== src/Planning/Contracts.antt =====
-- contracts.py: plan steps and plans. The `dict[str, Any]` fields are of a type `Object` with an
-- equality, and times are numbers.
use deepkeel.Base.{
  ℕ, String, Bool, true, false, Option, Eq, List, ◌≡◌, ◌↔◌, arith, string_eq, list_eq, pair_eq,
  nat_beq,
}

-- PlanStepStatus
pub data PlanStepStatus : Type 0 where
  pending : PlanStepStatus
  running : PlanStepStatus
  waiting : PlanStepStatus
  completed : PlanStepStatus
  failed : PlanStepStatus
  skipped : PlanStepStatus
  canceled : PlanStepStatus

-- PlanStatus
pub data PlanStatus : Type 0 where
  plan_proposed : PlanStatus
  plan_running : PlanStatus
  plan_waiting : PlanStatus
  plan_replanning : PlanStatus
  plan_synthesizing : PlanStatus
  plan_completed : PlanStatus
  plan_partially_completed : PlanStatus
  plan_failed : PlanStatus
  plan_canceled : PlanStatus

-- PlanExecutorKind
pub data PlanExecutorKind : Type 0 where
  tool : PlanExecutorKind
  workflow : PlanExecutorKind
  subagent : PlanExecutorKind
  synthesis : PlanExecutorKind

-- status in {"completed", "skipped"}
abbrev pub is_done : PlanStepStatus → Bool
is_done completed = true
is_done skipped = true
is_done pending = false
is_done running = false
is_done waiting = false
is_done failed = false
is_done canceled = false

-- status == "pending"
abbrev pub is_pending : PlanStepStatus → Bool
is_pending pending = true
is_pending running = false
is_pending waiting = false
is_pending completed = false
is_pending failed = false
is_pending skipped = false
is_pending canceled = false

abbrev pub is_synthesis : PlanExecutorKind → Bool
is_synthesis synthesis = true
is_synthesis tool = false
is_synthesis workflow = false
is_synthesis subagent = false

abbrev kind_number : PlanExecutorKind → ℕ
kind_number tool = 0
kind_number workflow = 1
kind_number subagent = 2
kind_number synthesis = 3

abbrev pub kind_beq : PlanExecutorKind → PlanExecutorKind → Bool
kind_beq a b = nat_beq (kind_number a) (kind_number b)

pub kind_beq_iff : (a b : PlanExecutorKind) → (kind_beq a b ≡ true) ↔ (a ≡ b)
kind_beq_iff a b = ground arith

instance abbrev pub kind_eq : Eq PlanExecutorKind
kind_eq = record { equals = kind_beq; equals_iff = kind_beq_iff }

pub record PlanStep (Object : Type 0) : Type 0 where
  pub id : String
  pub title : String
  pub objective : String
  pub executor_kind : PlanExecutorKind
  pub capability_ref : String
  pub arguments : Object
  pub depends_on : List String
  pub success_criteria : List String
  pub status : PlanStepStatus
  pub attempt_count : ℕ
  pub max_attempts : ℕ
  pub tool_call_id : String
  pub result_summary : String
  pub error : String
  pub artifact_ids : List String
  pub read_only : Option Bool
  pub parallel_safe : Option Bool
  pub resource_key : String
  pub metadata : Object

pub record ExecutionPlan (Object : Type 0) : Type 0 where
  pub plan_id : String
  pub run_id : String
  pub objective : String
  pub revision : ℕ
  pub status : PlanStatus
  pub steps : List (PlanStep Object)
  pub revision_reason : String
  pub created_at : ℕ
  pub updated_at : ℕ
  pub metadata : Object

-- PlanningMode
pub data PlanningMode : Type 0 where
  mode_disabled : PlanningMode
  mode_allowed : PlanningMode
  mode_preferred : PlanningMode
  mode_required : PlanningMode

pub record PlanningPolicy : Type 0 where
  pub mode : PlanningMode
  pub max_steps : ℕ
  pub max_revisions : ℕ
  pub max_parallel_steps : ℕ
  pub max_attempts_per_step : ℕ

abbrev pub Signature : Type 0 → Type 0
Signature Object =
    String
    × (String × (String × (PlanExecutorKind × (String × (Object × (List String × List String))))))

module _ {Object : Type 0} where
  -- PlanStep.immutable_signature
  abbrev pub immutable_signature : PlanStep Object → Signature Object
  immutable_signature self = (
    self.id,
    (
      self.title,
      (
        self.objective,
        (
          self.executor_kind,
          (self.capability_ref, (self.arguments, (self.depends_on, self.success_criteria))),
        ),
      ),
    ),
  )

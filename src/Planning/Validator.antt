-- ===== src/Planning/Validator.antt =====
-- validator.py: what a revision of a plan may change, and the plan that it becomes.
use deepkeel.Base.{
  ℕ, ◌+◌, ◌-◌, String, Bool, true, false, not, Option, none, some, Result, ok, err, ◌>>◌, raise_if,
  List, [], ◌∷◌, ◌++◌, filter, map, if◌then◌else◌, Eq, ◌==◌, string_eq, nat_eq, pair_eq, list_eq,
  ltb,
}
use deepkeel.Base.Dict.{Dict, empty, get, put, remove}
use deepkeel.Base.Text.{or_else}
use deepkeel.Planning.Contracts.{
  PlanStep, ExecutionPlan, PlanningPolicy, pending, plan_proposed, is_done, immutable_signature,
  kind_eq,
}

pub data PlanValidationError : Type 0 where
  planning_disabled : PlanValidationError
  too_many_steps : PlanValidationError
  unknown_dependencies : List String → PlanValidationError
  dependency_cycle : PlanValidationError
  check_unfinished : PlanValidationError
  runtime_control_tool : String → PlanValidationError
  unknown_capability : String → PlanValidationError
  capability_not_allowed : String → PlanValidationError
  plan_id_changed : PlanValidationError
  revision_not_next : PlanValidationError
  revision_limit_exceeded : PlanValidationError
  completed_step_removed : String → PlanValidationError
  completed_step_changed : String → PlanValidationError

module _ {Object : Type 0} where
  -- {step.id: step for step in steps}, on top of the entries that are there
  unfoldable pub by_id_from :
      Dict String (PlanStep Object) → List (PlanStep Object) → Dict String (PlanStep Object)
  by_id_from entries [] = entries
  by_id_from entries (step ∷ steps) = by_id_from (put entries step.id step) steps

  unfoldable pub steps_by_id : List (PlanStep Object) → Dict String (PlanStep Object)
  unfolding by_id_from
  steps_by_id steps = by_id_from empty steps

module _ {Object : Type 0} ⦃same : Eq Object⦄ where
  abbrev pub check_replacement :
      PlanStep Object → Option (PlanStep Object) → Result PlanValidationError (Unit {0})
  check_replacement prior none = err (completed_step_removed prior.id)
  check_replacement prior (some replacement) =
      raise_if (not (immutable_signature replacement == immutable_signature prior))
        (completed_step_changed prior.id)

  -- the loop of _validate_revision
  unfoldable pub check_completed :
      List (PlanStep Object) → Dict String (PlanStep Object) → Result PlanValidationError (Unit {0})
  check_completed [] proposed_steps = ok tt
  check_completed (prior ∷ steps) proposed_steps =
      let rest = check_completed steps proposed_steps in
      if is_done prior.status
      then check_replacement prior (get proposed_steps prior.id) >> rest
      else rest

  -- _validate_revision
  unfoldable pub validate_revision :
      ExecutionPlan Object
      → ExecutionPlan Object
      → PlanningPolicy
      → Result PlanValidationError (Unit {0})
  validate_revision previous proposed policy = do
    raise_if (not (proposed.plan_id == previous.plan_id)) plan_id_changed
    raise_if (not (proposed.revision == previous.revision + 1)) revision_not_next
    raise_if (ltb policy.max_revisions (proposed.revision - 1)) revision_limit_exceeded
    check_completed previous.steps (steps_by_id proposed.steps)

module _ {Object : Type 0} where
  -- the progress of a step that is done, on the step that stands for it in the new plan
  unfoldable pub carry : PlanStep Object → PlanStep Object → PlanStep Object
  carry prior replacement = record replacement {
    status = prior.status;
    attempt_count = prior.attempt_count;
    tool_call_id = prior.tool_call_id;
    result_summary = prior.result_summary;
    error = prior.error;
    artifact_ids = prior.artifact_ids;
  }

  unfoldable pub reset : PlanStep Object → PlanStep Object
  reset step = record step {
    status = pending;
    attempt_count = 0;
    tool_call_id = "";
    result_summary = "";
    error = "";
    artifact_ids = [];
  }

  abbrev pub or_prior : Option (PlanStep Object) → PlanStep Object → PlanStep Object
  or_prior none prior = prior
  or_prior (some replacement) prior = replacement

  -- The first loop of merge_plan_revision: the steps that are kept, and the proposed ones that are left
  unfoldable pub keep_completed :
      List (PlanStep Object)
      → Dict String (PlanStep Object)
      → List (PlanStep Object) × Dict String (PlanStep Object)
  keep_completed [] by_id = ([], by_id)
  keep_completed (prior ∷ steps) by_id =
      let done = is_done prior.status in
      let (kept, left) = keep_completed steps (if done then remove by_id prior.id else by_id) in
      (if done then carry prior (or_prior (get by_id prior.id) prior) ∷ kept else kept, left)

  abbrev pub is_found : Option (PlanStep Object) → Bool
  is_found none = false
  is_found (some step) = true

  -- step.id in by_id
  abbrev pub is_key : Dict String (PlanStep Object) → PlanStep Object → Bool
  is_key by_id step = is_found (get by_id step.id)

  unfoldable pub merge_plan_revision :
      ExecutionPlan Object → ExecutionPlan Object → String → ℕ → ExecutionPlan Object
  merge_plan_revision previous proposed reason now =
      let (kept, left) = keep_completed previous.steps (steps_by_id proposed.steps) in
      record proposed {
        plan_id = previous.plan_id;
        run_id = previous.run_id;
        revision = previous.revision + 1;
        status = plan_proposed;
        steps = kept ++ map reset (filter (is_key left) proposed.steps);
        revision_reason = or_else reason proposed.revision_reason;
        created_at = previous.created_at;
        updated_at = now;
      }

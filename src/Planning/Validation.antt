-- ===== src/Planning/Validation.antt =====
-- validator.py, `ExecutionPlanValidator.validate`: a proposed plan is checked, and its steps get their
-- flags from the tool registry.
use deepkeel.Base.{
  min, String, Bool, true, false, not, ◌&&◌, Option, none, some, Result, ok, err, ◌>>=◌, ◌>>◌,
  raise_if, List, [], ◌∷◌, length, contains, if◌then◌else◌, Eq, string_eq, ltb,
}
use deepkeel.Base.Dict.{get}
use deepkeel.Base.Text.{or_else, starts_with}
use deepkeel.Base.Objects.{Objects}
use deepkeel.ToolRegistry.{ToolSpec, Tools}
use deepkeel.Planning.Contracts.{
  PlanStep, ExecutionPlan, PlanningPolicy, PlanningMode, mode_disabled, mode_allowed,
  mode_preferred, mode_required, PlanExecutorKind, synthesis, tool, workflow, subagent,
}
use deepkeel.Planning.Validator.{
  PlanValidationError, planning_disabled, too_many_steps, runtime_control_tool, unknown_capability,
  capability_not_allowed, validate_revision,
}
use deepkeel.Planning.Dependencies.{validate_dependencies}

-- PlanningPolicy.enabled
abbrev pub enabled : PlanningMode → Bool
enabled mode_disabled = false
enabled mode_allowed = true
enabled mode_preferred = true
enabled mode_required = true

-- `allowed_names is None or name in allowed_names`
abbrev pub is_allowed : Option (List String) → String → Bool
is_allowed none name = true
is_allowed (some names) name = contains names name

module _ {Any : Type 0} ⦃py : Objects Any⦄ where
  -- str(value or default)
  abbrev pub text_or : Option Any → String → String
  text_or none default = default
  text_or (some value) default = if py.truthy value then py.to_str value else default

module _ {Any Details : Type 0} where
  -- bool(spec.parallel_safe and not spec.requires_user_action and not spec.async_tool)
  abbrev pub runs_in_parallel : ToolSpec Any Details → Bool
  runs_in_parallel spec = spec.parallel_safe && not spec.requires_user_action && not spec.async_tool

module _ {Object : Type 0} where
  -- the step that a synthesis step becomes
  unfoldable pub synthesis_step : PlanStep Object → PlanningPolicy → PlanStep Object
  synthesis_step step policy = record step {
    read_only = some true;
    parallel_safe = some false;
    resource_key = "runtime.synthesis";
    max_attempts = min step.max_attempts policy.max_attempts_per_step;
  }

  abbrev pub by_kind :
      PlanExecutorKind
      → PlanStep Object
      → Result PlanValidationError (PlanStep Object)
      → Result PlanValidationError (PlanStep Object)
  by_kind synthesis step executable = ok step
  by_kind tool step executable = executable
  by_kind workflow step executable = executable
  by_kind subagent step executable = executable

module _ {Object : Type 0} ⦃same : Eq Object⦄ where
  abbrev pub if_revised :
      Option (ExecutionPlan Object)
      → ExecutionPlan Object
      → PlanningPolicy
      → Result PlanValidationError (Unit {0})
  if_revised none plan policy = ok tt
  if_revised (some previous) plan policy = validate_revision previous plan policy

module _ {Any Details Object : Type 0} ⦃py : Objects Any⦄ where
  unfoldable pub tool_step :
      PlanStep Object → PlanningPolicy → ToolSpec Any Details → PlanStep Object
  tool_step step policy spec = record step {
    read_only = some spec.read_only;
    parallel_safe = some (runs_in_parallel spec);
    resource_key =
        or_else step.resource_key (text_or (get spec.runtime_policy "side_effect") spec.name);
    max_attempts = min step.max_attempts policy.max_attempts_per_step;
  }

  abbrev pub with_spec :
      PlanStep Object
      → PlanningPolicy
      → Option (List String)
      → Option (ToolSpec Any Details)
      → Result PlanValidationError (PlanStep Object)
  with_spec step policy allowed none = err (unknown_capability step.capability_ref)
  with_spec step policy allowed (some spec) =
      if is_allowed allowed step.capability_ref
      then ok (tool_step step policy spec)
      else err (capability_not_allowed step.capability_ref)

  -- _validated_step
  unfoldable pub validated_step :
      Tools Any Details
      → PlanningPolicy
      → Option (List String)
      → PlanStep Object
      → Result PlanValidationError (PlanStep Object)
  validated_step registry policy allowed step =
      by_kind step.executor_kind (synthesis_step step policy) (do
        raise_if (starts_with step.capability_ref "runtime.")
            (runtime_control_tool step.capability_ref)
        with_spec step policy allowed (get registry step.capability_ref))

  unfoldable pub validated_steps :
      Tools Any Details
      → PlanningPolicy
      → Option (List String)
      → List (PlanStep Object)
      → Result PlanValidationError (List (PlanStep Object))
  validated_steps registry policy allowed [] = ok []
  validated_steps registry policy allowed (step ∷ steps) = do
    first ← validated_step registry policy allowed step
    rest ← validated_steps registry policy allowed steps
    ok (first ∷ rest)

module _ {Any Details Object : Type 0} ⦃py : Objects Any⦄ ⦃same : Eq Object⦄ where
  -- validate
  unfoldable pub validate :
      Tools Any Details
      → ExecutionPlan Object
      → PlanningPolicy
      → Option (List String)
      → Option (ExecutionPlan Object)
      → Result PlanValidationError (ExecutionPlan Object)
  validate registry plan policy allowed previous = do
    raise_if (not (enabled policy.mode)) planning_disabled
    raise_if (ltb policy.max_steps (length plan.steps)) too_many_steps
    if_revised previous plan policy
    validate_dependencies plan
    steps ← validated_steps registry policy allowed plan.steps
    ok (record plan { steps = steps })

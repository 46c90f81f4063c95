-- ===== src/Planning/VettingExamples.antt =====
-- Tests of the validation of plans, and each of its theorems at a concrete input.
use deepkeel.Base.{
  ℕ, ◌≤◌, String, true, false, some, none, Result, ok, err, [], ◌∷◌, All, length, ◌≡◌, ◌≢◌, ◌↔◌,
  refl, string_eq, nat_eq, list_eq, pair_eq, arith,
}
use deepkeel.Base.Int.{pos, ◌-ℤ◌}
use deepkeel.Base.Dict.{get, put, empty}
use deepkeel.Base.Text.{starts_with}
use deepkeel.Base.Objects.{text_objects}
use deepkeel.ToolRegistry.{ToolSpec, Tools, baseline, new_registry, registry_from}
use deepkeel.Planning.Contracts.{PlanStep, ExecutionPlan, pending, mode_disabled}
use deepkeel.Base.Sorting.{sorted_set}
use deepkeel.Planning.Dependencies.{unknown_of}
use deepkeel.Planning.Scheduler.{select_ready_plan_steps, ready_steps}
use deepkeel.Planning.Validator.{
  PlanValidationError, dependency_cycle, check_unfinished, unknown_dependencies,
}
use deepkeel.Planning.Dependencies.{
  validate_dependencies, indegrees_from, no_children, children_from, append_to_all, append_child,
  zero_keys, visit_ready, release_all, release,
}
use deepkeel.Planning.Dependencies.Tables.{are_unique}
use deepkeel.Planning.Dependencies.Correct.{IsRanked, IsClosedPlan, validate_dependencies_iff}
use deepkeel.Planning.Validation.{
  validate, validated_steps, validated_step, tool_step, synthesis_step,
}
use deepkeel.Planning.Vetting.{
  AllVets, IsVetted, RunsRegisteredRead, validate-vets, parallel_steps_are_reads,
}
use deepkeel.Planning.Examples.{step_of, plan_of, plan_of_four, small_policy}

-- the dependency check, with what it calls open
checks : ExecutionPlan ℕ → Result PlanValidationError (Unit {0})
unfolding validate_dependencies indegrees_from no_children children_from append_to_all append_child
    zero_keys visit_ready release_all release unknown_of sorted_set ◌-ℤ◌ get put empty are_unique
checks = validate_dependencies

abbrev cyclic_plan : ExecutionPlan ℕ
cyclic_plan = plan_of 1 (step_of "a" ("b" ∷ []) pending ∷ step_of "b" ("a" ∷ []) pending ∷ [])

abbrev open_plan : ExecutionPlan ℕ
open_plan = plan_of 1 (step_of "a" ("z" ∷ "y" ∷ "z" ∷ []) pending ∷ [])

three_verdicts :
    (checks plan_of_four ≡ ok tt)
    × (checks cyclic_plan ≡ err dependency_cycle)
    × (checks open_plan ≡ err (unknown_dependencies ("y" ∷ "z" ∷ [])))
unfolding checks
three_verdicts = (refl, refl, refl)

validate_dependencies_iff_example :
    (validate_dependencies cyclic_plan ≢ err check_unfinished)
    × ((validate_dependencies cyclic_plan ≡ ok tt)
        ↔ (IsClosedPlan cyclic_plan.steps × (rank : String → ℕ) × IsRanked cyclic_plan.steps rank))
unfolding checks
validate_dependencies_iff_example = validate_dependencies_iff cyclic_plan refl

abbrev search_tool : ToolSpec String ℕ
search_tool = record {
  name = "search";
  description = "";
  requires_user_action = false;
  read_only = true;
  async_tool = false;
  parallel_safe = true;
  runtime_policy = empty;
  exposure_mode = baseline;
  discovery_tags = [];
  details = 0;
}

abbrev tools : Tools String ℕ
tools = new_registry (search_tool ∷ [])

-- validation, with what it calls open
validates : ExecutionPlan ℕ → Result PlanValidationError (ExecutionPlan ℕ)
unfolding checks validate validated_steps validated_step tool_step synthesis_step starts_with
    new_registry registry_from get put empty
validates plan = validate tools plan small_policy none none

abbrev vetted_step : String → PlanStep ℕ
vetted_step id = record (step_of id [] pending) {
  read_only = some true;
  parallel_safe = some true;
  resource_key = "search";
}

abbrev proposed_pair : ExecutionPlan ℕ
proposed_pair =
    plan_of 1 (record (step_of "a" [] pending) { read_only = none } ∷ step_of "b" [] pending ∷ [])

abbrev vetted_pair : ExecutionPlan ℕ
vetted_pair = plan_of 1 (vetted_step "a" ∷ vetted_step "b" ∷ [])

-- the flags of the proposal are replaced by those of the registry
vetted : validates proposed_pair ≡ ok vetted_pair
unfolding validates
vetted = refl

validate-vets_example :
    (small_policy.mode ≢ mode_disabled)
    × (length proposed_pair.steps ≤ 8)
    × (validate_dependencies proposed_pair ≡ ok tt)
    × AllVets tools small_policy none proposed_pair.steps vetted_pair.steps
    × All (IsVetted tools small_policy none) vetted_pair.steps
    × (vetted_pair ≡ record proposed_pair { steps = vetted_pair.steps })
unfolding validates
validate-vets_example = validate-vets tools proposed_pair vetted_pair small_policy none none refl

parallel_steps_are_reads_example :
    All (RunsRegisteredRead tools small_policy none) (select_ready_plan_steps vetted_pair (pos 4))
unfolding validates select_ready_plan_steps ready_steps
parallel_steps_are_reads_example =
    parallel_steps_are_reads tools small_policy none vetted_pair (pos 4)
      (validate-vets tools proposed_pair vetted_pair small_policy none none refl).4 (omega arith)

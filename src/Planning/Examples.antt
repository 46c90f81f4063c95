-- ===== src/Planning/Examples.antt =====
-- Tests of planning, and each of its theorems at a concrete input.
use deepkeel.Base.{
  ℕ, ◌≤◌, max, String, true, some, List, [], ◌∷◌, All, length, ◌≡◌, ◌⊎◌, refl, string_eq, nat_eq,
  list_eq, pair_eq,
}
use mathlib.Core.List.{Mem}
use deepkeel.Base.Int.{ℤ, pos}
use deepkeel.Base.Dict.{get, put, remove, empty}
use deepkeel.Planning.Contracts.{
  mode_allowed, PlanStep, ExecutionPlan, PlanningPolicy, PlanStepStatus, tool, pending, completed,
  plan_running, is_done,
}
use deepkeel.Planning.Scheduler.{ready_steps, select_ready_plan_steps}
use deepkeel.Planning.Selection.{IsRunnable, IsParallel, select_ready_plan_steps_lem}
use deepkeel.Planning.Validator.{
  steps_by_id, by_id_from, check_completed, validate_revision, keep_completed, carry, reset,
  merge_plan_revision,
}
use deepkeel.Planning.Revision.{IsKept, StandsForDone, merge_keeps_completed}

abbrev pub step_of : String → List String → PlanStepStatus → PlanStep ℕ
step_of id depends_on status = record {
  id = id;
  title = id;
  objective = id;
  executor_kind = tool;
  capability_ref = "search";
  arguments = 0;
  depends_on = depends_on;
  success_criteria = [];
  status = status;
  attempt_count = 0;
  max_attempts = 2;
  tool_call_id = "";
  result_summary = "";
  error = "";
  artifact_ids = [];
  read_only = some true;
  parallel_safe = some true;
  resource_key = "";
  metadata = 0;
}

abbrev pub plan_of : ℕ → List (PlanStep ℕ) → ExecutionPlan ℕ
plan_of revision steps = record {
  plan_id = "plan";
  run_id = "run";
  objective = "answer";
  revision = revision;
  status = plan_running;
  steps = steps;
  revision_reason = "";
  created_at = 0;
  updated_at = 0;
  metadata = 0;
}

abbrev pub plan_of_four : ExecutionPlan ℕ
plan_of_four = plan_of 1 (
    step_of "a" [] completed
    ∷ step_of "b" ("a" ∷ []) pending
    ∷ step_of "c" ("a" ∷ []) pending
    ∷ step_of "d" ("b" ∷ []) pending
    ∷ [])

abbrev revised_plan : ExecutionPlan ℕ
revised_plan = plan_of 2 (step_of "a" [] pending ∷ step_of "e" ("a" ∷ []) completed ∷ [])

abbrev pub small_policy : PlanningPolicy
small_policy = record {
  mode = mode_allowed;
  max_steps = 8;
  max_revisions = 2;
  max_parallel_steps = 4;
  max_attempts_per_step = 2;
}

-- the selection, with what it calls open
selects : ExecutionPlan ℕ → ℤ → List (PlanStep ℕ)
unfolding select_ready_plan_steps ready_steps
selects = select_ready_plan_steps

-- merging, with what it and the validation call open
merges : ExecutionPlan ℕ → ExecutionPlan ℕ → List (PlanStep ℕ)
unfolding validate_revision check_completed merge_plan_revision keep_completed carry reset
    steps_by_id by_id_from get put remove empty
merges previous proposed = (merge_plan_revision previous proposed "" 0).steps

-- two reads whose dependency is completed run beside each other, and one at a time where the limit is 0
two_reads :
    (selects plan_of_four (pos 4)
      ≡ step_of "b" ("a" ∷ []) pending ∷ step_of "c" ("a" ∷ []) pending ∷ [])
    × (selects plan_of_four (pos 0) ≡ step_of "b" ("a" ∷ []) pending ∷ [])
unfolding selects
two_reads = (refl, refl)

-- the completed step stays completed, and a proposed step that claims to be is pending
merged_steps :
    merges plan_of_four revised_plan
    ≡ step_of "a" [] completed ∷ step_of "e" ("a" ∷ []) pending ∷ []
unfolding merges
merged_steps = refl

select_ready_plan_steps_lem_example :
    let chosen = select_ready_plan_steps plan_of_four (pos 4) in
    All (IsRunnable plan_of_four) chosen
    × (length chosen ≤ max 1 4)
    × (2 ≤ length chosen → All IsParallel chosen)
    × (chosen ≡ [] → All (λ (s : PlanStep ℕ). ¬ IsRunnable plan_of_four s) plan_of_four.steps)
select_ready_plan_steps_lem_example = select_ready_plan_steps_lem plan_of_four (pos 4)

merge_keeps_completed_example :
    let merged = merge_plan_revision plan_of_four revised_plan "new facts" 7 in
    All
      (λ prior.
        is_done prior.status ≡ true
        → (step : PlanStep ℕ) × Mem step merged.steps × IsKept prior step)
      plan_of_four.steps
    × All
        (λ step.
          StandsForDone plan_of_four.steps step
          ⊎ ((step.status ≡ pending) × (step.attempt_count ≡ 0)))
        merged.steps
    × (merged.plan_id ≡ "plan")
    × (merged.run_id ≡ "run")
    × (merged.revision ≡ 2)
unfolding merges
merge_keeps_completed_example =
    merge_keeps_completed plan_of_four revised_plan small_policy "new facts" 7 refl

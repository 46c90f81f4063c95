-- ===== src/Planning/Scheduler.antt =====
-- scheduler.py: which steps of a plan run next.
use deepkeel.Base.{
  ℕ, max, String, Bool, false, not, ◌&&◌, Option, none, some, List, [], ◌∷◌, take, filter, all, map,
  contains, if◌then◌else◌, string_eq,
}
use deepkeel.Base.Int.{ℤ, clip}
use deepkeel.Planning.Contracts.{PlanStep, ExecutionPlan, is_done, is_pending, is_synthesis}

-- value is True
abbrev pub is_true : Option Bool → Bool
is_true none = false
is_true (some b) = b

module _ {Object : Type 0} where
  -- {step.id for step in plan.steps if step.status in {"completed", "skipped"}}
  abbrev pub completed_ids : ExecutionPlan Object → List String
  completed_ids plan =
      map (λ s. s.id) (filter (λ (s : PlanStep Object). is_done s.status) plan.steps)

  -- set(step.depends_on).issubset(completed), of a pending step
  abbrev pub is_ready : List String → PlanStep Object → Bool
  is_ready done step = is_pending step.status && all (contains done) step.depends_on

  unfoldable pub ready_steps : ExecutionPlan Object → List (PlanStep Object)
  ready_steps plan = filter (is_ready (completed_ids plan)) plan.steps

  abbrev pub is_executable : PlanStep Object → Bool
  is_executable step = not (is_synthesis step.executor_kind)

  -- step.read_only is True and step.parallel_safe is True
  abbrev pub is_safe_read : PlanStep Object → Bool
  is_safe_read step = is_true step.read_only && is_true step.parallel_safe

  -- `if not executable: return ready[:1]`
  abbrev pub select_from :
      ℕ → List (PlanStep Object) → List (PlanStep Object) → List (PlanStep Object)
  select_from batch ready [] = take 1 ready
  select_from batch ready (step ∷ steps) =
      if all is_safe_read (step ∷ steps) then take batch (step ∷ steps) else take 1 (step ∷ steps)

  unfoldable pub select_ready_plan_steps : ExecutionPlan Object → ℤ → List (PlanStep Object)
  unfolding ready_steps
  select_ready_plan_steps plan max_parallel_steps =
      let ready = ready_steps plan in
      select_from (max 1 (clip max_parallel_steps)) ready (filter is_executable ready)

-- ===== src/Planning/Selection.antt =====
-- What the scheduler selects.
use deepkeel.Base.{
  String, ◌⊎◌, ◌↔◌, ℕ, zero, suc, ◌≤◌, max, Bool, true, false, Option, some, List, [], ◌∷◌, filter,
  all, All, contains, length, string_eq, ◌≡◌, refl, inl, inr, Bool-cases, arith, All-take,
  All-filter, All-of_all, All-imp, filter_passes, filter_none, length-take,
}
use deepkeel.Base.Exists.{Exists, contains-map-filter}
use deepkeel.Base.Int.{ℤ, clip}
use deepkeel.Planning.Contracts.{
  PlanStep, ExecutionPlan, is_pending, is_done, pending, running, waiting, completed, failed,
  skipped, canceled, PlanStepStatus,
}
use deepkeel.Planning.Scheduler.{
  is_true, completed_ids, is_ready, ready_steps, is_executable, is_safe_read, select_from,
  select_ready_plan_steps,
}

pending_of : (s : PlanStepStatus) → is_pending s ≡ true → s ≡ pending
pending_of s h = ground (arith, h)

done_iff : (s : PlanStepStatus) → (is_done s ≡ true) ↔ ((s ≡ completed) ⊎ (s ≡ skipped))
done_iff pending = ground arith
done_iff running = ground arith
done_iff waiting = ground arith
done_iff completed = (λ h. inl refl, λ h. refl)
done_iff failed = ground arith
done_iff skipped = (λ h. inr refl, λ h. refl)
done_iff canceled = ground arith

all-of_All : (p : String → Bool) (xs : List String) → All (λ x. p x ≡ true) xs → all p xs ≡ true
all-of_All p [] h = refl
all-of_All p (x ∷ xs) (first, others) = ground (arith, first, all-of_All p xs others)

some_of_is_true : (b : Option Bool) → is_true b ≡ true → b ≡ some true
some_of_is_true b h = ground (arith, h)

module _ {Object : Type 0} where
  abbrev pub IsSettled : PlanStep Object → Type 0
  IsSettled step = (step.status ≡ completed) ⊎ (step.status ≡ skipped)

  -- A pending step of which each dependency is the id of a completed or skipped step
  abbrev pub IsRunnable : ExecutionPlan Object → PlanStep Object → Type 0
  IsRunnable plan step =
      (step.status ≡ pending)
      × All (λ d. Exists IsSettled (λ (s : PlanStep Object). s.id) plan.steps d) step.depends_on

  step_iff : (step : PlanStep Object) → (is_done step.status ≡ true) ↔ IsSettled step
  step_iff step = done_iff step.status

  dependency_iff :
      (plan : ExecutionPlan Object) (d : String)
      → (contains (completed_ids plan) d ≡ true)
        ↔ Exists IsSettled (λ (s : PlanStep Object). s.id) plan.steps d
  dependency_iff plan d =
      contains-map-filter (λ (s : PlanStep Object). is_done s.status) IsSettled
        (λ (s : PlanStep Object). s.id) step_iff plan.steps d

  -- A step that may run beside others
  abbrev pub IsParallel : PlanStep Object → Type 0
  IsParallel step = (step.read_only ≡ some true) × (step.parallel_safe ≡ some true)

  IsRunnable-of_ready :
      (plan : ExecutionPlan Object) (step : PlanStep Object)
      → is_ready (completed_ids plan) step ≡ true
      → IsRunnable plan step
  IsRunnable-of_ready plan step h = (
    pending_of step.status (ground (arith, h)),
    All-imp step.depends_on (λ d found. (dependency_iff plan d).0 found)
        (All-of_all (contains (completed_ids plan)) step.depends_on (ground (arith, h))),
  )

  not_ready :
      (plan : ExecutionPlan Object) (step : PlanStep Object)
      → is_ready (completed_ids plan) step ≡ false
      → ¬ IsRunnable plan step
  not_ready plan step h (waits, settled) =
      let found =
        all-of_All (contains (completed_ids plan)) step.depends_on
          (All-imp step.depends_on (λ d e. (dependency_iff plan d).1 e) settled) in
      absurd (ground (arith, h, waits, found))

  ready-IsRunnable : (plan : ExecutionPlan Object) → All (IsRunnable plan) (ready_steps plan)
  unfolding ready_steps
  ready-IsRunnable plan =
      All-imp (filter (is_ready (completed_ids plan)) plan.steps) (IsRunnable-of_ready plan)
        (filter_passes (is_ready (completed_ids plan)) plan.steps)

  select_from-keeps :
      (P : PlanStep Object → Type 0) (batch : ℕ) (ready executable : List (PlanStep Object))
      → All P ready
      → All P executable
      → All P (select_from batch ready executable)
  select_from-keeps P batch ready [] r e = All-take P 1 ready r
  select_from-keeps P batch ready (step ∷ steps) r e =
      elim (Bool-cases (all is_safe_read (step ∷ steps))) [
        | inl b ↦ rw b (All-take P batch (step ∷ steps) e)
        | inr b ↦ rw b (All-take P 1 (step ∷ steps) e)
      ]

  safe-IsParallel : (step : PlanStep Object) → is_safe_read step ≡ true → IsParallel step
  safe-IsParallel step h = (
    some_of_is_true step.read_only (ground (arith, h)),
    some_of_is_true step.parallel_safe (ground (arith, h)),
  )

  select_from-IsParallel :
      (batch : ℕ) (ready executable : List (PlanStep Object))
      → 2 ≤ length (select_from batch ready executable)
      → All IsParallel (select_from batch ready executable)
  select_from-IsParallel batch ready [] h = absurd (omega (arith, length-take 1 ready, h))
  select_from-IsParallel batch ready (step ∷ steps) h =
      elim (Bool-cases (all is_safe_read (step ∷ steps))) [
        | inl b ↦ rw b (
            All-take IsParallel batch (step ∷ steps)
              (All-imp (step ∷ steps) safe-IsParallel (All-of_all is_safe_read (step ∷ steps) b)))
        | inr b ↦ absurd (ground (arith, h, b))
      ]

  select_from-bounded :
      (batch : ℕ) (ready executable : List (PlanStep Object))
      → 1 ≤ batch
      → length (select_from batch ready executable) ≤ batch
  select_from-bounded batch ready [] h = omega (arith, length-take 1 ready)
  select_from-bounded batch ready (step ∷ steps) h =
      elim (Bool-cases (all is_safe_read (step ∷ steps))) [
        | inl b ↦ rw b (omega (arith, length-take batch (step ∷ steps)))
        | inr b ↦ rw b (omega (arith, h))
      ]

  select_from-served :
      (batch : ℕ) (ready executable : List (PlanStep Object))
      → 1 ≤ batch
      → select_from batch ready executable ≡ []
      → ready ≡ []
  select_from-served batch [] executable h e = refl
  select_from-served zero (r ∷ ready) executable h e = absurd (omega (arith, h))
  select_from-served (suc batch) (r ∷ ready) [] h e = absurd (ground (arith, e))
  select_from-served (suc batch) (r ∷ ready) (step ∷ steps) h e = absurd (ground (arith, e))

  -- what holds of every step of a plan holds of the selected ones
  pub selected-keeps :
      (P : PlanStep Object → Type 0) (plan : ExecutionPlan Object) (limit : ℤ)
      → All P plan.steps
      → All P (select_ready_plan_steps plan limit)
  unfolding select_ready_plan_steps ready_steps
  selected-keeps P plan limit h =
      let ready : All P (ready_steps plan) =
        All-filter P (is_ready (completed_ids plan)) plan.steps h in
      select_from-keeps P (max 1 (clip limit)) (ready_steps plan)
        (filter is_executable (ready_steps plan)) ready
        (All-filter P is_executable (ready_steps plan) ready)

  -- What is selected to run is safe to run. Every selected step is pending and all its dependencies are
  -- completed or skipped; there are at most max(1, max_parallel_steps) of them; where there is more than
  -- one, each is known to be read-only and safe to run in parallel; and none is selected only where no
  -- step of the plan is pending with its dependencies so.
  pub select_ready_plan_steps_lem :
      (plan : ExecutionPlan Object) (limit : ℤ)
      → let chosen = select_ready_plan_steps plan limit in
        All (IsRunnable plan) chosen
        × (length chosen ≤ max 1 (clip limit))
        × (2 ≤ length chosen → All IsParallel chosen)
        × (chosen ≡ [] → All (λ (s : PlanStep Object). ¬ IsRunnable plan s) plan.steps)
  unfolding select_ready_plan_steps ready_steps
  select_ready_plan_steps_lem plan limit =
      let ready : List (PlanStep Object) = ready_steps plan in
      let batch : ℕ = max 1 (clip limit) in
      (
        select_from-keeps (IsRunnable plan) batch ready (filter is_executable ready)
            (ready-IsRunnable plan)
            (All-filter (IsRunnable plan) is_executable ready (ready-IsRunnable plan)),
        select_from-bounded batch ready (filter is_executable ready) (omega arith),
        select_from-IsParallel batch ready (filter is_executable ready),
        λ none_chosen. All-imp plan.steps (not_ready plan) (
            filter_none (is_ready (completed_ids plan)) plan.steps (
              select_from-served batch ready (filter is_executable ready) (omega arith)
                none_chosen)),
      )

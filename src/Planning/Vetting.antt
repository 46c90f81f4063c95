-- ===== src/Planning/Vetting.antt =====
-- What a validated plan can execute.
use deepkeel.Base.{
  ◌≤◌, String, true, false, Option, some, Option-cases, Result, ok, Result-cases, ◌>>◌, raise_if,
  List, [], ◌∷◌, length, Eq, string_eq, All, All-both, ◌≡◌, ◌≢◌, ◌⊎◌, refl, sym, ap, ◌∙◌, inl, inr,
  arith,
}
use deepkeel.Base.Int.{ℤ}
use deepkeel.Base.Dict.{get}
use deepkeel.Base.Text.{starts_with}
use deepkeel.Base.Objects.{Objects}
use deepkeel.ToolRegistry.{ToolSpec, Tools}
use deepkeel.Planning.Contracts.{
  PlanStep, ExecutionPlan, PlanningPolicy, PlanExecutorKind, synthesis, tool, workflow, subagent,
  mode_disabled,
}
use deepkeel.Planning.Validator.{PlanValidationError, runtime_control_tool}
use deepkeel.Planning.Dependencies.{validate_dependencies}
use deepkeel.Planning.Validation.{
  is_allowed, enabled, runs_in_parallel, synthesis_step, tool_step, with_spec, by_kind,
  validated_step, validated_steps, validate,
}
use deepkeel.Planning.Scheduler.{select_ready_plan_steps}
use deepkeel.Planning.Selection.{IsParallel, select_ready_plan_steps_lem, selected-keeps}

module _ {Any Details Object : Type 0} ⦃py : Objects Any⦄ (registry : Tools Any Details)
    (policy : PlanningPolicy) (allowed : Option (List String)) where
  -- A step that may run: it synthesizes, or it executes a registered tool that the skill allows and
  -- that is no control tool, with that tool's flags; and its attempts are bounded.
  pub data IsVetted (step : PlanStep Object) : Type 0 where
    synthesizes :
        step.executor_kind ≡ synthesis
        → step.parallel_safe ≡ some false
        → step.max_attempts ≤ policy.max_attempts_per_step
        → IsVetted step
    executes :
        (spec : ToolSpec Any Details)
        → get registry step.capability_ref ≡ some spec
        → starts_with step.capability_ref "runtime." ≡ false
        → is_allowed allowed step.capability_ref ≡ true
        → step.read_only ≡ some spec.read_only
        → step.parallel_safe ≡ some (runs_in_parallel spec)
        → step.max_attempts ≤ policy.max_attempts_per_step
        → IsVetted step

  -- the new step is vetted, and stands for the old one in the plan
  abbrev Vets : PlanStep Object → PlanStep Object → Type 0
  Vets step step' = IsVetted step' × (step'.id ≡ step.id) × (step'.depends_on ≡ step.depends_on)

  by_kind-cases :
      (kind : PlanExecutorKind) (step : PlanStep Object)
      (executable : Result PlanValidationError (PlanStep Object))
      → ((kind ≡ synthesis) × (by_kind kind step executable ≡ ok step))
        ⊎ (by_kind kind step executable ≡ executable)
  by_kind-cases synthesis step executable = inl (refl, refl)
  by_kind-cases tool step executable = inr refl
  by_kind-cases workflow step executable = inr refl
  by_kind-cases subagent step executable = inr refl

  vet_synthesis :
      (step : PlanStep Object)
      → step.executor_kind ≡ synthesis
      → Vets step (synthesis_step step policy)
  unfolding synthesis_step
  vet_synthesis step kind = (synthesizes kind refl (omega arith), refl, refl)

  vet_tool :
      (step : PlanStep Object) (spec : ToolSpec Any Details)
      → get registry step.capability_ref ≡ some spec
      → starts_with step.capability_ref "runtime." ≡ false
      → is_allowed allowed step.capability_ref ≡ true
      → Vets step (tool_step step policy spec)
  unfolding tool_step
  vet_tool step spec found plain may =
      (executes spec found plain may refl refl (omega arith), refl, refl)

  vet_executable :
      (step step' : PlanStep Object)
      → (raise_if
            (starts_with step.capability_ref "runtime.")
            (runtime_control_tool step.capability_ref)
          >> with_spec step policy allowed (get registry step.capability_ref))
        ≡ ok step'
      → Vets step step'
  vet_executable step step' h = elim (Option-cases (get registry step.capability_ref)) [
    | inl e ↦ absurd (ground (arith, h, e))
    | inr (spec, e) ↦
        let is_tool_step : step' ≡ tool_step step policy spec = ground (arith, h, e) in
        rw is_tool_step (vet_tool step spec e (ground (arith, h)) (ground (arith, h, e)))
  ]

  validated_step-Vets :
      (step step' : PlanStep Object)
      → validated_step registry policy allowed step ≡ ok step'
      → Vets step step'
  unfolding validated_step
  validated_step-Vets step step' h =
      let executable =
        raise_if (starts_with step.capability_ref "runtime.")
          (runtime_control_tool step.capability_ref)
        >> with_spec step policy allowed (get registry step.capability_ref) in
      elim (by_kind-cases step.executor_kind (synthesis_step step policy) executable) [
        | inl (kind, e) ↦
            let is_synthesis_step : step' ≡ synthesis_step step policy = ground (arith, h, e) in
            rw is_synthesis_step (vet_synthesis step kind)
        | inr e ↦ vet_executable step step' (sym e ∙ h)
      ]

  -- two lists of steps, of the same length and related one by one
  abbrev pub AllVets : List (PlanStep Object) → List (PlanStep Object) → Type 0
  AllVets [] [] = Unit
  AllVets [] (s ∷ ss) = ⊥
  AllVets (s ∷ ss) [] = ⊥
  AllVets (s ∷ ss) (t ∷ ts) = Vets s t × AllVets ss ts

  validated_steps-AllVets :
      (steps steps' : List (PlanStep Object))
      → validated_steps registry policy allowed steps ≡ ok steps'
      → AllVets steps steps'
  unfolding validated_steps
  validated_steps-AllVets [] steps' h =
      let nothing : steps' ≡ [] = ground (arith, h) in rw nothing tt
  validated_steps-AllVets (step ∷ steps) steps' h =
      elim (Result-cases (validated_step registry policy allowed step)) [
        | inl (first, e) ↦ elim (Result-cases (validated_steps registry policy allowed steps)) [
          | inl (rest, e') ↦
              let both : steps' ≡ first ∷ rest = ground (arith, h, e, e') in
              rw both (validated_step-Vets step first e, validated_steps-AllVets steps rest e')
          | inr (error, e') ↦ absurd (ground (arith, h, e, e'))
        ]
        | inr (error, e) ↦ absurd (ground (arith, h, e))
      ]

  -- a tool that may run beside others
  abbrev pub RunsRegisteredRead : PlanStep Object → Type 0
  RunsRegisteredRead step =
      (spec : ToolSpec Any Details) × (get registry step.capability_ref ≡ some spec)
      × (spec.read_only ≡ true)
      × (spec.parallel_safe ≡ true)
      × (spec.requires_user_action ≡ false)
      × (spec.async_tool ≡ false)

  vetted_parallel :
      (step : PlanStep Object) → IsVetted step → IsParallel step → RunsRegisteredRead step
  vetted_parallel step (synthesizes kind unsafe bounded) (read, safe) =
      absurd (ground (arith, unsafe, safe))
  vetted_parallel step (executes spec found plain may read_only parallel bounded) (read, safe) = (
    spec,
    found,
    ground (arith, read, read_only),
    ground (arith, safe, parallel),
    ground (arith, safe, parallel),
    ground (arith, safe, parallel),
  )

  -- A plan cannot talk its way into running beside others. Where every step of a plan is vetted,
  -- whatever their states, and the scheduler selects more than one step, each of them executes a tool
  -- that the registry itself has as read-only, parallel-safe, without user action and not asynchronous.
  pub parallel_steps_are_reads :
      (plan : ExecutionPlan Object) (limit : ℤ)
      → All IsVetted plan.steps
      → 2 ≤ length (select_ready_plan_steps plan limit)
      → All RunsRegisteredRead (select_ready_plan_steps plan limit)
  parallel_steps_are_reads plan limit vetted many =
      let (ready, bounded, parallel, served) = select_ready_plan_steps_lem plan limit in
      All-both (select_ready_plan_steps plan limit) vetted_parallel
        (selected-keeps IsVetted plan limit vetted) (parallel many)

module _ {Any Details Object : Type 0} ⦃py : Objects Any⦄ ⦃same : Eq Object⦄ where
  AllVets-IsVetted :
      (registry : Tools Any Details) (policy : PlanningPolicy) (allowed : Option (List String))
      (steps steps' : List (PlanStep Object))
      → AllVets registry policy allowed steps steps'
      → All (IsVetted registry policy allowed) steps'
  AllVets-IsVetted registry policy allowed [] [] h = tt
  AllVets-IsVetted registry policy allowed [] (t ∷ ts) h = absurd h
  AllVets-IsVetted registry policy allowed (s ∷ ss) [] h = tt
  AllVets-IsVetted registry policy allowed (s ∷ ss) (t ∷ ts) h =
      (h.0.0, AllVets-IsVetted registry policy allowed ss ts h.1)

  -- A validated plan is safe to execute. Where `validate` returns a plan, planning is enabled, the plan
  -- has no more steps than the policy allows and passed the dependency check; its steps stand for the
  -- proposed ones, with the same ids and dependencies; and each of them either synthesizes or executes
  -- a registered tool that is no control tool and that the skill allows, with the flags of the registry
  -- and not those of the proposal, and with no more attempts than the policy allows. All else of the
  -- plan is as it was proposed.
  pub validate-vets :
      (registry : Tools Any Details) (plan plan' : ExecutionPlan Object) (policy : PlanningPolicy)
      (allowed : Option (List String)) (previous : Option (ExecutionPlan Object))
      → validate registry plan policy allowed previous ≡ ok plan'
      → (policy.mode ≢ mode_disabled)
        × (length plan.steps ≤ policy.max_steps)
        × (validate_dependencies plan ≡ ok tt)
        × AllVets registry policy allowed plan.steps plan'.steps
        × All (IsVetted registry policy allowed) plan'.steps
        × (plan' ≡ record plan { steps = plan'.steps })
  unfolding validate
  validate-vets registry plan plan' policy allowed previous h =
      elim (Result-cases (validated_steps registry policy allowed plan.steps)) [
        | inl (steps, e) ↦
            let is_plan : plan' ≡ record plan { steps = steps } = ground (arith, h, e) in
            let vets : AllVets registry policy allowed plan.steps steps =
              validated_steps-AllVets registry policy allowed plan.steps steps e in
            let on : enabled policy.mode ≡ true = ground (arith, h) in
            (
              λ off. ground (arith, on, ap enabled off),
              ground (arith, h),
              elim (Result-cases (validate_dependencies plan)) [
                | inl (done, e') ↦ rw e' refl
                | inr (error, e') ↦ absurd (ground (arith, h, e'))
              ],
              rw is_plan vets,
              rw is_plan (AllVets-IsVetted registry policy allowed plan.steps steps vets),
              rw is_plan refl,
            )
        | inr (error, e) ↦ absurd (ground (arith, h, e))
      ]

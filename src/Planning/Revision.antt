-- ===== src/Planning/Revision.antt =====
-- What a revision of a plan keeps.
use deepkeel.Base.{
  ℕ, ◌+◌, String, Bool, true, false, some, Option-cases, ok, List, [], ◌∷◌, filter, map,
  if◌then◌else◌, Eq, ◌==◌, string_eq, nat_eq, pair_eq, list_eq, All, All-imp, All-append, ◌≡◌, refl,
  inl, inr, Bool-cases, arith, eq_of_beq, ◌⊎◌,
}
use mathlib.Core.List.{Mem, mem-cons_self, mem-cons_of_mem, mem-append_left}
use deepkeel.Base.Dict.{Dict, get, remove, found_after_remove}
use deepkeel.Planning.Contracts.{
  PlanStep, ExecutionPlan, PlanningPolicy, pending, is_done, immutable_signature, kind_eq,
}
use deepkeel.Planning.Validator.{
  steps_by_id, check_replacement, check_completed, validate_revision, carry, reset, or_prior,
  keep_completed, is_key, merge_plan_revision,
}

module _ {Object : Type 0} where
  -- a step of the new plan is what a step that was done has become
  pub record IsKept (prior step : PlanStep Object) : Type 0 where
    pub signature : immutable_signature step ≡ immutable_signature prior
    pub status : step.status ≡ prior.status
    pub attempt_count : step.attempt_count ≡ prior.attempt_count
    pub tool_call_id : step.tool_call_id ≡ prior.tool_call_id
    pub result_summary : step.result_summary ≡ prior.result_summary
    pub error : step.error ≡ prior.error
    pub artifact_ids : step.artifact_ids ≡ prior.artifact_ids

  -- the step that stands in a dictionary for a step that is done has its signature
  abbrev Matches : Dict String (PlanStep Object) → PlanStep Object → Type 0
  Matches by_id prior =
      is_done prior.status ≡ true
      → (step : PlanStep Object) → get by_id prior.id ≡ some step
      → immutable_signature step ≡ immutable_signature prior

  carry-IsKept :
      (by_id : Dict String (PlanStep Object)) (prior : PlanStep Object)
      → is_done prior.status ≡ true
      → Matches by_id prior
      → IsKept prior (carry prior (or_prior (get by_id prior.id) prior))
  unfolding carry
  carry-IsKept by_id prior done fits = record {
    signature = elim (Option-cases (get by_id prior.id)) [
      | inl e ↦ rw e refl
      | inr (step, e) ↦ rw e (fits done step e)
    ];
    status = refl;
    attempt_count = refl;
    tool_call_id = refl;
    result_summary = refl;
    error = refl;
    artifact_ids = refl;
  }

  Matches-remove :
      (by_id : Dict String (PlanStep Object)) (id : String) (b : Bool) (prior : PlanStep Object)
      → Matches by_id prior
      → Matches (if b then remove by_id id else by_id) prior
  Matches-remove by_id id true prior fits done step h =
      fits done step (found_after_remove by_id id prior.id h)
  Matches-remove by_id id false prior fits done step h = fits done step h

  Mem-later :
      (b : Bool) (step first : PlanStep Object) (kept : List (PlanStep Object))
      → Mem step kept
      → Mem step (if b then first ∷ kept else kept)
  Mem-later true step first kept h = mem-cons_of_mem first h
  Mem-later false step first kept h = h

  keep_completed-keeps :
      (steps : List (PlanStep Object)) (by_id : Dict String (PlanStep Object))
      → All (Matches by_id) steps
      → All
          (λ prior.
            is_done prior.status ≡ true
            → (step : PlanStep Object) × Mem step (keep_completed steps by_id).0
              × IsKept prior step)
          steps
  unfolding keep_completed
  keep_completed-keeps [] by_id fits = tt
  keep_completed-keeps (prior ∷ steps) by_id (fit, fits) =
      let left = if is_done prior.status then remove by_id prior.id else by_id in
      let rest =
        keep_completed-keeps steps left
          (All-imp steps (Matches-remove by_id prior.id (is_done prior.status)) fits) in
      (
        λ done. rw done (
          carry prior (or_prior (get by_id prior.id) prior),
          mem-cons_self,
          carry-IsKept by_id prior done fit,
        ),
        All-imp steps
            (λ p found done.
              let (step, among, kept) = found done in
              (
                step,
                Mem-later (is_done prior.status) step
                    (carry prior (or_prior (get by_id prior.id) prior))
                    (keep_completed steps left).0 among,
                kept,
              ))
            rest,
      )

  All-kept :
      (P : PlanStep Object → Type 0) (b : Bool) (first : PlanStep Object)
      (kept : List (PlanStep Object))
      → (b ≡ true → P first)
      → All P kept
      → All P (if b then first ∷ kept else kept)
  All-kept P true first kept h rest = (h refl, rest)
  All-kept P false first kept h rest = rest

  -- a step that stands for one of some steps that are done
  abbrev pub StandsForDone : List (PlanStep Object) → PlanStep Object → Type 0
  StandsForDone steps step =
      (prior : PlanStep Object) × Mem prior steps
      × (is_done prior.status ≡ true)
      × IsKept prior step

  keep_completed-only :
      (steps : List (PlanStep Object)) (by_id : Dict String (PlanStep Object))
      → All (Matches by_id) steps
      → All (StandsForDone steps) (keep_completed steps by_id).0
  unfolding keep_completed
  keep_completed-only [] by_id fits = tt
  keep_completed-only (prior ∷ steps) by_id (fit, fits) =
      let left : Dict String (PlanStep Object) =
        if is_done prior.status then remove by_id prior.id else by_id in
      let rest : All (StandsForDone (prior ∷ steps)) (keep_completed steps left).0 =
        All-imp (keep_completed steps left).0
          (λ step h. let (p, among, done, kept) = h in (p, mem-cons_of_mem prior among, done, kept))
          (keep_completed-only steps left
            (All-imp steps (Matches-remove by_id prior.id (is_done prior.status)) fits)) in
      All-kept (StandsForDone (prior ∷ steps)) (is_done prior.status)
        (carry prior (or_prior (get by_id prior.id) prior)) (keep_completed steps left).0
        (λ done. (prior, mem-cons_self, done, carry-IsKept by_id prior done fit)) rest

  resets-open :
      (steps : List (PlanStep Object))
      → All (λ step. (step.status ≡ pending) × (step.attempt_count ≡ 0)) (map reset steps)
  unfolding reset
  resets-open [] = tt
  resets-open (step ∷ steps) = ((refl, refl), resets-open steps)

module _ {Object : Type 0} ⦃same : Eq Object⦄ where
  check_replacement-signature :
      (prior step : PlanStep Object)
      → check_replacement prior (some step) ≡ ok tt
      → immutable_signature step ≡ immutable_signature prior
  check_replacement-signature prior step h =
      elim (Bool-cases (immutable_signature step == immutable_signature prior)) [
        | inl e ↦ eq_of_beq e
        | inr e ↦ absurd (ground (arith, h, e))
      ]

  check_completed-Matches :
      (steps : List (PlanStep Object)) (by_id : Dict String (PlanStep Object))
      → check_completed steps by_id ≡ ok tt
      → All (Matches by_id) steps
  unfolding check_completed
  check_completed-Matches [] by_id h = tt
  check_completed-Matches (prior ∷ steps) by_id h =
      let rest : check_completed steps by_id ≡ ok tt = ground (arith, h) in
      let checked : is_done prior.status ≡ true
          → check_replacement prior (get by_id prior.id) ≡ ok tt =
        λ done. ground (arith, h, done) in
      (
        λ done step found. check_replacement-signature prior step (rw found at (checked done)),
        check_completed-Matches steps by_id rest,
      )

  validate_revision-Matches :
      (previous proposed : ExecutionPlan Object) (policy : PlanningPolicy)
      → validate_revision previous proposed policy ≡ ok tt
      → All (Matches (steps_by_id proposed.steps)) previous.steps
  unfolding validate_revision
  validate_revision-Matches previous proposed policy h =
      check_completed-Matches previous.steps (steps_by_id proposed.steps) (ground (arith, h))

  -- A revision keeps what was done. Where a revision of a plan is valid, the plan that it becomes has,
  -- for each step that was completed or skipped, a step with the same signature, status, attempts and
  -- results; every other step of it is pending with no attempts, so nothing is taken for done that was
  -- not; and it is the next revision of the same plan and run.
  pub merge_keeps_completed :
      (previous proposed : ExecutionPlan Object) (policy : PlanningPolicy) (reason : String)
      (now : ℕ)
      → validate_revision previous proposed policy ≡ ok tt
      → let merged = merge_plan_revision previous proposed reason now in
        All
          (λ prior.
            is_done prior.status ≡ true
            → (step : PlanStep Object) × Mem step merged.steps × IsKept prior step)
          previous.steps
        × All
            (λ step.
              StandsForDone previous.steps step
              ⊎ ((step.status ≡ pending) × (step.attempt_count ≡ 0)))
            merged.steps
        × (merged.plan_id ≡ previous.plan_id)
        × (merged.run_id ≡ previous.run_id)
        × (merged.revision ≡ previous.revision + 1)
  unfolding merge_plan_revision
  merge_keeps_completed previous proposed policy reason now h =
      let by_id : Dict String (PlanStep Object) = steps_by_id proposed.steps in
      let kept : List (PlanStep Object) = (keep_completed previous.steps by_id).0 in
      let fresh : List (PlanStep Object) =
        map reset (filter (is_key (keep_completed previous.steps by_id).1) proposed.steps) in
      let fits : All (Matches by_id) previous.steps =
        validate_revision-Matches previous proposed policy h in
      (
        All-imp previous.steps
            (λ prior found done.
              let (step, among, same_work) = found done in
              (step, mem-append_left fresh among, same_work))
            (keep_completed-keeps previous.steps by_id fits),
        All-append _ kept fresh
            (All-imp kept (λ step stands. inl stands)
              (keep_completed-only previous.steps by_id fits))
            (All-imp fresh (λ step new. inr new)
              (resets-open
                (filter (is_key (keep_completed previous.steps by_id).1) proposed.steps))),
        refl,
        refl,
        refl,
      )

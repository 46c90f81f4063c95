-- ===== src/Guardrails/Replay.antt =====
-- A run that is repeated.
use deepkeel.Base.{
  ◌≡◌, refl, sym, ap, ◌∙◌, inl, inr, true, Bool-cases, some, List, [], ◌∷◌, ◌++◌, All, string_eq,
  pair_eq, Result, ok, subst,
}
use deepkeel.Base.Dict.{get}
use deepkeel.Guardrails.{
  GuardrailError, GuardrailRequest, GuardrailDecision, GuardrailAudit, GuardrailSpec,
  GuardrailRunResult, terminal, merge_decisions, audit_of, new_decision,
}
use deepkeel.Guardrails.Runner.{
  ExecutionStore, execution_key, GuardrailRunner, applicable, Handlers, run_all, arun,
}
use deepkeel.Guardrails.Turns.{
  decides, excuses, fails, turn, run_all-cached, continue-advance, stop-advance,
}
use deepkeel.Guardrails.Kept.{run_all-keeps}

-- each handler returns a decision
abbrev pub IsAnswered : {Any : Type 0} → Handlers Any → GuardrailSpec → Type 0
IsAnswered {Any} handle spec = (decision : GuardrailDecision Any) × (handle spec ≡ ok decision)

-- a repetition that comes to the same decision and leaves the store
abbrev pub Repeats :
    {Any : Type 0}
    → GuardrailRunResult Any
    → ExecutionStore Any
    → Result GuardrailError (GuardrailRunResult Any) × ExecutionStore Any
    → Type 0
Repeats {Any} result kept out =
    (again : GuardrailRunResult Any) × (out ≡ (ok again, kept)) × (again.decision ≡ result.decision)

run_all-again :
    {Any : Type 0} (handle other : Handlers Any) (request : GuardrailRequest)
    (specs : List GuardrailSpec) (combined : GuardrailDecision Any)
    (audits audits' : List (GuardrailAudit Any)) (kept after : ExecutionStore Any)
    (result : GuardrailRunResult Any)
    → All (IsAnswered handle) specs
    → run_all handle request specs combined audits kept ≡ (ok result, after)
    → Repeats result after (run_all other request specs combined audits' after)
unfolding run_all
run_all-again handle other request [] combined audits audits' kept after result answered e =
    (record { decision = combined; audits = audits' }, refl, cc e)
run_all-again handle other request (spec ∷ specs) combined audits audits' kept after result
      ((d, answer), answered) e =
    elim (turn handle request spec specs combined audits kept) [
      | decides decision audits₁ after₁ ds eq ↦
          let merged = merge_decisions combined decision in
          let more = audits' ++ audit_of spec request "replayed" decision true ∷ [] in
          elim (Bool-cases (terminal merged)) [
            | inl t ↦
                let out =
                  sym (eq ∙ stop-advance handle request spec specs merged audits₁ after₁ after₁ t)
                  ∙ e in
                let same : after₁ ≡ after = cc out in
                let settled : (record { decision = merged; audits = audits₁ }) ≡ result = cc out in
                let found =
                  subst (λ store. get store (execution_key spec request) ≡ some decision) same
                    ds.found in
                (
                  record { decision = merged; audits = more },
                  run_all-cached other request spec specs combined audits' after decision found
                      ∙ stop-advance other request spec specs merged more after after t,
                  ap (λ (r : GuardrailRunResult _). r.decision) settled,
                )
            | inr t ↦
                let out =
                  sym
                    (eq ∙ continue-advance handle request spec specs merged audits₁ after₁ after₁ t)
                  ∙ e in
                let last : (run_all handle request specs merged audits₁ after₁).1 ≡ after =
                  cc out in
                let found =
                  subst (λ store. get store (execution_key spec request) ≡ some decision) last
                    (run_all-keeps handle request specs merged audits₁ after₁
                      (execution_key spec request) decision ds.found) in
                let (again, runs, agrees) =
                  run_all-again handle other request specs merged audits₁ more after₁ after result
                    answered out in
                (
                  again,
                  run_all-cached other request spec specs combined audits' after decision found
                      ∙ continue-advance other request spec specs merged more after after t
                      ∙ runs,
                  agrees,
                )
          ]
      | excuses error audits₁ h r eq ↦ absurd (cc (h, answer))
      | fails error h eq ↦ absurd (cc (h, answer))
    ]

arun_of :
    {Any : Type 0} (handle : Handlers Any) (request : GuardrailRequest) (self : GuardrailRunner Any)
    (result : GuardrailRunResult Any) (kept : ExecutionStore Any)
    → run_all handle request (applicable self request) new_decision [] self.kept ≡ (ok result, kept)
    → arun handle request self ≡ (ok result, record self { kept = kept })
unfolding arun
arun_of handle request self result kept e = rw e refl

run_of :
    {Any : Type 0} (handle : Handlers Any) (request : GuardrailRequest)
    (self after : GuardrailRunner Any) (result : GuardrailRunResult Any)
    → arun handle request self ≡ (ok result, after)
    → (run_all handle request (applicable self request) new_decision [] self.kept
        ≡ (ok result, after.kept))
      × (self.guardrails ≡ after.guardrails)
unfolding arun
run_of handle request self after result e =
    let out = run_all handle request (applicable self request) new_decision [] self.kept in
    let is_ok : out.0 ≡ ok result = cc e in
    let runner : (record self { kept = out.1 }) ≡ after = cc e in
    (
      λ i. (is_ok i, ap (λ (r : GuardrailRunner _). r.kept) runner i),
      ap (λ (r : GuardrailRunner _). r.guardrails) runner,
    )

applicable_same :
    {Any : Type 0} (self after : GuardrailRunner Any) (request : GuardrailRequest)
    → self.guardrails ≡ after.guardrails
    → applicable self request ≡ applicable after request
unfolding applicable
applicable_same self after request e = rw e refl

-- After a run in which every guardrail that applies has a handler that returns a decision, a run of the same
-- request comes to the same combined decision, whatever the handlers would return by then, and keeps
-- nothing new: the decisions about an operation are made once.
pub arun_again :
    {Any : Type 0} (handle other : Handlers Any) (request : GuardrailRequest)
    (self after : GuardrailRunner Any) (result : GuardrailRunResult Any)
    → All (IsAnswered handle) (applicable self request)
    → arun handle request self ≡ (ok result, after)
    → (again : GuardrailRunResult Any) × (arun other request after ≡ (ok again, after))
      × (again.decision ≡ result.decision)
arun_again handle other request self after result answered e =
    let (ran, same) = run_of handle request self after result e in
    let (again, runs, agrees) =
      run_all-again handle other request (applicable self request) new_decision [] [] self.kept
        after.kept result answered ran in
    let runs' =
      subst
        (λ specs. run_all other request specs new_decision [] after.kept ≡ (ok again, after.kept))
        (applicable_same self after request same) runs in
    (again, arun_of other request after again after.kept runs', agrees)

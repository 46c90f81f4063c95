-- ===== src/Guardrails/Kept.antt =====
-- What a run keeps.
use deepkeel.Base.{
  String, ◌≡◌, refl, sym, ap, ◌∙◌, inl, inr, Bool, true, false, Bool-cases, some, List, [], ◌∷◌,
  filter, All, arith, string_eq, pair_eq, Result, ok, err, subst,
}
use deepkeel.Base.Dict.{get}
use deepkeel.Guardrails.{
  GuardrailError, GuardrailRequest, GuardrailDecision, GuardrailAudit, GuardrailSpec,
  GuardrailRunResult, terminal, merge_decisions,
}
use deepkeel.Guardrails.Runner.{
  ExecutionStore, execution_key, ExecutionKey, sorted_specs, insert_spec, precedes, Handlers,
  run_all,
}
use deepkeel.Guardrails.Turns.{
  decides, excuses, fails, turn, terminal-merge_decisions, continue-advance, stop-advance,
}

-- nothing that is kept is lost
pub run_all-keeps :
    {Any : Type 0} (handle : Handlers Any) (request : GuardrailRequest) (specs : List GuardrailSpec)
    (combined : GuardrailDecision Any) (audits : List (GuardrailAudit Any))
    (kept : ExecutionStore Any) (key : ExecutionKey) (other : GuardrailDecision Any)
    → get kept key ≡ some other
    → get (run_all handle request specs combined audits kept).1 key ≡ some other
unfolding run_all
run_all-keeps handle request [] combined audits kept key other e = e
run_all-keeps handle request (spec ∷ specs) combined audits kept key other e =
    elim (turn handle request spec specs combined audits kept) [
      | decides decision audits' after d eq ↦
          let merged = merge_decisions combined decision in
          elim (Bool-cases (terminal merged)) [
            | inl t ↦
                rw (eq ∙ stop-advance handle request spec specs merged audits' after after t)
                  (d.grows key other e)
            | inr t ↦
                rw (eq ∙ continue-advance handle request spec specs merged audits' after after t) (
                  run_all-keeps handle request specs merged audits' after key other
                    (d.grows key other e))
          ]
      | excuses error audits' h r eq ↦
          rw eq (run_all-keeps handle request specs combined audits' kept key other e)
      | fails error h eq ↦ rw eq e
    ]

-- a guardrail with a kept decision that is not final, or one that may fail and has
pub data IsPassed {Any : Type 0} (handle : Handlers Any) (request : GuardrailRequest)
    (kept : ExecutionStore Any) (spec : GuardrailSpec) : Type 0 where
  passed :
      (decision : GuardrailDecision Any)
      → get kept (execution_key spec request) ≡ some decision
      → terminal decision ≡ false
      → IsPassed handle request kept spec
  excused :
      (error : String)
      → handle spec ≡ err error
      → spec.required ≡ false
      → IsPassed handle request kept spec

pub run_all-IsPassed :
    {Any : Type 0} (handle : Handlers Any) (request : GuardrailRequest) (specs : List GuardrailSpec)
    (combined : GuardrailDecision Any) (audits : List (GuardrailAudit Any))
    (kept : ExecutionStore Any) (result : GuardrailRunResult Any)
    → (run_all handle request specs combined audits kept).0 ≡ ok result
    → terminal result.decision ≡ false
    → All (IsPassed handle request (run_all handle request specs combined audits kept).1) specs
run_all-IsPassed {Any} handle request [] combined audits kept result e passes = tt
run_all-IsPassed {Any} handle request (spec ∷ specs) combined audits kept result e passes =
    elim (turn handle request spec specs combined audits kept) [
      | decides decision audits' after d eq ↦
          let merged = merge_decisions combined decision in
          elim (Bool-cases (terminal merged)) [
            | inl t ↦
                let out =
                  eq ∙ stop-advance handle request spec specs merged audits' after after t in
                let same : (record { decision = merged; audits = audits' }) ≡ result =
                  cc (out, e) in
                absurd
                  (cc (t, passes, ap (λ (r : GuardrailRunResult Any). terminal r.decision) same))
            | inr t ↦
                let out =
                  eq ∙ continue-advance handle request spec specs merged audits' after after t in
                let here : IsPassed handle request
                    (run_all handle request specs merged audits' after).1 spec =
                  passed decision
                    (run_all-keeps handle request specs merged audits' after
                      (execution_key spec request) decision d.found)
                    (ground (arith, t, terminal-merge_decisions combined decision)) in
                let rest =
                  run_all-IsPassed handle request specs merged audits' after result (rw (sym out) e)
                    passes in
                subst
                  (λ (o : Result GuardrailError (GuardrailRunResult Any) × ExecutionStore Any).
                    All (IsPassed handle request o.1) (spec ∷ specs))
                  (sym out) (here, rest)
          ]
      | excuses error audits' h r eq ↦
          let here : IsPassed handle request (run_all handle request specs combined audits' kept).1
              spec =
            excused error h r in
          let rest =
            run_all-IsPassed handle request specs combined audits' kept result (rw (sym eq) e)
              passes in
          subst
            (λ (o : Result GuardrailError (GuardrailRunResult Any) × ExecutionStore Any).
              All (IsPassed handle request o.1) (spec ∷ specs))
            (sym eq) (here, rest)
      | fails error h eq ↦ absurd (cc (eq, e))
    ]

All-insert_spec :
    (P : GuardrailSpec → Type 0) (spec : GuardrailSpec) (specs : List GuardrailSpec)
    → All P (insert_spec spec specs)
    → P spec × All P specs
All-insert_spec P spec [] h = h
All-insert_spec P spec (other ∷ specs) h = elim (Bool-cases (precedes spec other)) [
  | inl e ↦
      let same : insert_spec spec (other ∷ specs) ≡ spec ∷ other ∷ specs = rw e refl in
      subst (All P) same h
  | inr e ↦
      let same : insert_spec spec (other ∷ specs) ≡ other ∷ insert_spec spec specs = rw e refl in
      let both = subst (All P) same h in
      let more = All-insert_spec P spec specs both.1 in (more.0, (both.0, more.1))
]

pub All-sorted_specs :
    (P : GuardrailSpec → Type 0) (specs : List GuardrailSpec)
    → All P (sorted_specs specs)
    → All P specs
unfolding sorted_specs
All-sorted_specs P [] h = tt
All-sorted_specs P (spec ∷ specs) h =
    let both = All-insert_spec P spec (sorted_specs specs) h in
    (both.0, All-sorted_specs P specs both.1)

pub All-of_filter :
    (P : GuardrailSpec → Type 0) (p : GuardrailSpec → Bool) (specs : List GuardrailSpec)
    → All P (filter p specs)
    → All (λ spec. p spec ≡ true → P spec) specs
All-of_filter P p [] h = tt
All-of_filter P p (spec ∷ specs) h = elim (Bool-cases (p spec)) [
  | inl e ↦
      let same : filter p (spec ∷ specs) ≡ spec ∷ filter p specs = rw e refl in
      let both = subst (All P) same h in (λ f. both.0, All-of_filter P p specs both.1)
  | inr e ↦
      let same : filter p (spec ∷ specs) ≡ filter p specs = rw e refl in
      let others = subst (All P) same h in (λ f. absurd (cc (e, f)), All-of_filter P p specs others)
]

insert_spec-All :
    (P : GuardrailSpec → Type 0) (spec : GuardrailSpec) (specs : List GuardrailSpec)
    → P spec
    → All P specs
    → All P (insert_spec spec specs)
insert_spec-All P spec [] own h = (own, tt)
insert_spec-All P spec (other ∷ specs) own (first, rest) = elim (Bool-cases (precedes spec other)) [
  | inl e ↦ rw e (own, (first, rest))
  | inr e ↦ rw e (first, insert_spec-All P spec specs own rest)
]

pub sorted_specs-All :
    (P : GuardrailSpec → Type 0) (specs : List GuardrailSpec)
    → All P specs
    → All P (sorted_specs specs)
unfolding sorted_specs
sorted_specs-All P [] h = tt
sorted_specs-All P (spec ∷ specs) (first, rest) =
    insert_spec-All P spec (sorted_specs specs) first (sorted_specs-All P specs rest)

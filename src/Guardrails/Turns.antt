-- ===== src/Guardrails/Turns.antt =====
-- The turns of the runner's loop.
use deepkeel.Base.{
  String, ◌≡◌, refl, ap, ◌∙◌, ◌⊎◌, inl, inr, true, false, Bool-cases, ◌||◌, none, some,
  Option-cases, List, [], ◌∷◌, ◌++◌, arith, ◌==◌, string_eq, pair_eq, Result, ok, err, Result-cases,
  eq_of_beq, beq_refl,
}
use deepkeel.Base.Dict.{get, put, get-put}
use deepkeel.Guardrails.{
  GuardrailError, required_failed, GuardrailRequest, GuardrailDecision, GuardrailAudit,
  GuardrailSpec, GuardrailRunResult, GuardrailAction, allow, transform, block, require_approval,
  is_final, stronger_action, terminal, merge_decisions, audit_of, failed_audit,
}
use deepkeel.Guardrails.Runner.{
  ExecutionStore, execution_key, ExecutionKey, Handlers, run_one, advance, run_all, continue_with,
}

is_final-stronger_action :
    (current incoming : GuardrailAction)
    → is_final (stronger_action current incoming) ≡ (is_final current || is_final incoming)
unfolding stronger_action
is_final-stronger_action allow incoming = ground arith
is_final-stronger_action transform incoming = ground arith
is_final-stronger_action block incoming = ground arith
is_final-stronger_action require_approval incoming = ground arith

pub terminal-merge_decisions :
    {Any : Type 0} (current incoming : GuardrailDecision Any)
    → terminal (merge_decisions current incoming) ≡ (terminal current || terminal incoming)
unfolding terminal merge_decisions
terminal-merge_decisions current incoming = is_final-stronger_action current.action incoming.action

-- a run from a guardrail on, by what is kept and what its handler returns
module _ {Any : Type 0} (handle : Handlers Any) (request : GuardrailRequest) (spec : GuardrailSpec)
    (specs : List GuardrailSpec) (combined : GuardrailDecision Any)
    (audits : List (GuardrailAudit Any)) (kept : ExecutionStore Any) where
  pub run_all-cached :
      (cached : GuardrailDecision Any)
      → get kept (execution_key spec request) ≡ some cached
      → run_all handle request (spec ∷ specs) combined audits kept
        ≡ continue_with (run_all handle request specs) (
          advance
              (merge_decisions combined cached)
              (audits ++ audit_of spec request "replayed" cached true ∷ []),
          kept,
        )
  unfolding run_all run_one
  run_all-cached cached e = rw e refl

  pub run_all-handled :
      (decision : GuardrailDecision Any)
      → get kept (execution_key spec request) ≡ none
      → handle spec ≡ ok decision
      → run_all handle request (spec ∷ specs) combined audits kept
        ≡ continue_with (run_all handle request specs) (
          advance
              (merge_decisions combined decision)
              (audits ++ audit_of spec request "completed" decision false ∷ []),
          put kept (execution_key spec request) decision,
        )
  unfolding run_all run_one
  run_all-handled decision e h = rw (e, h) refl

  pub run_all-required :
      (error : String)
      → get kept (execution_key spec request) ≡ none
      → handle spec ≡ err error
      → spec.required ≡ true
      → run_all handle request (spec ∷ specs) combined audits kept
        ≡ (err (required_failed spec.id spec.stage), kept)
  unfolding run_all run_one
  run_all-required error e h r = rw (e, h, r) refl

  pub run_all-excused :
      (error : String)
      → get kept (execution_key spec request) ≡ none
      → handle spec ≡ err error
      → spec.required ≡ false
      → run_all handle request (spec ∷ specs) combined audits kept
        ≡ run_all handle request specs combined
            (audits ++ failed_audit spec request error ∷ [])
            kept
  unfolding run_all run_one
  run_all-excused error e h r = rw (e, h, r) refl

  pub continue-advance :
      (after : ExecutionStore Any)
      → terminal combined ≡ false
      → continue_with (run_all handle request specs) (advance combined audits, after)
        ≡ run_all handle request specs combined audits after
  unfolding advance
  continue-advance after t = rw t refl

  pub stop-advance :
      (after : ExecutionStore Any)
      → terminal combined ≡ true
      → continue_with (run_all handle request specs) (advance combined audits, after)
        ≡ (ok (record { decision = combined; audits = audits }), after)
  unfolding advance
  stop-advance after t = rw t refl

-- a decision about the guardrail that is kept from now on, with all that was kept before
pub record Decides {Any : Type 0} (handle : Handlers Any) (request : GuardrailRequest)
    (spec : GuardrailSpec) (kept : ExecutionStore Any) (decision : GuardrailDecision Any)
    (after : ExecutionStore Any) : Type 0 where
  pub found : get after (execution_key spec request) ≡ some decision
  pub grows :
      (key : ExecutionKey) (other : GuardrailDecision Any)
      → get kept key ≡ some other
      → get after key ≡ some other
  pub origin :
      (after ≡ kept)
      ⊎ ((handle spec ≡ ok decision)
          × (get kept (execution_key spec request) ≡ none)
          × (after ≡ put kept (execution_key spec request) decision))

-- what a turn does
pub data Turn {Any : Type 0} (handle : Handlers Any) (request : GuardrailRequest)
    (spec : GuardrailSpec) (specs : List GuardrailSpec) (combined : GuardrailDecision Any)
    (kept : ExecutionStore Any)
    (out : Result GuardrailError (GuardrailRunResult Any) × ExecutionStore Any) : Type 0 where
  decides :
      (decision : GuardrailDecision Any) (audits : List (GuardrailAudit Any))
      (after : ExecutionStore Any)
      → Decides handle request spec kept decision after
      → out
        ≡ continue_with
            (run_all handle request specs)
            (advance (merge_decisions combined decision) audits, after)
      → Turn handle request spec specs combined kept out
  excuses :
      (error : String) (audits : List (GuardrailAudit Any))
      → handle spec ≡ err error
      → spec.required ≡ false
      → out ≡ run_all handle request specs combined audits kept
      → Turn handle request spec specs combined kept out
  fails :
      (error : String)
      → handle spec ≡ err error
      → out ≡ (err (required_failed spec.id spec.stage), kept)
      → Turn handle request spec specs combined kept out

put-Decides :
    {Any : Type 0} (handle : Handlers Any) (request : GuardrailRequest) (spec : GuardrailSpec)
    (kept : ExecutionStore Any) (decision : GuardrailDecision Any)
    → get kept (execution_key spec request) ≡ none
    → handle spec ≡ ok decision
    → Decides handle request spec kept decision (put kept (execution_key spec request) decision)
put-Decides handle request spec kept decision e h =
    let own = execution_key spec request in
    record {
      found = get-put kept own own decision ∙ rw (beq_refl own) refl;
      grows = λ key other f. elim (Bool-cases (own == key)) [
        | inl same ↦
            let equal : own ≡ key = eq_of_beq same in
            absurd (cc (e, ap (λ (k : ExecutionKey). get kept k) equal, f))
        | inr differs ↦ get-put kept own key decision ∙ rw differs f
      ];
      origin = inr (h, e, refl);
    }

pub turn :
    {Any : Type 0} (handle : Handlers Any) (request : GuardrailRequest) (spec : GuardrailSpec)
    (specs : List GuardrailSpec) (combined : GuardrailDecision Any)
    (audits : List (GuardrailAudit Any)) (kept : ExecutionStore Any)
    → Turn handle request spec specs combined kept
        (run_all handle request (spec ∷ specs) combined audits kept)
turn handle request spec specs combined audits kept =
    elim (Option-cases (get kept (execution_key spec request))) [
      | inl e ↦ elim (Result-cases (handle spec)) [
        | inl (decision, h) ↦
            decides decision (audits ++ audit_of spec request "completed" decision false ∷ [])
              (put kept (execution_key spec request) decision)
              (put-Decides handle request spec kept decision e h)
              (run_all-handled handle request spec specs combined audits kept decision e h)
        | inr (error, h) ↦ elim (Bool-cases spec.required) [
          | inl r ↦
              fails error h
                (run_all-required handle request spec specs combined audits kept error e h r)
          | inr r ↦
              excuses error (audits ++ failed_audit spec request error ∷ []) h r
                (run_all-excused handle request spec specs combined audits kept error e h r)
        ]
      ]
      | inr (cached, e) ↦
          decides cached (audits ++ audit_of spec request "replayed" cached true ∷ []) kept
            (record { found = e; grows = λ key other f. f; origin = inl refl })
            (run_all-cached handle request spec specs combined audits kept cached e)
    ]

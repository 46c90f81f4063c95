-- ===== src/Guardrails/Runner.antt =====
-- `GuardrailRunner`, over the in-memory execution store.
use deepkeel.Base.{
  String, Bool, true, false, ◌&&◌, ◌||◌, Option, none, some, List, [], ◌∷◌, ◌++◌, filter, any,
  if◌then◌else◌, ◌==◌, string_eq, pair_eq, Result, ok, err,
}
use deepkeel.Base.Dict.{Dict, empty, get, put, remove, values_of}
use deepkeel.Base.Int.{ltb_ℤ, int_eq}
use deepkeel.Base.Sorting.{text_ltb}
use deepkeel.Guardrails.{
  GuardrailStage, stage_value, GuardrailError, already_registered, required_failed,
  GuardrailRequest, GuardrailDecision, GuardrailAudit, GuardrailSpec, GuardrailRunResult,
  new_decision, terminal, merge_decisions, matches_scope, audit_of, failed_audit,
}

-- the key of a kept decision: the guardrail's id, the stage, the operation's id
abbrev pub ExecutionKey : Type 0
ExecutionKey = String × (String × String)

-- InMemoryGuardrailExecutionStore
abbrev pub ExecutionStore : Type 0 → Type 0
ExecutionStore Any = Dict ExecutionKey (GuardrailDecision Any)

abbrev pub execution_key : GuardrailSpec → GuardrailRequest → ExecutionKey
execution_key spec request = (spec.id, (stage_value spec.stage, request.operation_id))

pub record GuardrailRunner (Any : Type 0) : Type 0 where
  pub guardrails : Dict String GuardrailSpec
  pub kept : ExecutionStore Any

unfoldable pub new_runner : {Any : Type 0} → GuardrailRunner Any
unfolding empty
new_runner = record { guardrails = empty; kept = empty }

abbrev pub register_absent :
    {Any : Type 0}
    → GuardrailRunner Any
    → GuardrailSpec
    → Option GuardrailSpec
    → Result GuardrailError (GuardrailRunner Any)
register_absent self spec (some other) = err (already_registered spec.id)
register_absent self spec none = ok (record self { guardrails = put self.guardrails spec.id spec })

unfoldable pub register_guardrail :
    {Any : Type 0}
    → GuardrailSpec
    → GuardrailRunner Any
    → Result GuardrailError (GuardrailRunner Any)
register_guardrail spec self = register_absent self spec (get self.guardrails spec.id)

unfoldable pub unregister_guardrail :
    {Any : Type 0} → String → GuardrailRunner Any → GuardrailRunner Any
unregister_guardrail guardrail_id self = record self {
  guardrails = remove self.guardrails guardrail_id;
}

-- restore
unfoldable pub restore_guardrails :
    {Any : Type 0} → Dict String GuardrailSpec → GuardrailRunner Any → GuardrailRunner Any
restore_guardrails snapshot self = record self { guardrails = snapshot }

-- has_stage
unfoldable pub has_stage : {Any : Type 0} → GuardrailStage → GuardrailRunner Any → Bool
has_stage stage self =
    any (λ (spec : GuardrailSpec). stage_value spec.stage == stage_value stage)
      (values_of self.guardrails.entries)

-- the order of (priority, id)
abbrev pub precedes : GuardrailSpec → GuardrailSpec → Bool
precedes a b = ltb_ℤ a.priority b.priority || (a.priority == b.priority && text_ltb a.id b.id)

abbrev pub insert_spec : GuardrailSpec → List GuardrailSpec → List GuardrailSpec
insert_spec spec [] = spec ∷ []
insert_spec spec (other ∷ specs) =
    let rest = insert_spec spec specs in
    if precedes spec other then spec ∷ other ∷ specs else other ∷ rest

unfoldable pub sorted_specs : List GuardrailSpec → List GuardrailSpec
sorted_specs [] = []
sorted_specs (spec ∷ specs) = insert_spec spec (sorted_specs specs)

-- `spec.stage == request.stage and _matches_scope(spec, request)`
abbrev pub applies : GuardrailRequest → GuardrailSpec → Bool
applies request spec =
    stage_value spec.stage == stage_value request.stage && matches_scope spec request

-- the guardrails of a request, in their order
unfoldable pub applicable :
    {Any : Type 0} → GuardrailRunner Any → GuardrailRequest → List GuardrailSpec
applicable self request =
    sorted_specs (filter (applies request) (values_of self.guardrails.entries))

-- the end of a run, or the combined decision and the audits that the loop goes on with
pub data Progress (Any : Type 0) : Type 0 where
  stops : Result GuardrailError (GuardrailRunResult Any) → Progress Any
  goes_on : GuardrailDecision Any → List (GuardrailAudit Any) → Progress Any

-- `if combined.terminal: break`
unfoldable pub advance :
    {Any : Type 0} → GuardrailDecision Any → List (GuardrailAudit Any) → Progress Any
advance combined audits =
    if terminal combined
    then stops (ok (record { decision = combined; audits = audits }))
    else goes_on combined audits

-- what a handler returns, or the text of its error
abbrev pub Handlers : Type 0 → Type 0
Handlers Any = GuardrailSpec → Result String (GuardrailDecision Any)

abbrev pub run_handler :
    {Any : Type 0}
    → GuardrailRequest
    → GuardrailSpec
    → GuardrailDecision Any
    → List (GuardrailAudit Any)
    → ExecutionStore Any
    → Result String (GuardrailDecision Any)
    → Progress Any × ExecutionStore Any
run_handler request spec combined audits kept (ok decision) = (
  advance (merge_decisions combined decision)
      (audits ++ audit_of spec request "completed" decision false ∷ []),
  put kept (execution_key spec request) decision,
)
run_handler request spec combined audits kept (err error) = (
  if spec.required
      then stops (err (required_failed spec.id spec.stage))
      else goes_on combined (audits ++ failed_audit spec request error ∷ []),
  kept,
)

abbrev pub run_unless_kept :
    {Any : Type 0}
    → Handlers Any
    → GuardrailRequest
    → GuardrailSpec
    → GuardrailDecision Any
    → List (GuardrailAudit Any)
    → ExecutionStore Any
    → Option (GuardrailDecision Any)
    → Progress Any × ExecutionStore Any
run_unless_kept handle request spec combined audits kept (some cached) = (
  advance (merge_decisions combined cached)
      (audits ++ audit_of spec request "replayed" cached true ∷ []),
  kept,
)
run_unless_kept handle request spec combined audits kept none =
    run_handler request spec combined audits kept (handle spec)

-- a turn of the loop of arun
unfoldable pub run_one :
    {Any : Type 0}
    → Handlers Any
    → GuardrailRequest
    → GuardrailSpec
    → GuardrailDecision Any
    → List (GuardrailAudit Any)
    → ExecutionStore Any
    → Progress Any × ExecutionStore Any
run_one handle request spec combined audits kept =
    run_unless_kept handle request spec combined audits kept (get kept (execution_key spec request))

abbrev pub continue_with :
    {Any : Type 0}
    → (GuardrailDecision Any
        → List (GuardrailAudit Any)
        → ExecutionStore Any
        → Result GuardrailError (GuardrailRunResult Any) × ExecutionStore Any)
    → Progress Any × ExecutionStore Any
    → Result GuardrailError (GuardrailRunResult Any) × ExecutionStore Any
continue_with rest (stops result, kept) = (result, kept)
continue_with rest (goes_on combined audits, kept) = rest combined audits kept

unfoldable pub run_all :
    {Any : Type 0}
    → Handlers Any
    → GuardrailRequest
    → List GuardrailSpec
    → GuardrailDecision Any
    → List (GuardrailAudit Any)
    → ExecutionStore Any
    → Result GuardrailError (GuardrailRunResult Any) × ExecutionStore Any
run_all handle request [] combined audits kept =
    (ok (record { decision = combined; audits = audits }), kept)
run_all handle request (spec ∷ specs) combined audits kept =
    continue_with (run_all handle request specs) (run_one handle request spec combined audits kept)

-- arun
unfoldable pub arun :
    {Any : Type 0}
    → Handlers Any
    → GuardrailRequest
    → GuardrailRunner Any
    → Result GuardrailError (GuardrailRunResult Any) × GuardrailRunner Any
arun handle request self =
    let (result, kept) =
      run_all handle request (applicable self request) new_decision [] self.kept in
    (result, record self { kept = kept })

-- ===== src/Guardrails/Passage.antt =====
-- What passes the guardrails.
use deepkeel.Base.{
  String, ◌≡◌, ◌⊎◌, true, false, none, some, contains, string_eq, pair_eq, Result, ok, err,
}
use deepkeel.Base.Dict.{get}
use deepkeel.Guardrails.{
  GuardrailError, GuardrailScope, global, of_package, of_skill, of_tool, of_run, GuardrailRequest,
  GuardrailDecision, GuardrailSpec, GuardrailRunResult, allow, transform,
}
use deepkeel.Guardrails.Runner.{ExecutionStore, execution_key, Handlers}

-- a decision that does not stop the operation
abbrev pub LetsPass : {Any : Type 0} → GuardrailDecision Any → Type 0
LetsPass decision = (decision.action ≡ allow) ⊎ (decision.action ≡ transform)

-- the guardrail's scope takes in the request
abbrev pub IsInScope : GuardrailScope → String → GuardrailRequest → Type 0
IsInScope global selector request = Unit
IsInScope of_package selector request = contains request.package_ids selector ≡ true
IsInScope of_skill selector request = selector ≡ request.skill_id
IsInScope of_tool selector request = selector ≡ request.tool_name
IsInScope of_run selector request = selector ≡ request.run_id

-- where the decision of a guardrail comes from: an earlier run, or its handler in this one
abbrev IsMade :
    {Any : Type 0}
    → Handlers Any
    → GuardrailRequest
    → GuardrailSpec
    → ExecutionStore Any
    → GuardrailDecision Any
    → Type 0
IsMade handle request spec kept decision =
    (get kept (execution_key spec request) ≡ some decision)
    ⊎ ((get kept (execution_key spec request) ≡ none) × (handle spec ≡ ok decision))

abbrev Outcome : Type 0 → Type 0
Outcome Any = Result GuardrailError (GuardrailRunResult Any) × ExecutionStore Any

-- A guardrail with a decision that lets the operation pass, which was kept before the run or which its
-- handler returns in it; or one that need not succeed and has failed
pub data IsCleared {Any : Type 0} (handle : Handlers Any) (request : GuardrailRequest)
    (before after : ExecutionStore Any) (spec : GuardrailSpec) : Type 0 where
  replayed :
      (decision : GuardrailDecision Any)
      → get before (execution_key spec request) ≡ some decision
      → LetsPass decision
      → IsCleared handle request before after spec
  answered :
      (decision : GuardrailDecision Any)
      → get before (execution_key spec request) ≡ none
      → handle spec ≡ ok decision
      → get after (execution_key spec request) ≡ some decision
      → LetsPass decision
      → IsCleared handle request before after spec
  failed :
      (error : String)
      → handle spec ≡ err error
      → spec.required ≡ false
      → IsCleared handle request before after spec

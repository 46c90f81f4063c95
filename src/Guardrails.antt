-- ===== src/Guardrails.antt =====
-- src/deepkeel/guardrails.py: the ordered checks on what enters and leaves the runtime.
-- A handler is code of the embedding program. What the handlers return in a run, each at most once, is the
-- run's argument `handle`: a decision, or the error that a failing handler, a late one or one with a wrong
-- result ends in. A decision has one of the four actions; in the source one with another text as its
-- action fails only when it is merged, after it was kept. Payloads are of any type; durations are left
-- out, and no sink of audits is set.
pub mod Runner
pub mod Turns
pub mod Kept
pub mod Passage
pub mod Replay
mod Examples
use deepkeel.Base.{
  ℕ, String, Bool, true, false, not, ◌&&◌, ◌||◌, List, [], ◌∷◌, ◌++◌, map, filter, contains,
  if◌then◌else◌, ◌==◌, string_eq, leb, Result, ok, err, raise_if, ◌>>=◌, ◌>>◌,
}
use deepkeel.Base.Dict.{Dict, empty, update}
use deepkeel.Base.Text.{strip, or_else}
use deepkeel.Base.Int.{ℤ, pos, leb_ℤ}

pub data GuardrailStage : Type 0 where
  input : GuardrailStage
  model_input : GuardrailStage
  model_output : GuardrailStage
  tool_input : GuardrailStage
  tool_output : GuardrailStage
  artifact_output : GuardrailStage
  final_output : GuardrailStage

-- a StrEnum is its text
abbrev pub stage_value : GuardrailStage → String
stage_value input = "input"
stage_value model_input = "model.input"
stage_value model_output = "model.output"
stage_value tool_input = "tool.input"
stage_value tool_output = "tool.output"
stage_value artifact_output = "artifact.output"
stage_value final_output = "final.output"

pub data GuardrailAction : Type 0 where
  allow : GuardrailAction
  transform : GuardrailAction
  block : GuardrailAction
  require_approval : GuardrailAction

pub data GuardrailScope : Type 0 where
  global : GuardrailScope
  of_package : GuardrailScope
  of_skill : GuardrailScope
  of_tool : GuardrailScope
  of_run : GuardrailScope

pub data GuardrailError : Type 0 where
  blank_operation_id : GuardrailError
  blank_guardrail_id : GuardrailError
  no_selector : GuardrailError
  timeout_not_positive : GuardrailError
  already_registered : String → GuardrailError
  required_failed : String → GuardrailStage → GuardrailError

-- the fields that the runner reads
pub record GuardrailRequest : Type 0 where
  pub stage : GuardrailStage
  pub operation_id : String
  pub run_id : String
  pub package_ids : List String
  pub skill_id : String
  pub tool_name : String

pub record GuardrailDecision (Any : Type 0) : Type 0 where
  pub action : GuardrailAction
  pub reason : String
  pub code : String
  pub payload_patch : Dict String Any
  pub redactions : List String
  pub diagnostics : Dict String Any
  pub approval_title : String
  pub approval_prompt : String

pub record GuardrailAudit (Any : Type 0) : Type 0 where
  pub guardrail_id : String
  pub stage : GuardrailStage
  pub operation_id : String
  pub status : String
  pub action : GuardrailAction
  pub replayed : Bool
  pub required : Bool
  pub reason : String
  pub error : String
  pub diagnostics : Dict String Any

pub record GuardrailSpec : Type 0 where
  pub id : String
  pub stage : GuardrailStage
  pub priority : ℤ
  pub scope : GuardrailScope
  pub selector : String
  pub timeout_seconds : ℤ
  pub required : Bool

pub record GuardrailRunResult (Any : Type 0) : Type 0 where
  pub decision : GuardrailDecision Any
  pub audits : List (GuardrailAudit Any)

-- tuple(dict.fromkeys(value.strip() for value in values if value.strip()))
abbrev pub distinct_stripped : List String → List String
distinct_stripped [] = []
distinct_stripped (value ∷ values) =
    let rest = distinct_stripped values in
    if strip value == ""
    then rest
    else strip value ∷ filter (λ other. not (other == strip value)) rest

-- GuardrailRequest.__post_init__
unfoldable pub check_request : GuardrailRequest → Result GuardrailError GuardrailRequest
check_request self = do
  raise_if (strip self.operation_id == "") blank_operation_id
  ok (record self {
    operation_id = strip self.operation_id;
    package_ids = distinct_stripped self.package_ids;
  })

abbrev is_global : GuardrailScope → Bool
is_global global = true
is_global of_package = false
is_global of_skill = false
is_global of_tool = false
is_global of_run = false

-- GuardrailSpec.__post_init__; a timeout is in whole milliseconds
unfoldable pub check_spec : GuardrailSpec → Result GuardrailError GuardrailSpec
check_spec self = do
  raise_if (strip self.id == "") blank_guardrail_id
  raise_if (leb_ℤ self.timeout_seconds (pos 0)) timeout_not_positive
  raise_if (not (is_global self.scope) && strip self.selector == "") no_selector
  ok (record self { id = strip self.id; selector = strip self.selector })

-- GuardrailDecision()
unfoldable pub new_decision : {Any : Type 0} → GuardrailDecision Any
unfolding empty
new_decision = record {
  action = allow;
  reason = "";
  code = "";
  payload_patch = empty;
  redactions = [];
  diagnostics = empty;
  approval_title = "";
  approval_prompt = "";
}

abbrev pub is_final : GuardrailAction → Bool
is_final allow = false
is_final transform = false
is_final block = true
is_final require_approval = true

unfoldable pub terminal : {Any : Type 0} → GuardrailDecision Any → Bool
terminal self = is_final self.action

abbrev pub rank : GuardrailAction → ℕ
rank allow = 0
rank transform = 1
rank require_approval = 2
rank block = 3

-- _stronger_action
unfoldable pub stronger_action : GuardrailAction → GuardrailAction → GuardrailAction
stronger_action current incoming = if leb (rank current) (rank incoming) then incoming else current

-- _merge_decisions
unfoldable pub merge_decisions :
    {Any : Type 0} → GuardrailDecision Any → GuardrailDecision Any → GuardrailDecision Any
merge_decisions current incoming = record {
  action = stronger_action current.action incoming.action;
  reason = or_else incoming.reason current.reason;
  code = or_else incoming.code current.code;
  payload_patch = update current.payload_patch incoming.payload_patch;
  redactions = distinct_stripped (current.redactions ++ incoming.redactions);
  diagnostics = update current.diagnostics incoming.diagnostics;
  approval_title = or_else incoming.approval_title current.approval_title;
  approval_prompt = or_else incoming.approval_prompt current.approval_prompt;
}

abbrev pub matches_selector : GuardrailScope → String → GuardrailRequest → Bool
matches_selector global selector request = true
matches_selector of_package selector request = contains request.package_ids selector
matches_selector of_skill selector request = selector == request.skill_id
matches_selector of_tool selector request = selector == request.tool_name
matches_selector of_run selector request = selector == request.run_id

-- _matches_scope
unfoldable pub matches_scope : GuardrailSpec → GuardrailRequest → Bool
matches_scope spec request = matches_selector spec.scope spec.selector request

-- _audit
unfoldable pub audit_of :
    {Any : Type 0}
    → GuardrailSpec
    → GuardrailRequest
    → String
    → GuardrailDecision Any
    → Bool
    → GuardrailAudit Any
audit_of spec request status decision replayed = record {
  guardrail_id = spec.id;
  stage = request.stage;
  operation_id = request.operation_id;
  status = status;
  action = decision.action;
  replayed = replayed;
  required = spec.required;
  reason = decision.reason;
  error = "";
  diagnostics = decision.diagnostics;
}

-- the audit of a handler that failed
unfoldable pub failed_audit :
    {Any : Type 0} → GuardrailSpec → GuardrailRequest → String → GuardrailAudit Any
unfolding empty
failed_audit spec request error = record {
  guardrail_id = spec.id;
  stage = spec.stage;
  operation_id = request.operation_id;
  status = "failed";
  action = allow;
  replayed = false;
  required = spec.required;
  reason = "";
  error = error;
  diagnostics = empty;
}

-- ===== src/Guardrails/Examples.antt =====
-- Tests of the runner, and each of its theorems at a concrete input.
use deepkeel.Base.{String, ◌≡◌, refl, true, false, [], ◌∷◌, string_eq, pair_eq, Result, ok, err}
use deepkeel.Base.Dict.{get, put, empty, update}
use deepkeel.Base.Int.{pos}
use deepkeel.Base.Sorting.{text_ltb}
use deepkeel.Base.Text.{strip}
use deepkeel.Guardrails.{
  GuardrailError, GuardrailRequest, GuardrailDecision, GuardrailSpec, GuardrailRunResult,
  tool_input, final_output, global, of_tool, transform, block, new_decision, terminal,
  merge_decisions, stronger_action, matches_scope, audit_of, failed_audit, required_failed,
}
use deepkeel.Guardrails.Runner.{
  has_stage, restore_guardrails, GuardrailRunner, Handlers, applicable, sorted_specs, run_one,
  advance, run_all, arun,
}
use deepkeel.Guardrails.Replay.{arun_again}

runs :
    Handlers String
    → GuardrailRequest
    → GuardrailRunner String
    → Result GuardrailError (GuardrailRunResult String) × GuardrailRunner String
unfolding arun run_all run_one advance applicable sorted_specs new_decision terminal merge_decisions
    stronger_action matches_scope audit_of failed_audit get put empty update strip text_ltb
runs = arun

abbrev secrets : GuardrailSpec
secrets = record {
  id = "secrets";
  stage = tool_input;
  priority = pos 100;
  scope = global;
  selector = "";
  timeout_seconds = pos 2;
  required = true;
}

abbrev style : GuardrailSpec
style = record secrets {
  id = "style";
  priority = pos 5;
  scope = of_tool;
  selector = "write";
  required = false;
}

abbrev request : GuardrailRequest
request = record {
  stage = tool_input;
  operation_id = "op";
  run_id = "run";
  package_ids = [];
  skill_id = "";
  tool_name = "write";
}

abbrev runner : GuardrailRunner String
runner = record {
  guardrails = record { entries = ("secrets", secrets) ∷ ("style", style) ∷ [] };
  kept = record { entries = [] };
}

-- all answer with the decision
abbrev answers : GuardrailDecision String → Handlers String
answers decision spec = ok decision

abbrev masked : GuardrailDecision String
masked = record {
  action = transform;
  reason = "masked";
  code = "";
  payload_patch = record { entries = ("text", "***") ∷ [] };
  redactions = " key " ∷ [];
  diagnostics = record { entries = [] };
  approval_title = "";
  approval_prompt = "";
}

-- the decision and the store of a run, the failing of a required guardrail, and the end at a block
run_test :
    ((runs (answers masked) request runner).1.kept.entries
      ≡ (("style", ("tool.input", "op")), masked)
        ∷ (("secrets", ("tool.input", "op")), masked)
        ∷ [])
    × ((runs (λ spec. err "late") request runner).0 ≡ err (required_failed "secrets" tool_input))
    × ((runs (answers (record masked { action = block })) request runner).1.kept.entries
        ≡ (("style", ("tool.input", "op")), record masked { action = block }) ∷ [])
unfolding runs
run_test = (refl, refl, refl)

abbrev kept_masked : GuardrailRunner String
kept_masked = record runner {
  kept = record {
    entries =
        (("style", ("tool.input", "op")), masked)
        ∷ (("secrets", ("tool.input", "op")), masked)
        ∷ [];
  };
}

abbrev masked_result : GuardrailRunResult String
masked_result = record {
  decision = record masked { redactions = "key" ∷ [] };
  audits =
      audit_of style request "completed" masked false
      ∷ audit_of secrets request "completed" masked false
      ∷ [];
}

arun_again_example :
    (again : GuardrailRunResult String) × (arun (λ spec. err "late") request kept_masked
      ≡ (ok again, kept_masked))
    × (again.decision ≡ masked_result.decision)
unfolding runs
arun_again_example =
    arun_again (answers masked) (λ spec. err "late") request runner kept_masked masked_result
      ((masked, refl), ((masked, refl), tt)) refl

-- a runner has the stages of its guardrails, and those of a snapshot once that is restored
has_stage_test :
    (has_stage tool_input runner ≡ true)
    × (has_stage final_output runner ≡ false)
    × (has_stage tool_input (restore_guardrails (record { entries = [] }) runner) ≡ false)
unfolding has_stage restore_guardrails
has_stage_test = (refl, refl, refl)

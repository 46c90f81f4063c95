-- ===== src/WorkflowPolicy/Examples.antt =====
-- Tests of the completion contract, and its theorem at a concrete input.
use deepkeel.Base.{◌≡◌, ◌↔◌, refl, true, false, [], ◌∷◌, string_eq, ne_of_beq}
use deepkeel.Base.Sorting.{sorted_set}
use deepkeel.Base.Text.{strip, lower}
use deepkeel.WorkflowPolicy.{
  SkillPolicy, workflow, WorkflowState, WorkflowCompletionDecision, active, durable,
  failed_resume_sources, completed_tool_names, artifact_is_complete, artifact_types, missing_from,
  evaluate_workflow_completion, workflow_violation_message, join,
}
use deepkeel.WorkflowPolicy.Completion.{IsComplete, allowed-IsComplete}

evaluates : SkillPolicy → WorkflowState → WorkflowCompletionDecision
unfolding evaluate_workflow_completion active durable completed_tool_names failed_resume_sources
    artifact_types artifact_is_complete missing_from sorted_set strip lower
evaluates = evaluate_workflow_completion

abbrev report_skill : SkillPolicy
report_skill = record {
  skill_id = "report";
  kind = workflow;
  required_tools = "read" ∷ [];
  required_tool_groups = ("web" ∷ "search" ∷ []) ∷ [];
  required_artifacts = "report" ∷ [];
}

abbrev at_end : WorkflowState
at_end = record {
  completed_tools = " read " ∷ [];
  skill_completed_tools = [];
  tool_results = (record { status = "ok"; name = ""; tool_name = "search" }) ∷ [];
  observations = [];
  artifacts =
      (record { artifact_type = "report"; status = ""; data_status = " Ready"; report_status = "" })
      ∷ [];
}

-- at the end all is there; without a result, with a failed resumption or a pending report it is not
evaluation_test :
    ((evaluates report_skill at_end).allowed ≡ true)
    × ((evaluates report_skill (record at_end { tool_results = [] })).missing_tool_groups
        ≡ ("search" ∷ "web" ∷ []) ∷ [])
    × ((evaluates report_skill (record at_end {
      observations = (record { source = "read"; status = "failed"; resume_source = "user" }) ∷ [];
    })).missing_tools
        ≡ "read" ∷ [])
    × ((evaluates report_skill (record at_end {
      artifacts =
          (record {
            artifact_type = "report";
            status = "PENDING";
            data_status = "ok";
            report_status = "";
          })
          ∷ [];
    })).missing_artifacts
        ≡ "report" ∷ [])
unfolding evaluates
evaluation_test = (refl, refl, refl, refl)

message_test :
    (workflow_violation_message (record {
      allowed = false;
      missing_tools = "a" ∷ "b" ∷ [];
      missing_tool_groups = ("c" ∷ "d" ∷ []) ∷ [];
      missing_artifacts = [];
    })
      ≡ "Workflow Skill completion contract was not satisfied after policy repair: tools=a,b; one_of=c,d.")
unfolding workflow_violation_message join
message_test = refl

allowed-IsComplete_example :
    ((evaluate_workflow_completion report_skill at_end).allowed ≡ true)
    ↔ IsComplete report_skill at_end
allowed-IsComplete_example = allowed-IsComplete report_skill at_end (ne_of_beq refl) refl

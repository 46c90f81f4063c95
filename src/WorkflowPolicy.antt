-- ===== src/WorkflowPolicy.antt =====
-- src/deepkeel/workflow_policy.py: whether a workflow skill may end, and skills.py: the parts of a
-- SkillPolicy that this reads.
-- The run's state is a dictionary in the source. The record here has a field for each key that is read; a
-- list or a text is empty where the key is missing, and items that are no mappings are left out. Sets
-- are lists.
pub mod Completion
mod Examples
use Prim.Native.String.{◌++◌}
use deepkeel.Base.{
  is_empty, String, Bool, true, false, not, ◌&&◌, ◌||◌, if◌then◌else◌, List, [], ◌∷◌, map, filter,
  any, contains, ◌==◌, string_eq,
}
use mathlib.Core.List
use deepkeel.Base.Sorting.{sorted_set}
use deepkeel.Base.Text.{strip, lower, or_else}

pub data SkillKind : Type 0 where
  prompt : SkillKind
  workflow : SkillKind

pub record SkillPolicy : Type 0 where
  pub skill_id : String
  pub kind : SkillKind
  pub required_tools : List String
  pub required_tool_groups : List (List String)
  pub required_artifacts : List String

unfoldable pub active : SkillPolicy → Bool
active skill = not (skill.skill_id == "")

abbrev is_workflow : SkillKind → Bool
is_workflow prompt = false
is_workflow workflow = true

unfoldable pub durable : SkillPolicy → Bool
durable skill = is_workflow skill.kind

-- an item of state["tool_results"]
pub record ToolResultItem : Type 0 where
  pub status : String
  pub name : String
  pub tool_name : String

-- an item of state["observations"], with metadata["resume_source"]
pub record ObservationItem : Type 0 where
  pub source : String
  pub status : String
  pub resume_source : String

-- an item of state["artifacts"], with data["status"] and data["report_status"]
pub record ArtifactItem : Type 0 where
  pub artifact_type : String
  pub status : String
  pub data_status : String
  pub report_status : String

pub record WorkflowState : Type 0 where
  pub completed_tools : List String
  -- skill_activation["completed_tools"]
  pub skill_completed_tools : List String
  pub tool_results : List ToolResultItem
  pub observations : List ObservationItem
  pub artifacts : List ArtifactItem

pub record WorkflowCompletionDecision : Type 0 where
  pub allowed : Bool
  pub missing_tools : List String
  pub missing_tool_groups : List (List String)
  pub missing_artifacts : List String

abbrev pub satisfied_statuses : List String
satisfied_statuses = "succeeded" ∷ "ok" ∷ "completed" ∷ []

abbrev pub incomplete_artifact_statuses : List String
incomplete_artifact_statuses =
    "queued" ∷ "pending" ∷ "running" ∷ "failed" ∷ "error" ∷ "canceled" ∷ "cancelled" ∷ []

abbrev pub is_named : String → Bool
is_named name = not (name == "")

-- (str(name).strip() for name in names if str(name).strip())
abbrev pub stripped : List String → List String
stripped names = filter is_named (map strip names)

abbrev pub is_satisfied : ToolResultItem → Bool
is_satisfied result = contains satisfied_statuses (strip result.status)

abbrev pub result_name : ToolResultItem → String
result_name result = strip (or_else result.name result.tool_name)

abbrev pub is_failed_resume : ObservationItem → Bool
is_failed_resume item = strip item.status == "failed" && not (strip item.resume_source == "")

unfoldable pub failed_resume_sources : WorkflowState → List String
failed_resume_sources state =
    map (λ (item : ObservationItem). strip item.source) (filter is_failed_resume state.observations)

-- _completed_tool_names
unfoldable pub completed_tool_names : WorkflowState → List String
completed_tool_names state =
    let results = filter is_named (map result_name (filter is_satisfied state.tool_results)) in
    let completed =
      List.◌++◌ (stripped state.completed_tools)
        (List.◌++◌ (stripped state.skill_completed_tools) results) in
    filter (λ name. not (contains (failed_resume_sources state) name)) completed

-- _artifact_is_complete
unfoldable pub artifact_is_complete : ArtifactItem → Bool
artifact_is_complete artifact =
    let status = or_else artifact.status (or_else artifact.data_status artifact.report_status) in
    not (contains incomplete_artifact_statuses (lower (strip status)))

unfoldable pub artifact_types : WorkflowState → List String
artifact_types state = filter is_named (
    map (λ (item : ArtifactItem). strip item.artifact_type)
      (filter artifact_is_complete state.artifacts))

unfoldable pub missing_from : List String → List String → List String
missing_from required given = filter (λ name. not (contains given name)) required

-- evaluate_workflow_completion
unfoldable pub evaluate_workflow_completion :
    SkillPolicy → WorkflowState → WorkflowCompletionDecision
evaluate_workflow_completion skill state =
    let completed_tools = completed_tool_names state in
    let missing_tools = sorted_set (missing_from skill.required_tools completed_tools) in
    let missing_tool_groups = map sorted_set (
      filter (λ (group : List String). not (any (λ name. contains completed_tools name) group))
        skill.required_tool_groups) in
    let missing_artifacts =
      sorted_set (missing_from skill.required_artifacts (artifact_types state)) in
    if not (active skill) || not (durable skill)
    then record {
      allowed = true;
      missing_tools = [];
      missing_tool_groups = [];
      missing_artifacts = [];
    }
    else record {
      allowed =
          is_empty missing_tools && is_empty missing_tool_groups && is_empty missing_artifacts;
      missing_tools = missing_tools;
      missing_tool_groups = missing_tool_groups;
      missing_artifacts = missing_artifacts;
    }

-- separator.join(texts)
unfoldable pub join : String → List String → String
join separator [] = ""
join separator (text ∷ []) = text
join separator (text ∷ other ∷ texts) = text ++ (separator ++ join separator (other ∷ texts))

-- a section for each kind of what is missing
abbrev section : String → String → List String → List String
unfolding join
section title separator [] = []
section title separator (name ∷ names) = (title ++ join separator (name ∷ names)) ∷ []

unfoldable pub workflow_repair_prompt : WorkflowCompletionDecision → String
unfolding join
workflow_repair_prompt decision =
    let sections = List.◌++◌ (section "required tools: " ", " decision.missing_tools) (
      List.◌++◌
        (map (λ (group : List String). "one of required tools: " ++ join ", " group)
          decision.missing_tool_groups)
        (section "required artifacts: " ", " decision.missing_artifacts)) in
    "Workflow Skill completion policy repair. The previous final answer cannot be accepted because the following requirements are missing: "
    ++ (or_else (join "; " sections) "unknown workflow requirements"
        ++ ". Continue the workflow and satisfy every missing requirement before giving another final answer. This is the only policy repair attempt.")

unfoldable pub workflow_violation_message : WorkflowCompletionDecision → String
unfolding join
workflow_violation_message decision =
    let sections = List.◌++◌ (section "tools=" "," decision.missing_tools) (
      List.◌++◌
        (map (λ (group : List String). "one_of=" ++ join "," group) decision.missing_tool_groups)
        (section "artifacts=" "," decision.missing_artifacts)) in
    "Workflow Skill completion contract was not satisfied after policy repair: "
    ++ (or_else (join "; " sections) "unspecified requirements" ++ ".")

-- ===== src/WorkflowPolicy/Completion.antt =====
-- A workflow may end exactly when what it requires is there.
use deepkeel.Base.{
  String, ◌≡◌, ◌≢◌, ◌↔◌, ◌⊎◌, refl, sym, ap, ◌∙◌, inl, inr, Bool, true, Bool-cases, not, ◌&&◌, ◌||◌,
  List, [], ◌∷◌, ◌++◌, map, filter, any, All, contains, contains-filter, contains-append, is_empty,
  arith, ◌==◌, string_eq, eq_iff, beq_ne,
}
use deepkeel.Base.Sorting.{
  sorted_set, contains-sorted_set, empty-contains, first_of, contains-first_of,
}
use deepkeel.Base.Exists.{Exists, contains-map-filter}
use deepkeel.Base.Text.{strip, lower, or_else}
use deepkeel.WorkflowPolicy.{
  SkillPolicy, workflow, ToolResultItem, ObservationItem, ArtifactItem, WorkflowState, active,
  durable, is_named, is_satisfied, result_name, is_failed_resume, failed_resume_sources,
  completed_tool_names, artifact_is_complete, artifact_types, missing_from,
  evaluate_workflow_completion,
}

abbrev pub IsSatisfied : ToolResultItem → Type 0
IsSatisfied result =
    (strip result.status ≡ "succeeded")
    ⊎ ((strip result.status ≡ "ok") ⊎ (strip result.status ≡ "completed"))

abbrev pub IsFailedResume : ObservationItem → Type 0
IsFailedResume item = (strip item.status ≡ "failed") × (strip item.resume_source ≢ "")

-- the first of the three texts that is not empty, in lower case
abbrev pub status_of : ArtifactItem → String
status_of artifact =
    lower (strip (or_else artifact.status (or_else artifact.data_status artifact.report_status)))

-- the status is none of the incomplete ones
abbrev pub IsFinished : ArtifactItem → Type 0
IsFinished artifact =
    (status_of artifact ≢ "queued")
    × (status_of artifact ≢ "pending")
    × (status_of artifact ≢ "running")
    × (status_of artifact ≢ "failed")
    × (status_of artifact ≢ "error")
    × (status_of artifact ≢ "canceled")
    × (status_of artifact ≢ "cancelled")

result_iff : (result : ToolResultItem) → (is_satisfied result ≡ true) ↔ IsSatisfied result
result_iff result =
    let status = strip result.status in
    let succeeded = eq_iff "succeeded" status in
    let fine = eq_iff "ok" status in
    let completed = eq_iff "completed" status in
    (
      λ h. elim (Bool-cases ("succeeded" == status)) [
        | inl e ↦ inl (sym (succeeded.0 e))
        | inr e ↦ elim (Bool-cases ("ok" == status)) [
          | inl f ↦ inr (inl (sym (fine.0 f)))
          | inr f ↦ inr (inr (sym (completed.0 (ground (arith, h, e, f)))))
        ]
      ],
      λ s. elim s [
        | inl e ↦ let f = succeeded.1 (sym e) in ground (arith, f)
        | inr (inl e) ↦ let f = fine.1 (sym e) in ground (arith, f)
        | inr (inr e) ↦ let f = completed.1 (sym e) in ground (arith, f)
      ],
    )

resume_iff : (item : ObservationItem) → (is_failed_resume item ≡ true) ↔ IsFailedResume item
resume_iff item = (
  λ h. (
    ground (arith, h, eq_iff (strip item.status) "failed"),
    ground (arith, h, eq_iff (strip item.resume_source) ""),
  ),
  λ (status, source). ground (
    arith,
    status,
    source,
    eq_iff (strip item.status) "failed",
    eq_iff (strip item.resume_source) "",
  ),
)

status_iff :
    (artifact : ArtifactItem) → (artifact_is_complete artifact ≡ true) ↔ IsFinished artifact
unfolding artifact_is_complete
status_iff artifact =
    let status = status_of artifact in
    let is = λ (name : String). eq_iff name status in
    (
      λ h. (
        ground (arith, h, is "queued"),
        ground (arith, h, is "pending"),
        ground (arith, h, is "running"),
        ground (arith, h, is "failed"),
        ground (arith, h, is "error"),
        ground (arith, h, is "canceled"),
        ground (arith, h, is "cancelled"),
      ),
      λ (q, p, r, f, e, c, d). ground (
        arith,
        q,
        p,
        r,
        f,
        e,
        c,
        d,
        is "queued",
        is "pending",
        is "running",
        is "failed",
        is "error",
        is "canceled",
        is "cancelled",
      ),
    )

abbrev pub tool_of : ToolResultItem → String
tool_of result = strip (or_else result.name result.tool_name)

-- the state, or the active skill's, names the tool, or a satisfied result is of it
pub data IsReported (state : WorkflowState) (tool : String) : Type 0 where
  by_state : contains (map strip state.completed_tools) tool ≡ true → IsReported state tool
  by_skill : contains (map strip state.skill_completed_tools) tool ≡ true → IsReported state tool
  by_result : Exists IsSatisfied tool_of state.tool_results tool → IsReported state tool

abbrev pub source_name : ObservationItem → String
source_name item = strip item.source

abbrev pub type_name : ArtifactItem → String
type_name item = strip item.artifact_type

-- a tool that is reported, and of which no resumption has failed
pub record IsDone (state : WorkflowState) (tool : String) : Type 0 where
  pub named : tool ≢ ""
  pub reported : IsReported state tool
  pub not_failed : ¬ Exists IsFailedResume source_name state.observations tool

pub record IsPresent (state : WorkflowState) (artifact : String) : Type 0 where
  pub named : artifact ≢ ""
  pub there : Exists IsFinished type_name state.artifacts artifact

abbrev reports : WorkflowState → String → Bool
reports state tool =
    contains (map strip state.completed_tools) tool
    || (contains (map strip state.skill_completed_tools) tool
        || contains (map result_name (filter is_satisfied state.tool_results)) tool)

reports_iff :
    (state : WorkflowState) (tool : String) → (reports state tool ≡ true) ↔ IsReported state tool
reports_iff state tool =
    let results =
      contains-map-filter is_satisfied IsSatisfied result_name result_iff state.tool_results tool in
    (
      λ h. elim (Bool-cases (contains (map strip state.completed_tools) tool)) [
        | inl e ↦ by_state e
        | inr e ↦ elim (Bool-cases (contains (map strip state.skill_completed_tools) tool)) [
          | inl f ↦ by_skill f
          | inr f ↦ by_result (results.0 (ground (arith, h, e, f)))
        ]
      ],
      λ r. elim r [
        | by_state e ↦ ground (arith, e)
        | by_skill e ↦ ground (arith, e)
        | by_result e ↦ let found = results.1 e in ground (arith, found)
      ],
    )

contains-completed_tool_names :
    (state : WorkflowState) (tool : String)
    → contains (completed_tool_names state) tool
      ≡ (not (contains (failed_resume_sources state) tool) && (is_named tool && reports state tool))
unfolding completed_tool_names
contains-completed_tool_names state tool =
    let by_states = filter is_named (map strip state.completed_tools) in
    let by_skills = filter is_named (map strip state.skill_completed_tools) in
    let results = map result_name (filter is_satisfied state.tool_results) in
    let completed = by_states ++ (by_skills ++ filter is_named results) in
    let outer =
      contains-filter (λ (name : String). not (contains (failed_resume_sources state) name))
        completed tool in
    ground (
      arith,
      outer,
      contains-append by_states (by_skills ++ filter is_named results) tool,
      contains-append by_skills (filter is_named results) tool,
      contains-filter is_named (map strip state.completed_tools) tool,
      contains-filter is_named (map strip state.skill_completed_tools) tool,
      contains-filter is_named results tool,
    )

done_iff :
    (state : WorkflowState) (tool : String)
    → (contains (completed_tool_names state) tool ≡ true) ↔ IsDone state tool
unfolding failed_resume_sources
done_iff state tool =
    let reads = contains-completed_tool_names state tool in
    let reported = reports_iff state tool in
    let failed =
      contains-map-filter is_failed_resume IsFailedResume source_name resume_iff state.observations
        tool in
    (
      λ h. record {
        named = ground (arith, h, reads, eq_iff tool "");
        reported = reported.0 (ground (arith, h, reads));
        not_failed = λ f. let e = failed.1 f in absurd (ground (arith, h, reads, e));
      },
      λ d.
          let r = reported.1 d.reported in
          elim (Bool-cases (contains (failed_resume_sources state) tool)) [
            | inl e ↦ absurd (d.not_failed (failed.0 e))
            | inr e ↦ reads ∙ ground (arith, r, e, d.named, eq_iff tool "")
          ],
    )

artifact_iff :
    (state : WorkflowState) (artifact : String)
    → (contains (artifact_types state) artifact ≡ true) ↔ IsPresent state artifact
unfolding artifact_types
artifact_iff state artifact =
    let types = map type_name (filter artifact_is_complete state.artifacts) in
    let reads = contains-filter is_named types artifact in
    let found =
      contains-map-filter artifact_is_complete IsFinished type_name status_iff state.artifacts
        artifact in
    (
      λ h. record {
        named = ground (arith, h, reads, eq_iff artifact "");
        there = found.0 (ground (arith, h, reads));
      },
      λ p. let e = found.1 p.there in reads ∙ ground (arith, e, p.named, eq_iff artifact ""),
    )

-- nothing is missing when all that is required is given
missing_from_iff :
    (required given : List String)
    → (is_empty (sorted_set (missing_from required given)) ≡ true)
      ↔ ((name : String) → contains required name ≡ true → contains given name ≡ true)
unfolding missing_from
missing_from_iff required given =
    let lacks = λ (name : String). not (contains given name) in
    let missing = sorted_set (filter lacks required) in
    let reads = λ (name : String).
      contains-sorted_set (filter lacks required) name ∙ contains-filter lacks required name in
    (
      λ h name needed.
          let none_there = empty-contains missing name h in
          ground (arith, needed, none_there, reads name),
      λ h. elim (Bool-cases (is_empty missing)) [
        | inl e ↦ e
        | inr e ↦
            let there = contains-first_of missing e in
            absurd (ground (arith, there, reads (first_of missing), h (first_of missing)))
      ],
    )

any_iff :
    (p : String → Bool) (names : List String)
    → (any p names ≡ true) ↔ ((name : String) × (contains names name ≡ true) × (p name ≡ true))
any_iff p [] = (λ h. absurd (cc h), λ (name, e, h). absurd (cc e))
any_iff p (first ∷ names) =
    let (there, back) = any_iff p names in
    (
      λ h. elim (Bool-cases (p first)) [
        | inl e ↦ (first, ground (arith, eq_iff first first), e)
        | inr e ↦ let (name, f, g) = there (ground (arith, h, e)) in (name, ground (arith, f), g)
      ],
      λ (name, e, h). elim (Bool-cases (first == name)) [
        | inl same ↦
            let passes : p first ≡ true = ap p ((eq_iff first name).0 same) ∙ h in
            ground (arith, passes)
        | inr other ↦ let f = back (name, ground (arith, e, other), h) in ground (arith, f)
      ],
    )

-- a tool of the group is done
abbrev pub IsServed : WorkflowState → List String → Type 0
IsServed state group = (tool : String) × (contains group tool ≡ true) × IsDone state tool

group_iff :
    (state : WorkflowState) (group : List String)
    → (any (λ (name : String). contains (completed_tool_names state) name) group ≡ true)
      ↔ IsServed state group
group_iff state group =
    let (there, back) =
      any_iff (λ (name : String). contains (completed_tool_names state) name) group in
    (
      λ h. let (tool, e, f) = there h in (tool, e, (done_iff state tool).0 f),
      λ (tool, e, f). back (tool, e, (done_iff state tool).1 f),
    )

groups_iff :
    (state : WorkflowState) (groups : List (List String))
    → (is_empty (
          map sorted_set (
            filter
              (λ (group : List String).
                not (any (λ (name : String). contains (completed_tool_names state) name) group))
              groups))
        ≡ true)
      ↔ All (IsServed state) groups
groups_iff state [] = (λ h. tt, λ h. refl)
groups_iff state (group ∷ groups) =
    let (there, back) = groups_iff state groups in
    let (served, serves) = group_iff state group in
    elim (Bool-cases (any (λ (name : String). contains (completed_tool_names state) name) group)) [
      | inl e ↦ rw e (λ h. (served e, there h), λ (s, h). back h)
      | inr e ↦ rw e (λ h. absurd (cc h), λ (s, h). let f = serves s in absurd (cc (e, f)))
    ]

-- all that the skill requires is done or present
pub record IsComplete (skill : SkillPolicy) (state : WorkflowState) : Type 0 where
  pub tools : (tool : String) → contains skill.required_tools tool ≡ true → IsDone state tool
  pub groups : All (IsServed state) skill.required_tool_groups
  pub artifacts :
      (artifact : String)
      → contains skill.required_artifacts artifact ≡ true
      → IsPresent state artifact

-- A workflow skill may end exactly when every required tool is done, some tool of every required group is,
-- and every required artifact is present. A tool is done when the state, the skill's activation or a
-- satisfied tool result names it, and no observation tells that its resumption failed; an artifact is
-- present when one of its type is there whose status is none of the incomplete ones.
pub allowed-IsComplete :
    (skill : SkillPolicy) (state : WorkflowState)
    → skill.skill_id ≢ ""
    → skill.kind ≡ workflow
    → ((evaluate_workflow_completion skill state).allowed ≡ true) ↔ IsComplete skill state
unfolding evaluate_workflow_completion active durable
allowed-IsComplete skill state named durably =
    let tools = missing_from_iff skill.required_tools (completed_tool_names state) in
    let groups = groups_iff state skill.required_tool_groups in
    let artifacts = missing_from_iff skill.required_artifacts (artifact_types state) in
    rw (beq_ne named, durably)
      (
        λ h. record {
          tools = λ tool needed. (done_iff state tool).0 (tools.0 (ground (arith, h)) tool needed);
          groups = groups.0 (ground (arith, h));
          artifacts = λ artifact needed.
              (artifact_iff state artifact).0 (artifacts.0 (ground (arith, h)) artifact needed);
        },
        λ c.
            let t = tools.1 (λ tool needed. (done_iff state tool).1 (c.tools tool needed)) in
            let g = groups.1 c.groups in
            let a =
              artifacts.1 (λ artifact needed.
                (artifact_iff state artifact).1 (c.artifacts artifact needed)) in
            ground (arith, t, g, a),
      )

-- ===== src/Policy.antt =====
-- src/deepkeel/policy.py: whether an operation on a model or a tool is allowed.
-- A request's context is a dictionary of dictionaries in the source. The record here has a field for each
-- key that the engines read: a list or a text is empty where the key is missing, and a truth value that
-- the source tests by `is` is an Option or, where only `True` counts, a Bool. Sets of texts are lists.
pub mod Allowlist
pub mod Permits
pub mod Rules
mod Examples
use deepkeel.Base.{
  is_empty, String, Bool, true, false, not, ◌&&◌, ◌||◌, Option, none, some, if◌then◌else◌, List, [],
  ◌∷◌, filter, contains, ◌==◌, string_eq,
}
use Prim.Native.String.{◌++◌}
use deepkeel.Base.Sorting.{sorted_set}
use deepkeel.Base.Text.{strip, or_else}

pub data PolicyEffect : Type 0 where
  allow : PolicyEffect
  deny : PolicyEffect
  confirm : PolicyEffect

abbrev pub is_allow : PolicyEffect → Bool
is_allow allow = true
is_allow deny = false
is_allow confirm = false

abbrev pub is_confirm : PolicyEffect → Bool
is_confirm allow = false
is_confirm deny = false
is_confirm confirm = true

-- context["confirmation_grant"]
pub record ConfirmationGrant : Type 0 where
  pub confirmed : Bool
  pub run_id : String
  pub tool_call_id : String
  pub tool_name : String

pub record PolicyContext : Type 0 where
  -- usage_policy["enabled"]
  pub enabled : Option Bool
  -- skill_activation
  pub skill_id : String
  pub allowed_tools : List String
  pub tool_scope_mode : String
  -- runtime_policy
  pub allowed_tenants : List String
  pub required_scopes : List String
  pub confirmation_required : Bool
  pub confirmation_authority : String
  pub confirmation_prompt : String
  pub side_effect : String
  -- governance_scope["scopes"]
  pub granted_scopes : List String
  pub confirmation_grant : ConfirmationGrant
  pub tool_call_id : String

pub record PolicyRequest : Type 0 where
  pub action : String
  pub resource_type : String
  pub resource_id : String
  pub run_id : String
  pub user_id : String
  pub tenant_id : String
  pub risk_level : String
  pub context : PolicyContext

-- metadata["rule"], with what stands beside it
pub data PolicyMetadata : Type 0 where
  resource_disabled : PolicyMetadata
  skill_tool_allowlist : String → PolicyMetadata
  tenant_allowlist : PolicyMetadata
  missing_required_scopes : List String → PolicyMetadata
  tool_confirmation_required : String → PolicyMetadata
  default_allow : PolicyMetadata
  configured_policy : PolicyMetadata

pub record PolicyDecision : Type 0 where
  pub allowed : Bool
  pub reason : String
  pub policy_id : String
  pub requires_confirmation : Bool
  pub effect : PolicyEffect
  pub metadata : PolicyMetadata

-- `effect or (...)`
abbrev pub effect_or : Option PolicyEffect → Bool → Bool → PolicyEffect
effect_or (some effect) requires_confirmation allowed = effect
effect_or none requires_confirmation allowed =
    if requires_confirmation then confirm else if allowed then allow else deny

-- PolicyDecision.__post_init__, which makes the three fields agree
unfoldable pub new_decision :
    Bool → Bool → Option PolicyEffect → String → String → PolicyMetadata → PolicyDecision
new_decision allowed requires_confirmation effect reason policy_id metadata =
    let settled = effect_or effect requires_confirmation allowed in
    record {
      allowed = is_allow settled;
      reason = reason;
      policy_id = policy_id;
      requires_confirmation = is_confirm settled;
      effect = settled;
      metadata = metadata;
    }

-- a decision of the default engine
abbrev pub decide : Bool → Option PolicyEffect → String → PolicyMetadata → PolicyDecision
decide allowed effect reason metadata =
    new_decision allowed false effect reason "harness-default-v1" metadata

abbrev pub is_filled : String → Bool
is_filled value = not (strip value == "")

abbrev pub is_disabled : Option Bool → Bool
is_disabled none = false
is_disabled (some b) = not b

unfoldable pub scope_mode : PolicyContext → String
scope_mode context =
    or_else context.tool_scope_mode
      (if is_empty context.allowed_tools then "inherit" else "allowlist")

-- the test of the skill's allowlist
unfoldable pub is_outside_skill : PolicyRequest → Bool
unfolding scope_mode
is_outside_skill request =
    let context = request.context in
    request.action == "tool.invoke"
    && not (context.skill_id == "")
    && scope_mode context == "allowlist"
    && not (contains context.allowed_tools request.resource_id)
    && not (
        (request.resource_id == "runtime.discover_tools"
          || request.resource_id == "runtime.discover_skills")
        && not (is_empty context.allowed_tools))

unfoldable pub is_foreign_tenant : PolicyRequest → Bool
is_foreign_tenant request =
    let allowed_tenants = filter is_filled request.context.allowed_tenants in
    not (is_empty allowed_tenants) && not (contains allowed_tenants request.tenant_id)

-- required_scopes - granted_scopes
unfoldable pub missing_scopes : PolicyContext → List String
missing_scopes context =
    let granted_scopes = filter is_filled context.granted_scopes in
    filter (λ scope. not (contains granted_scopes scope)) (filter is_filled context.required_scopes)

-- _confirmation_grant_matches
unfoldable pub confirmation_grant_matches : PolicyRequest → ConfirmationGrant → Bool
confirmation_grant_matches request grant =
    grant.confirmed
    && grant.run_id == request.run_id
    && grant.tool_call_id == request.context.tool_call_id
    && grant.tool_name == request.resource_id

unfoldable pub is_unconfirmed : PolicyRequest → Bool
unfolding confirmation_grant_matches
is_unconfirmed request =
    let context = request.context in
    request.action == "tool.invoke"
    && context.confirmation_required
    && not (context.confirmation_authority == "handler")
    && not (confirmation_grant_matches request context.confirmation_grant)

-- DefaultPolicyEngine.evaluate
unfoldable pub evaluate_default : PolicyRequest → PolicyDecision
evaluate_default request =
    let context = request.context in
    if is_disabled context.enabled
    then decide false none "resource is disabled by its usage policy" resource_disabled
    else if is_outside_skill request
    then decide false none "tool is outside the active skill allowlist"
        (skill_tool_allowlist context.skill_id)
    else if is_foreign_tenant request
    then decide false none "tenant is not allowed to use this resource" tenant_allowlist
    else if not (is_empty (missing_scopes context))
    then decide false none "required governance scopes are missing"
        (missing_required_scopes (sorted_set (missing_scopes context)))
    else if is_unconfirmed request
    then decide false (some confirm)
        (or_else context.confirmation_prompt
          "This tool requires user confirmation before execution.")
        (tool_confirmation_required context.side_effect)
    else decide true none "allowed by default harness policy" default_allow

pub record PolicyRule : Type 0 where
  pub id : String
  pub effect : PolicyEffect
  pub actions : List String
  pub resource_types : List String
  pub resource_ids : List String
  pub tenant_ids : List String
  pub user_ids : List String
  pub skill_ids : List String
  pub risk_levels : List String
  pub reason : String

-- `not allowed or value in allowed`
abbrev pub admits : List String → String → Bool
admits allowed value = is_empty allowed || contains allowed value

-- PolicyRule.matches
unfoldable pub matches : PolicyRule → PolicyRequest → Bool
matches rule request =
    admits rule.actions request.action
    && admits rule.resource_types request.resource_type
    && admits rule.resource_ids request.resource_id
    && admits rule.tenant_ids request.tenant_id
    && admits rule.user_ids request.user_id
    && admits rule.skill_ids request.context.skill_id
    && admits rule.risk_levels request.risk_level

-- the decision of a rule that matches
unfoldable pub rule_decision : PolicyRule → PolicyDecision
rule_decision rule =
    new_decision (is_allow rule.effect) (is_confirm rule.effect) (some rule.effect)
      (or_else rule.reason ("matched policy rule " ++ rule.id)) rule.id configured_policy

-- RuleBasedPolicyEngine.evaluate; the fallback is an engine
unfoldable pub evaluate :
    List PolicyRule → (PolicyRequest → PolicyDecision) → PolicyRequest → PolicyDecision
evaluate [] fallback request = fallback request
evaluate (rule ∷ rules) fallback request =
    let rest = evaluate rules fallback request in
    if matches rule request then rule_decision rule else rest

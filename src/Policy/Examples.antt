-- ===== src/Policy/Examples.antt =====
-- Tests of the engines, and a theorem at a concrete input.
use deepkeel.Base.{String, ◌≡◌, ◌↔◌, refl, true, false, none, [], ◌∷◌, ◌++◌, string_eq}
use deepkeel.Base.Sorting.{sorted_set}
use deepkeel.Base.Text.{strip}
use deepkeel.Policy.{
  PolicyContext, PolicyRequest, PolicyDecision, PolicyRule, skill_tool_allowlist,
  missing_required_scopes, default_allow, allow, deny, confirm, new_decision, is_outside_skill,
  scope_mode, is_foreign_tenant, missing_scopes, is_unconfirmed, confirmation_grant_matches,
  evaluate_default, evaluate,
}
use deepkeel.Policy.Permits.{Permits, evaluate_default-Permits}
use deepkeel.Policy.Rules.{first_match_decides}

decides : PolicyRequest → PolicyDecision
unfolding evaluate_default new_decision is_outside_skill scope_mode is_foreign_tenant missing_scopes
    is_unconfirmed confirmation_grant_matches strip sorted_set
decides = evaluate_default

abbrev plain_context : PolicyContext
plain_context = record {
  enabled = none;
  skill_id = "";
  allowed_tools = [];
  tool_scope_mode = "";
  allowed_tenants = [];
  required_scopes = [];
  confirmation_required = false;
  confirmation_authority = "";
  confirmation_prompt = "";
  side_effect = "";
  granted_scopes = [];
  confirmation_grant = record { confirmed = false; run_id = ""; tool_call_id = ""; tool_name = "" };
  tool_call_id = "call";
}

abbrev search_call : PolicyRequest
search_call = record {
  action = "tool.invoke";
  resource_type = "tool";
  resource_id = "search";
  run_id = "run";
  user_id = "u";
  tenant_id = "t";
  risk_level = "low";
  context = plain_context;
}

abbrev in_context : PolicyContext → PolicyRequest
in_context context = record search_call { context = context }

-- the defaults allow; a skill's allowlist and missing scopes deny; a confirmation is asked for, and found
default_test :
    ((decides search_call).metadata ≡ default_allow)
    × ((decides (
          in_context
            (record plain_context { skill_id = "s"; allowed_tools = "read" ∷ [] }))).metadata
        ≡ skill_tool_allowlist "s")
    × ((decides (
          in_context (record plain_context {
            required_scopes = "b" ∷ " " ∷ "a" ∷ "c" ∷ [];
            granted_scopes = "c" ∷ [];
          }))).metadata
        ≡ missing_required_scopes ("a" ∷ "b" ∷ []))
    × ((decides (in_context (record plain_context { confirmation_required = true }))).effect
        ≡ confirm)
    × ((decides (
          in_context (record plain_context {
            confirmation_required = true;
            confirmation_grant = record {
              confirmed = true;
              run_id = "run";
              tool_call_id = "call";
              tool_name = "search";
            };
          }))).effect
        ≡ allow)
unfolding decides
default_test = (refl, refl, refl, refl, refl)

abbrev rule_for : String → PolicyRule
rule_for tool = record {
  id = "rule";
  effect = deny;
  actions = "tool.invoke" ∷ [];
  resource_types = [];
  resource_ids = tool ∷ [];
  tenant_ids = [];
  user_ids = [];
  skill_ids = [];
  risk_levels = [];
  reason = "";
}

first_match_decides_example :
    let decision =
      evaluate
        (rule_for "write" ∷ [] ++ record (rule_for "search") { id = "no search" } ∷ [])
        evaluate_default
        search_call in
    (decision.effect ≡ deny)
    × (decision.policy_id ≡ "no search")
    × ((decision.allowed ≡ true) ↔ (deny ≡ allow))
    × ((decision.requires_confirmation ≡ true) ↔ (deny ≡ confirm))
first_match_decides_example =
    first_match_decides (rule_for "write" ∷ []) [] (record (rule_for "search") { id = "no search" })
      evaluate_default search_call (λ m. cc (m.resource_id (λ e. cc e)), tt)
      (record {
        action = λ h. refl;
        resource_type = λ h. absurd (h refl);
        resource_id = λ h. refl;
        tenant = λ h. absurd (h refl);
        user = λ h. absurd (h refl);
        skill = λ h. absurd (h refl);
        risk = λ h. absurd (h refl);
      })

evaluate_default-Permits_example :
    ((evaluate_default search_call).allowed ≡ true) ↔ Permits search_call
evaluate_default-Permits_example = evaluate_default-Permits search_call

-- ===== src/Policy/Rules.antt =====
-- The ordered rules: the first that matches decides.
use deepkeel.Base.{
  String, ◌≡◌, ◌≢◌, ◌↔◌, refl, true, Bool-cases, inl, inr, List, [], ◌∷◌, ◌++◌, All, contains,
  arith, string_eq,
}
use deepkeel.Policy.{
  PolicyRequest, PolicyDecision, PolicyRule, PolicyEffect, is_allow, is_confirm, allow, deny,
  confirm, admits, matches, rule_decision, new_decision, evaluate,
}

-- a set admits the value in it, and each value where it is empty
abbrev pub Admits : List String → String → Type 0
Admits allowed value = allowed ≢ [] → contains allowed value ≡ true

pub record Matches (rule : PolicyRule) (request : PolicyRequest) : Type 0 where
  pub action : Admits rule.actions request.action
  pub resource_type : Admits rule.resource_types request.resource_type
  pub resource_id : Admits rule.resource_ids request.resource_id
  pub tenant : Admits rule.tenant_ids request.tenant_id
  pub user : Admits rule.user_ids request.user_id
  pub skill : Admits rule.skill_ids request.context.skill_id
  pub risk : Admits rule.risk_levels request.risk_level

admits-Admits :
    (allowed : List String) (value : String) → (admits allowed value ≡ true) ↔ Admits allowed value
admits-Admits [] value = (λ h some_value. absurd (some_value refl), λ h. refl)
admits-Admits (x ∷ xs) value = (λ h some_value. h, λ h. h (λ e. cc e))

matches_iff :
    (rule : PolicyRule) (request : PolicyRequest)
    → (matches rule request ≡ true) ↔ Matches rule request
unfolding matches
matches_iff rule request = (
  λ h. record {
    action = (admits-Admits rule.actions request.action).0 (ground (arith, h));
    resource_type = (admits-Admits rule.resource_types request.resource_type).0 (ground (arith, h));
    resource_id = (admits-Admits rule.resource_ids request.resource_id).0 (ground (arith, h));
    tenant = (admits-Admits rule.tenant_ids request.tenant_id).0 (ground (arith, h));
    user = (admits-Admits rule.user_ids request.user_id).0 (ground (arith, h));
    skill = (admits-Admits rule.skill_ids request.context.skill_id).0 (ground (arith, h));
    risk = (admits-Admits rule.risk_levels request.risk_level).0 (ground (arith, h));
  },
  λ m. ground (
    arith,
    (admits-Admits rule.actions request.action).1 m.action,
    (admits-Admits rule.resource_types request.resource_type).1 m.resource_type,
    (admits-Admits rule.resource_ids request.resource_id).1 m.resource_id,
    (admits-Admits rule.tenant_ids request.tenant_id).1 m.tenant,
    (admits-Admits rule.user_ids request.user_id).1 m.user,
    (admits-Admits rule.skill_ids request.context.skill_id).1 m.skill,
    (admits-Admits rule.risk_levels request.risk_level).1 m.risk,
  ),
)

-- the rules that come before are passed over
evaluate_after :
    (before after : List PolicyRule) (fallback : PolicyRequest → PolicyDecision)
    (request : PolicyRequest)
    → All (λ rule. ¬ Matches rule request) before
    → evaluate (before ++ after) fallback request ≡ evaluate after fallback request
unfolding evaluate
evaluate_after [] after fallback request h = refl
evaluate_after (rule ∷ before) after fallback request (other, others) =
    elim (Bool-cases (matches rule request)) [
      | inl e ↦ absurd (other ((matches_iff rule request).0 e))
      | inr e ↦ rw e (evaluate_after before after fallback request others)
    ]

evaluate_first :
    (rule : PolicyRule) (after : List PolicyRule) (fallback : PolicyRequest → PolicyDecision)
    (request : PolicyRequest)
    → Matches rule request
    → evaluate (rule ∷ after) fallback request ≡ rule_decision rule
unfolding evaluate
evaluate_first rule after fallback request m = rw ((matches_iff rule request).1 m) refl

allow_iff : (effect : PolicyEffect) → (is_allow effect ≡ true) ↔ (effect ≡ allow)
allow_iff allow = ground arith
allow_iff deny = ground arith
allow_iff confirm = ground arith

confirm_iff : (effect : PolicyEffect) → (is_confirm effect ≡ true) ↔ (effect ≡ confirm)
confirm_iff allow = ground arith
confirm_iff deny = ground arith
confirm_iff confirm = ground arith

rule_decision_lem :
    (rule : PolicyRule)
    → ((rule_decision rule).effect ≡ rule.effect)
      × ((rule_decision rule).policy_id ≡ rule.id)
      × (((rule_decision rule).allowed ≡ true) ↔ (rule.effect ≡ allow))
      × (((rule_decision rule).requires_confirmation ≡ true) ↔ (rule.effect ≡ confirm))
unfolding rule_decision new_decision
rule_decision_lem rule = (refl, refl, allow_iff rule.effect, confirm_iff rule.effect)

-- where no rule matches, the fallback decides
pub no_match_falls_back :
    (rules : List PolicyRule) (fallback : PolicyRequest → PolicyDecision) (request : PolicyRequest)
    → All (λ rule. ¬ Matches rule request) rules
    → evaluate rules fallback request ≡ fallback request
unfolding evaluate
no_match_falls_back [] fallback request h = refl
no_match_falls_back (rule ∷ rules) fallback request (other, others) =
    elim (Bool-cases (matches rule request)) [
      | inl e ↦ absurd (other ((matches_iff rule request).0 e))
      | inr e ↦ rw e (no_match_falls_back rules fallback request others)
    ]

-- With ordered rules the first that matches decides, whatever comes after it and whatever the fallback: the
-- decision has the rule's effect and id, allows exactly when the effect is to allow, and asks for a
-- confirmation exactly when the effect is to confirm. A rule matches when each of its sets that is not
-- empty has the request's value.
pub first_match_decides :
    (before after : List PolicyRule) (rule : PolicyRule) (fallback : PolicyRequest → PolicyDecision)
    (request : PolicyRequest)
    → All (λ other. ¬ Matches other request) before
    → Matches rule request
    → let decision = evaluate (before ++ rule ∷ after) fallback request in
      (decision.effect ≡ rule.effect)
      × (decision.policy_id ≡ rule.id)
      × ((decision.allowed ≡ true) ↔ (rule.effect ≡ allow))
      × ((decision.requires_confirmation ≡ true) ↔ (rule.effect ≡ confirm))
first_match_decides before after rule fallback request h m =
    rw (evaluate_after before (rule ∷ after) fallback request h)
      (rw (evaluate_first rule after fallback request m) (rule_decision_lem rule))

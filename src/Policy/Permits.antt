-- ===== src/Policy/Permits.antt =====
-- What the default engine asks of a request that it allows.
use deepkeel.Base.{
  is_empty, String, ◌≡◌, ◌≢◌, ◌↔◌, inl, inr, Bool, true, false, Bool-cases, not, ◌&&◌, ◌||◌, Option,
  none, some, filter, contains, contains-filter, arith, ◌==◌, string_eq, eq_iff,
}
use deepkeel.Base.Sorting.{empty-contains, first_of, contains-first_of}
use deepkeel.Base.Text.{strip}
use deepkeel.Policy.{
  PolicyContext, PolicyRequest, is_filled, is_disabled, is_outside_skill, is_foreign_tenant,
  missing_scopes, confirmation_grant_matches, is_unconfirmed, new_decision, evaluate_default,
}
use deepkeel.Policy.Allowlist.{HasAllowlist, IsInSkill, allowlist_iff}

-- the user's confirmation of this call of this tool in this run
pub record IsGranted (request : PolicyRequest) : Type 0 where
  pub confirmed : request.context.confirmation_grant.confirmed ≡ true
  pub of_run : request.context.confirmation_grant.run_id ≡ request.run_id
  pub of_call : request.context.confirmation_grant.tool_call_id ≡ request.context.tool_call_id
  pub of_tool : request.context.confirmation_grant.tool_name ≡ request.resource_id

-- what a request needs in order to be allowed; a tenant or a scope counts where it is not blank
pub record Permits (request : PolicyRequest) : Type 0 where
  pub enabled : request.context.enabled ≢ some false
  pub in_skill :
      request.action ≡ "tool.invoke"
      → request.context.skill_id ≢ ""
      → HasAllowlist request.context
      → IsInSkill request.context request.resource_id
  pub own_tenant :
      (tenant : String)
      → contains request.context.allowed_tenants tenant ≡ true
      → strip tenant ≢ ""
      → (contains request.context.allowed_tenants request.tenant_id ≡ true)
        × (strip request.tenant_id ≢ "")
  pub in_scopes :
      (scope : String)
      → contains request.context.required_scopes scope ≡ true
      → strip scope ≢ ""
      → contains request.context.granted_scopes scope ≡ true
  pub granted :
      request.action ≡ "tool.invoke"
      → request.context.confirmation_required ≡ true
      → request.context.confirmation_authority ≢ "handler"
      → IsGranted request

is_disabled_iff : (o : Option Bool) → (is_disabled o ≡ true) ↔ (o ≡ some false)
is_disabled_iff none = ground arith
is_disabled_iff (some b) = ground arith

-- the default engine allows what passes its five tests
allowed_iff :
    (request : PolicyRequest)
    → ((evaluate_default request).allowed ≡ true) ↔ (
        (is_disabled request.context.enabled
          || is_outside_skill request
          || is_foreign_tenant request
          || not (is_empty (missing_scopes request.context))
          || is_unconfirmed request)
        ≡ false)
unfolding evaluate_default new_decision
allowed_iff request = ground arith

own_tenant_iff :
    (request : PolicyRequest)
    → (is_foreign_tenant request ≡ false) ↔ (
        (tenant : String)
        → contains request.context.allowed_tenants tenant ≡ true
        → strip tenant ≢ ""
        → (contains request.context.allowed_tenants request.tenant_id ≡ true)
          × (strip request.tenant_id ≢ ""))
unfolding is_foreign_tenant
own_tenant_iff request =
    let tenants = request.context.allowed_tenants in
    let kept = filter is_filled tenants in
    let kept_iff = λ (t : String). contains-filter is_filled tenants t in
    (
      λ passes tenant listed filled. (
        ground (
          arith,
          passes,
          listed,
          filled,
          kept_iff tenant,
          kept_iff request.tenant_id,
          empty-contains kept tenant,
          eq_iff (strip tenant) "",
          eq_iff (strip request.tenant_id) "",
        ),
        ground (
          arith,
          passes,
          listed,
          filled,
          kept_iff tenant,
          kept_iff request.tenant_id,
          empty-contains kept tenant,
          eq_iff (strip tenant) "",
          eq_iff (strip request.tenant_id) "",
        ),
      ),
      λ h. ground (
        arith,
        h (first_of kept),
        kept_iff (first_of kept),
        kept_iff request.tenant_id,
        contains-first_of kept,
        eq_iff (strip (first_of kept)) "",
        eq_iff (strip request.tenant_id) "",
      ),
    )

in_scopes_iff :
    (context : PolicyContext)
    → (is_empty (missing_scopes context) ≡ true) ↔ (
        (scope : String)
        → contains context.required_scopes scope ≡ true
        → strip scope ≢ ""
        → contains context.granted_scopes scope ≡ true)
unfolding missing_scopes
in_scopes_iff context =
    let granted = filter is_filled context.granted_scopes in
    let lacks = λ (scope : String). not (contains granted scope) in
    let missing = filter lacks (filter is_filled context.required_scopes) in
    let granted_iff = λ (s : String). contains-filter is_filled context.granted_scopes s in
    let required_iff = λ (s : String). contains-filter is_filled context.required_scopes s in
    let missing_iff =
      λ (s : String). contains-filter lacks (filter is_filled context.required_scopes) s in
    (
      λ passes scope listed filled. ground (
        arith,
        listed,
        filled,
        missing_iff scope,
        required_iff scope,
        granted_iff scope,
        empty-contains missing scope passes,
        eq_iff (strip scope) "",
      ),
      λ h. elim (Bool-cases (is_empty missing)) [
        | inl e ↦ e
        | inr e ↦
            let s = first_of missing in
            absurd (
              ground (
                arith,
                h s,
                missing_iff s,
                required_iff s,
                granted_iff s,
                contains-first_of missing e,
                eq_iff (strip s) "",
              ))
      ],
    )

confirmed_iff :
    (request : PolicyRequest)
    → (is_unconfirmed request ≡ false) ↔ (
        request.action ≡ "tool.invoke"
        → request.context.confirmation_required ≡ true
        → request.context.confirmation_authority ≢ "handler"
        → IsGranted request)
unfolding is_unconfirmed confirmation_grant_matches
confirmed_iff request =
    let context = request.context in
    let grant = context.confirmation_grant in
    let tests = eq_iff request.action "tool.invoke" in
    let authority = eq_iff context.confirmation_authority "handler" in
    (
      λ passes invokes required user. record {
        confirmed = ground (arith, passes, invokes, required, user, tests, authority);
        of_run = ground (
          arith,
          passes,
          invokes,
          required,
          user,
          tests,
          authority,
          eq_iff grant.run_id request.run_id,
        );
        of_call = ground (
          arith,
          passes,
          invokes,
          required,
          user,
          tests,
          authority,
          eq_iff grant.tool_call_id context.tool_call_id,
        );
        of_tool = ground (
          arith,
          passes,
          invokes,
          required,
          user,
          tests,
          authority,
          eq_iff grant.tool_name request.resource_id,
        );
      },
      λ h.
          elim (Bool-cases (
            request.action == "tool.invoke"
            && context.confirmation_required
            && not (context.confirmation_authority == "handler"))) [
              | inl e ↦
                  let g =
                    h (ground (arith, e, tests)) (ground (arith, e))
                      (ground (arith, e, authority)) in
                  ground (
                    arith,
                    g.confirmed,
                    g.of_run,
                    g.of_call,
                    g.of_tool,
                    eq_iff grant.run_id request.run_id,
                    eq_iff grant.tool_call_id context.tool_call_id,
                    eq_iff grant.tool_name request.resource_id,
                  )
              | inr e ↦ ground (arith, e)
            ],
    )

-- The default engine allows a request exactly when the resource's usage policy does not disable it; a tool
-- call is in the allowlist of the active skill, if the skill has one, or is a discovery tool; the tenant is
-- one of the allowed ones, if there are any; every required scope is granted; and a tool call that needs
-- the user's confirmation, not the handler's, has one for this run, call and tool.
pub evaluate_default-Permits :
    (request : PolicyRequest) → ((evaluate_default request).allowed ≡ true) ↔ Permits request
evaluate_default-Permits request =
    let allowed = allowed_iff request in
    let enabled = is_disabled_iff request.context.enabled in
    let skill = allowlist_iff request in
    let tenant = own_tenant_iff request in
    let scopes = in_scopes_iff request.context in
    let confirmed = confirmed_iff request in
    (
      λ h.
          let tests = allowed.0 h in
          record {
            enabled = ground (arith, tests, enabled);
            in_skill = skill.0 (ground (arith, tests));
            own_tenant = tenant.0 (ground (arith, tests));
            in_scopes = scopes.0 (ground (arith, tests));
            granted = confirmed.0 (ground (arith, tests));
          },
      λ p. allowed.1 (
          ground (
            arith,
            enabled,
            p.enabled,
            skill.1 p.in_skill,
            tenant.1 p.own_tenant,
            scopes.1 p.in_scopes,
            confirmed.1 p.granted,
          )),
    )

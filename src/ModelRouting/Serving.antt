-- ===== src/ModelRouting/Serving.antt =====
-- The role that takes a step can serve it, and one is found where there is one.
use deepkeel.Base.{
  ℕ, ◌≤◌, ◌↔◌, String, ◌≡◌, ◌≢◌, refl, sym, ap, ◌∙◌, inl, inr, Bool, true, false, Bool-cases, not,
  ◌&&◌, Option, none, some, ok, List, [], ◌∷◌, filter, contains, contains-filter, arith, ◌==◌,
  string_eq, eq_iff,
}
use deepkeel.Base.Int.{ℤ, pos, ◌≤ℤ◌}
use deepkeel.Base.Text.{or_else}
use deepkeel.ModelRouting.{
  ModelStepContext, ModelRouteDecision, ProviderProfile, routing_mode, profile_of, is_eligible,
  is_named, eligible_roles, distinct, available_role, decision, route_adaptive, route_eligible,
  route_available, route, exceeds, is_false, is_true,
}

-- what a step asks of the profile of the role that takes it
pub record CanServe (context : ModelStepContext) (profile : ProviderProfile) : Type 0 where
  pub healthy : profile.is_available ≢ some false
  pub has_tools : context.requires_native_tools ≡ true → profile.supports_native_tools ≢ some false
  pub has_images : context.requires_image_input ≡ true → profile.supports_image_input ≡ some true
  pub fits :
      (limit : ℕ)
      → profile.context_window_tokens ≡ some (pos limit)
      → 1 ≤ limit
      → context.estimated_input_tokens ≤ℤ pos limit

is_false_iff : (o : Option Bool) → (is_false o ≡ true) ↔ (o ≡ some false)
is_false_iff none = ground arith
is_false_iff (some b) = ground arith

is_true_iff : (o : Option Bool) → (is_true o ≡ true) ↔ (o ≡ some true)
is_true_iff none = ground arith
is_true_iff (some b) = ground arith

fits-of_exceeds :
    (tokens : ℤ) (o : Option ℤ)
    → exceeds tokens o ≡ false
    → (limit : ℕ) → o ≡ some (pos limit)
    → 1 ≤ limit
    → tokens ≤ℤ pos limit
fits-of_exceeds tokens none h limit e positive = absurd (cc e)
fits-of_exceeds tokens (some n) h limit e positive = ground (arith, h, e, positive)

exceeds-of_fits :
    (tokens : ℤ) (o : Option ℤ)
    → ((limit : ℕ) → o ≡ some (pos limit) → 1 ≤ limit → tokens ≤ℤ pos limit)
    → exceeds tokens o ≡ false
exceeds-of_fits tokens none h = refl
exceeds-of_fits tokens (some (pos n)) h = ground (arith, h n refl)
exceeds-of_fits tokens (some n) h = ground arith

pub is_eligible-CanServe :
    (context : ModelStepContext) (profile : ProviderProfile)
    → is_eligible context profile ≡ true
    → CanServe context profile
is_eligible-CanServe context profile h =
    let a = is_false_iff profile.is_available in
    let b = is_false_iff profile.supports_native_tools in
    let c = is_true_iff profile.supports_image_input in
    record {
      healthy = ground (arith, h, a);
      has_tools = ground (arith, h, b);
      has_images = ground (arith, h, c);
      fits =
          fits-of_exceeds context.estimated_input_tokens profile.context_window_tokens
            (ground (arith, h));
    }

pub CanServe-is_eligible :
    (context : ModelStepContext) (profile : ProviderProfile)
    → CanServe context profile
    → is_eligible context profile ≡ true
CanServe-is_eligible context profile h =
    let a = is_false_iff profile.is_available in
    let b = is_false_iff profile.supports_native_tools in
    let c = is_true_iff profile.supports_image_input in
    ground (
      arith,
      a,
      b,
      c,
      h.healthy,
      h.has_tools,
      h.has_images,
      exceeds-of_fits context.estimated_input_tokens profile.context_window_tokens h.fits,
    )

contains-distinct :
    (roles : List String) (role : String) → contains (distinct roles) role ≡ contains roles role
unfolding distinct
contains-distinct [] role = refl
contains-distinct (first ∷ rest) role = ground (
  arith,
  eq_iff first role,
  eq_iff role first,
  contains-distinct rest role,
  contains-filter (λ (other : String). not (other == first)) (distinct rest) role,
)

available_role-contains :
    (preferred first : String) (rest : List String)
    → contains (first ∷ rest) (available_role preferred first rest) ≡ true
unfolding available_role
available_role-contains preferred first rest = ground (arith, eq_iff first first)

decision-role :
    (role reason : String) (context : ModelStepContext) → (decision role reason context).role ≡ role
unfolding decision
decision-role role reason context = refl

-- the role of `route_adaptive` is the fast one, where that is eligible, or the one for reasoning
route_adaptive-contains :
    (context : ModelStepContext) (first : String) (rest : List String)
    → contains (first ∷ rest) (route_adaptive context first rest).role ≡ true
unfolding route_adaptive decision
route_adaptive-contains context first rest =
    ground (arith, available_role-contains "reasoning" first rest)

route_eligible-contains :
    (context : ModelStepContext) (roles : List String) {d : ModelRouteDecision}
    → route_eligible context roles ≡ ok d
    → contains roles d.role ≡ true
route_eligible-contains context [] e = absurd (cc e)
route_eligible-contains context (first ∷ rest) {d} e =
    let single = available_role (or_else context.primary_role "reasoning") first rest in
    elim (Bool-cases (routing_mode context == "adaptive")) [
      | inl m ↦
          let same : route_adaptive context first rest ≡ d = ground (arith, m, e) in
          rw (sym same) (route_adaptive-contains context first rest)
      | inr m ↦
          let same : decision single "single model policy" context ≡ d = ground (arith, m, e) in
          rw (sym same) (
            ap (λ (role : String). contains (first ∷ rest) role)
              (decision-role single "single model policy" context)
            ∙ available_role-contains (or_else context.primary_role "reasoning") first rest)
    ]

route_available-contains :
    (context : ModelStepContext) (roles : List String) {d : ModelRouteDecision}
    → route_available context roles ≡ ok d
    → contains (eligible_roles context roles) d.role ≡ true
route_available-contains context [] e = absurd (cc e)
route_available-contains context (first ∷ rest) e =
    route_eligible-contains context (eligible_roles context (first ∷ rest)) e

-- a role is eligible when it is available and can serve
pub contains-eligible_roles :
    (context : ModelStepContext) (role : String)
    → contains (eligible_roles context (distinct (filter is_named context.available_roles))) role
      ≡ (is_eligible context (profile_of context role)
          && (is_named role && contains context.available_roles role))
unfolding eligible_roles
contains-eligible_roles context role =
    contains-filter (λ (r : String). is_eligible context (profile_of context r))
      (distinct (filter is_named context.available_roles)) role
    ∙ ap (λ (b : Bool). is_eligible context (profile_of context role) && b)
        (contains-distinct (filter is_named context.available_roles) role
          ∙ contains-filter is_named context.available_roles role)

-- The role that a decision names is one of the step's available roles, is not empty, and its profile serves
-- the step: it is not unhealthy, it does not lack native tools where the step needs them, it takes images
-- where the step has them, and the estimated tokens fit its context window where that is given.
pub route_serves :
    (context : ModelStepContext) (d : ModelRouteDecision)
    → route context ≡ ok d
    → (contains context.available_roles d.role ≡ true)
      × (d.role ≢ "")
      × CanServe context (profile_of context d.role)
unfolding route
route_serves context d e =
    let found =
      route_available-contains context (distinct (filter is_named context.available_roles)) e in
    let facts = sym (contains-eligible_roles context d.role) ∙ found in
    (
      ground (arith, facts),
      ground (arith, facts, eq_iff d.role ""),
      is_eligible-CanServe context (profile_of context d.role) (ground (arith, facts)),
    )

route_eligible_total :
    (context : ModelStepContext) (roles : List String) (role : String)
    → contains roles role ≡ true
    → (d : ModelRouteDecision) × (route_eligible context roles ≡ ok d)
route_eligible_total context [] role h = absurd (cc h)
route_eligible_total context (first ∷ rest) role h = (_, refl)

route_available_total :
    (context : ModelStepContext) (roles : List String) (role : String)
    → contains (eligible_roles context roles) role ≡ true
    → (d : ModelRouteDecision) × (route_available context roles ≡ ok d)
unfolding eligible_roles
route_available_total context [] role h = absurd (cc h)
route_available_total context (first ∷ rest) role h =
    route_eligible_total context (eligible_roles context (first ∷ rest)) role h

-- Where an available role, which is not empty, has a profile that serves the step, the router decides.
pub route_decides :
    (context : ModelStepContext) (role : String)
    → contains context.available_roles role ≡ true
    → role ≢ ""
    → CanServe context (profile_of context role)
    → (d : ModelRouteDecision) × (route context ≡ ok d)
unfolding route
route_decides context role available named serves =
    let eligible = CanServe-is_eligible context (profile_of context role) serves in
    route_available_total context (distinct (filter is_named context.available_roles)) role (
      contains-eligible_roles context role
      ∙ ground (arith, eligible, available, named, eq_iff role ""))

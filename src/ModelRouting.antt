-- ===== src/ModelRouting.antt =====
-- src/deepkeel/model_routing.py: which model role takes a step.
-- Of the provider profiles, the policy and the skill the router reads single fields; where the source
-- looks a key up in a dictionary, the field here is an Option, or a text that is empty where the key is
-- missing. The counts are ℕ. The budget usage that a decision's metadata repeats is not in the model.
pub mod Serving
pub mod LightSteps
mod Examples
use deepkeel.Base.{
  ℕ, String, Bool, true, false, not, ◌&&◌, ◌||◌, Option, none, some, Result, ok, err, if◌then◌else◌,
  List, [], ◌∷◌, ◌++◌, length, filter, all, contains, ◌==◌, string_eq, nat_eq, ltb,
}
use deepkeel.Base.Int.{ℤ, pos, ltb_ℤ}
use deepkeel.Base.Dict.{Dict, get}
use deepkeel.Base.Text.{strip, lower, or_else}

pub data RouteError : Type 0 where
  no_roles : RouteError
  no_eligible_model : RouteError

-- the `health` and the `capabilities` of a provider's profile
pub record ProviderProfile : Type 0 where
  pub is_available : Option Bool
  pub supports_native_tools : Option Bool
  pub supports_image_input : Option Bool
  pub context_window_tokens : Option ℤ

pub record ModelStepContext : Type 0 where
  pub step_index : ℕ
  pub observation_count : ℕ
  pub tool_result_count : ℕ
  pub available_roles : List String
  pub observation_sources : List String
  pub tool_result_names : List String
  -- model_policy["mode"], model_policy["primary_role"]
  pub mode : String
  pub primary_role : String
  -- skill_activation["kind"], skill_activation["skill_id"]
  pub skill_kind : String
  pub skill_id : String
  pub policy_phase : String
  pub estimated_input_tokens : ℤ
  pub requires_native_tools : Bool
  pub requires_image_input : Bool
  pub provider_profiles : Dict String ProviderProfile

-- the metadata of a ModelRouteDecision
pub record RouteMetadata : Type 0 where
  pub step_index : ℕ
  pub observation_count : ℕ
  pub tool_result_count : ℕ
  pub observation_sources : List String
  pub tool_result_names : List String
  pub policy_phase : String
  pub skill_id : String
  pub estimated_input_tokens : ℤ
  pub eligible_roles : List String
  pub provider_profile : ProviderProfile

pub record ModelRouteDecision : Type 0 where
  pub role : String
  pub reason : String
  pub router_id : String
  pub metadata : RouteMetadata

abbrev pub empty_profile : ProviderProfile
empty_profile = record {
  is_available = none;
  supports_native_tools = none;
  supports_image_input = none;
  context_window_tokens = none;
}

abbrev pub or_empty : Option ProviderProfile → ProviderProfile
or_empty none = empty_profile
or_empty (some profile) = profile

-- context.provider_profiles.get(role) or {}
abbrev pub profile_of : ModelStepContext → String → ProviderProfile
profile_of context role = or_empty (get context.provider_profiles role)

-- `value is False`, `value is True`
abbrev pub is_false : Option Bool → Bool
is_false none = false
is_false (some b) = not b

abbrev pub is_true : Option Bool → Bool
is_true none = false
is_true (some b) = b

abbrev pub exceeds : ℤ → Option ℤ → Bool
exceeds tokens none = false
exceeds tokens (some limit) = ltb_ℤ (pos 0) limit && ltb_ℤ limit tokens

-- the tests of the loop of _eligible_roles, none of which may `continue`
abbrev pub is_eligible : ModelStepContext → ProviderProfile → Bool
is_eligible context profile =
    not (is_false profile.is_available)
    && not (context.requires_native_tools && is_false profile.supports_native_tools)
    && not (context.requires_image_input && not (is_true profile.supports_image_input))
    && not (exceeds context.estimated_input_tokens profile.context_window_tokens)

-- _eligible_roles
unfoldable pub eligible_roles : ModelStepContext → List String → List String
eligible_roles context available =
    filter (λ role. is_eligible context (profile_of context role)) available

-- tuple(dict.fromkeys(roles))
unfoldable pub distinct : List String → List String
distinct [] = []
distinct (role ∷ roles) = role ∷ filter (λ other. not (other == role)) (distinct roles)

-- _available_role, of a tuple that is not empty
unfoldable pub available_role : String → String → List String → String
available_role preferred first rest =
    if contains (first ∷ rest) preferred
    then preferred
    else if contains (first ∷ rest) "reasoning"
    then "reasoning"
    else if contains (first ∷ rest) "fast"
    then "fast"
    else first

abbrev pub is_discovery : String → Bool
is_discovery name = name == "runtime.discover_tools" || name == "runtime.discover_skills"

abbrev pub is_named : String → Bool
is_named name = not (name == "")

-- _is_tool_discovery_continuation
unfoldable pub is_tool_discovery_continuation : ModelStepContext → Bool
is_tool_discovery_continuation context =
    let sources = filter is_named context.observation_sources in
    let result_names = filter is_named context.tool_result_names in
    if context.observation_count == 0 && context.tool_result_count == 0
    then false
    else if not (length sources == context.observation_count)
        || not (length result_names == context.tool_result_count)
    then false
    else all is_discovery (sources ++ result_names)

-- _decision
unfoldable pub decision : String → String → ModelStepContext → ModelRouteDecision
decision role reason context = record {
  role = role;
  reason = reason;
  router_id = "adaptive-step-router-v1";
  metadata = record {
    step_index = context.step_index;
    observation_count = context.observation_count;
    tool_result_count = context.tool_result_count;
    observation_sources = context.observation_sources;
    tool_result_names = context.tool_result_names;
    policy_phase = context.policy_phase;
    skill_id = context.skill_id;
    estimated_input_tokens = context.estimated_input_tokens;
    eligible_roles = eligible_roles context context.available_roles;
    provider_profile = profile_of context role;
  };
}

-- the rest of `route` in adaptive mode
unfoldable pub route_adaptive : ModelStepContext → String → List String → ModelRouteDecision
route_adaptive context first rest =
    let has_fast = contains (first ∷ rest) "fast" in
    let reasoning = available_role "reasoning" first rest in
    let is_workflow = context.skill_kind == "workflow" in
    if context.policy_phase == "repair"
    then decision reasoning "workflow contract repair requires reasoning" context
    else if is_tool_discovery_continuation context && has_fast
    then decision "fast" "tool discovery continuation uses fast model" context
    else if is_workflow
        && context.step_index == 0
        && context.observation_count == 0
        && context.tool_result_count == 0
        && has_fast
    then decision "fast" "workflow initial planning uses fast model" context
    else if is_workflow
    then decision reasoning "workflow observations require reasoning" context
    else if ltb 0 context.observation_count || ltb 0 context.tool_result_count
    then decision reasoning "tool observations require synthesis" context
    else if context.step_index == 0 && has_fast
    then decision "fast" "initial lightweight planning step" context
    else decision reasoning "continued reasoning step" context

-- the mode, and the primary role, with their defaults
unfoldable pub routing_mode : ModelStepContext → String
routing_mode context = lower (strip (or_else context.mode "single"))

abbrev pub route_eligible : ModelStepContext → List String → Result RouteError ModelRouteDecision
route_eligible context [] = err no_eligible_model
route_eligible context (first ∷ rest) = ok (
    if routing_mode context == "adaptive"
    then route_adaptive context first rest
    else decision (available_role (or_else context.primary_role "reasoning") first rest)
        "single model policy" context)

abbrev pub route_available : ModelStepContext → List String → Result RouteError ModelRouteDecision
route_available context [] = err no_roles
route_available context (first ∷ rest) =
    route_eligible context (eligible_roles context (first ∷ rest))

-- AdaptiveStepModelRouter.route
unfoldable pub route : ModelStepContext → Result RouteError ModelRouteDecision
route context = route_available context (distinct (filter is_named context.available_roles))

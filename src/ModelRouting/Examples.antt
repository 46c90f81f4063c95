-- ===== src/ModelRouting/Examples.antt =====
-- Tests of the router, and each of its theorems at a concrete input.
use deepkeel.Base.{
  ◌≡◌, ◌≢◌, ◌⊎◌, ◌↔◌, refl, true, false, some, Result, ok, err, [], ◌∷◌, contains, string_eq,
  ne_of_beq,
}
use deepkeel.Base.Int.{pos}
use deepkeel.Base.Dict.{get}
use deepkeel.Base.Text.{strip, lower}
use deepkeel.ModelRouting.{
  RouteError, ModelStepContext, ModelRouteDecision, empty_profile, profile_of, eligible_roles,
  distinct, available_role, decision, route_adaptive, route, routing_mode,
  is_tool_discovery_continuation, no_eligible_model,
}
use deepkeel.ModelRouting.Serving.{CanServe, route_serves, route_decides}
use deepkeel.ModelRouting.LightSteps.{MayBeFast, fast_at_light_steps}

-- `route`, with all that it calls open
routes : ModelStepContext → Result RouteError ModelRouteDecision
unfolding route route_adaptive decision available_role eligible_roles distinct routing_mode
    is_tool_discovery_continuation get strip lower
routes = route

-- the first step of a run; the fast model takes a thousand tokens
abbrev first_step : ModelStepContext
first_step = record {
  step_index = 0;
  observation_count = 0;
  tool_result_count = 0;
  available_roles = "reasoning" ∷ "" ∷ "fast" ∷ "fast" ∷ [];
  observation_sources = [];
  tool_result_names = [];
  mode = " Adaptive ";
  primary_role = "";
  skill_kind = "";
  skill_id = "";
  policy_phase = "";
  estimated_input_tokens = pos 900;
  requires_native_tools = true;
  requires_image_input = false;
  provider_profiles = record {
    entries = ("fast", record empty_profile { context_window_tokens = some (pos 1000) }) ∷ [];
  };
}

abbrev fast_decision : ModelRouteDecision
fast_decision = record {
  role = "fast";
  reason = "initial lightweight planning step";
  router_id = "adaptive-step-router-v1";
  metadata = record {
    step_index = 0;
    observation_count = 0;
    tool_result_count = 0;
    observation_sources = [];
    tool_result_names = [];
    policy_phase = "";
    skill_id = "";
    estimated_input_tokens = pos 900;
    eligible_roles = "reasoning" ∷ "" ∷ "fast" ∷ "fast" ∷ [];
    provider_profile = record empty_profile { context_window_tokens = some (pos 1000) };
  };
}

-- the fast model takes the first step, and no step that is too long for it
first_steps :
    (routes first_step ≡ ok fast_decision)
    × (routes
          (record first_step { available_roles = "fast" ∷ []; estimated_input_tokens = pos 1001 })
        ≡ err no_eligible_model)
unfolding routes
first_steps = (refl, refl)

serves_reasoning : CanServe first_step (profile_of first_step "reasoning")
unfolding get
serves_reasoning = record {
  healthy = λ e. cc e;
  has_tools = λ h e. cc e;
  has_images = λ h. cc h;
  fits = λ limit e positive. absurd (cc e);
}

route_serves_example :
    (contains first_step.available_roles fast_decision.role ≡ true)
    × (fast_decision.role ≢ "")
    × CanServe first_step (profile_of first_step fast_decision.role)
unfolding routes
route_serves_example = route_serves first_step fast_decision refl

route_decides_example : (d : ModelRouteDecision) × (route first_step ≡ ok d)
route_decides_example = route_decides first_step "reasoning" refl (ne_of_beq refl) serves_reasoning

fast_at_light_steps_example :
    ((fast_decision.role ≡ "reasoning") ⊎ (fast_decision.role ≡ "fast"))
    × ((fast_decision.role ≡ "fast") ↔ MayBeFast first_step)
unfolding routes
fast_at_light_steps_example =
    fast_at_light_steps first_step fast_decision refl refl serves_reasoning refl

-- ===== src/ModelRouting/LightSteps.antt =====
-- When the fast model is taken.
use deepkeel.Base.{
  String, ◌≤◌, ◌+◌, ◌↔◌, length, if◌then◌else◌, ne_of_beq, ◌≡◌, ◌≢◌, ◌⊎◌, refl, sym, ◌∙◌, inl, inr,
  Bool, true, false, Bool-cases, not, ◌&&◌, ◌||◌, ok, List, [], ◌∷◌, ◌++◌, filter, all, contains,
  All, arith, ◌==◌, string_eq, nat_eq, eq_iff,
}
use deepkeel.ModelRouting.{
  ModelStepContext, ModelRouteDecision, profile_of, is_named, is_discovery, eligible_roles,
  distinct, available_role, decision, route_adaptive, route_eligible, route_available, route,
  routing_mode, is_tool_discovery_continuation,
}
use deepkeel.ModelRouting.Serving.{
  CanServe, CanServe-is_eligible, is_eligible-CanServe, contains-eligible_roles,
}

abbrev pub IsDiscovery : String → Type 0
IsDiscovery name =
    name ≢ "" → (name ≡ "runtime.discover_tools") ⊎ (name ≡ "runtime.discover_skills")

abbrev pub named : List String → List String
named = filter (λ (name : String). not (name == ""))

-- the first step of a run, or one after nothing but discoveries: some, and each of them named
pub data IsEasy (context : ModelStepContext) : Type 0 where
  initial :
      context.step_index ≡ 0
      → context.observation_count ≡ 0
      → context.tool_result_count ≡ 0
      → IsEasy context
  discovers :
      1 ≤ context.observation_count + context.tool_result_count
      → length (named context.observation_sources) ≡ context.observation_count
      → length (named context.tool_result_names) ≡ context.tool_result_count
      → All IsDiscovery context.observation_sources
      → All IsDiscovery context.tool_result_names
      → IsEasy context

is_discovery-IsDiscovery : (name : String) → is_discovery name ≡ true → IsDiscovery name
is_discovery-IsDiscovery name h named = elim (Bool-cases (name == "runtime.discover_tools")) [
  | inl e ↦ inl (ground (arith, e, eq_iff name "runtime.discover_tools"))
  | inr e ↦ inr (ground (arith, e, h, eq_iff name "runtime.discover_skills"))
]

unnamed-IsDiscovery : (name : String) → is_named name ≡ false → IsDiscovery name
unnamed-IsDiscovery name h named = absurd (ground (arith, h, named, eq_iff name ""))

all_discovered :
    (names others : List String)
    → all is_discovery (filter is_named names ++ others) ≡ true
    → All IsDiscovery names × (all is_discovery others ≡ true)
all_discovered [] others h = (tt, h)
all_discovered (name ∷ names) others h = elim (Bool-cases (is_named name)) [
  | inl e ↦
      let more = all_discovered names others (ground (arith, h, e)) in
      ((is_discovery-IsDiscovery name (ground (arith, h, e)), more.0), more.1)
  | inr e ↦
      let more = all_discovered names others (ground (arith, h, e)) in
      ((unnamed-IsDiscovery name e, more.0), more.1)
]

IsDiscovery-is_discovery :
    (name : String) → IsDiscovery name → is_named name ≡ true → is_discovery name ≡ true
IsDiscovery-is_discovery name h e = elim (h (ground (arith, e, eq_iff name ""))) [
  | inl f ↦ ground (arith, f, eq_iff name "runtime.discover_tools")
  | inr f ↦ ground (arith, f, eq_iff name "runtime.discover_skills")
]

discovered_all :
    (names others : List String)
    → All IsDiscovery names
    → all is_discovery others ≡ true
    → all is_discovery (filter is_named names ++ others) ≡ true
discovered_all [] others h more = more
discovered_all (name ∷ names) others (first, rest) more =
    let found = discovered_all names others rest more in
    elim (Bool-cases (is_named name)) [
      | inl e ↦ let f = IsDiscovery-is_discovery name first e in ground (arith, e, f, found)
      | inr e ↦ ground (arith, e, found)
    ]

filter_named_all :
    (names : List String) → All IsDiscovery names → all is_discovery (filter is_named names) ≡ true
filter_named_all [] h = refl
filter_named_all (name ∷ names) (first, rest) =
    let found = filter_named_all names rest in
    elim (Bool-cases (is_named name)) [
      | inl e ↦ let f = IsDiscovery-is_discovery name first e in ground (arith, e, f, found)
      | inr e ↦ ground (arith, e, found)
    ]

all_named :
    (names : List String) → all is_discovery (filter is_named names) ≡ true → All IsDiscovery names
all_named [] h = tt
all_named (name ∷ names) h = elim (Bool-cases (is_named name)) [
  | inl e ↦
      (is_discovery-IsDiscovery name (ground (arith, h, e)), all_named names (ground (arith, h, e)))
  | inr e ↦ (unnamed-IsDiscovery name e, all_named names (ground (arith, h, e)))
]

abbrev is_initial : ModelStepContext → Bool
is_initial context =
    context.step_index == 0 && context.observation_count == 0 && context.tool_result_count == 0

continuation-IsEasy :
    (context : ModelStepContext) → is_tool_discovery_continuation context ≡ true → IsEasy context
unfolding is_tool_discovery_continuation
continuation-IsEasy context h =
    let names = filter is_named context.tool_result_names in
    let (sources, others) = all_discovered context.observation_sources names (ground (arith, h)) in
    discovers (ground (arith, h)) (ground (arith, h)) (ground (arith, h)) sources
      (all_named context.tool_result_names others)

light_iff :
    (context : ModelStepContext)
    → ((is_tool_discovery_continuation context || is_initial context) ≡ true) ↔ IsEasy context
unfolding is_tool_discovery_continuation
light_iff context = (
  λ h. elim (Bool-cases (is_tool_discovery_continuation context)) [
    | inl e ↦ continuation-IsEasy context e
    | inr e ↦ initial (ground (arith, h, e)) (ground (arith, h, e)) (ground (arith, h, e))
  ],
  λ easy. elim easy [
    | initial first no_observation no_result ↦ ground (arith, first, no_observation, no_result)
    | discovers counted sources names sources_found names_found ↦
        let found =
          discovered_all context.observation_sources (filter is_named context.tool_result_names)
            sources_found (filter_named_all context.tool_result_names names_found) in
        ground (arith, counted, sources, names, found)
  ],
)

reasoning_taken :
    (first : String) (rest : List String)
    → contains (first ∷ rest) "reasoning" ≡ true
    → available_role "reasoning" first rest ≡ "reasoning"
unfolding available_role
reasoning_taken first rest h = rw h refl

abbrev takes_fast : ModelStepContext → List String → Bool
takes_fast context roles =
    contains roles "fast"
    && (not (context.policy_phase == "repair")
        && (is_tool_discovery_continuation context || is_initial context))

-- the role in adaptive mode, where the one for reasoning can be taken
route_adaptive-role :
    (context : ModelStepContext) (first : String) (rest : List String)
    → contains (first ∷ rest) "reasoning" ≡ true
    → (route_adaptive context first rest).role
      ≡ (if takes_fast context (first ∷ rest) then "fast" else "reasoning")
unfolding route_adaptive decision
route_adaptive-role context first rest h = ground (arith, reasoning_taken first rest h)

route_eligible-role :
    (context : ModelStepContext) (roles : List String) {d : ModelRouteDecision}
    → routing_mode context ≡ "adaptive"
    → contains roles "reasoning" ≡ true
    → route_eligible context roles ≡ ok d
    → d.role ≡ (if takes_fast context roles then "fast" else "reasoning")
route_eligible-role context [] mode h e = absurd (cc h)
route_eligible-role context (first ∷ rest) {d} mode h e =
    let same : route_adaptive context first rest ≡ d =
      ground (arith, mode, e, eq_iff (routing_mode context) "adaptive") in
    rw (sym same) (route_adaptive-role context first rest h)

route_available-role :
    (context : ModelStepContext) (roles : List String) {d : ModelRouteDecision}
    → routing_mode context ≡ "adaptive"
    → contains (eligible_roles context roles) "reasoning" ≡ true
    → route_available context roles ≡ ok d
    → d.role ≡ (if takes_fast context (eligible_roles context roles) then "fast" else "reasoning")
route_available-role context [] mode h e = absurd (cc e)
route_available-role context (first ∷ rest) mode h e =
    route_eligible-role context (eligible_roles context (first ∷ rest)) mode h e

-- the fast role is available and serves the step, which is a light one outside the repair phase
pub record MayBeFast (context : ModelStepContext) : Type 0 where
  pub listed : contains context.available_roles "fast" ≡ true
  pub serves : CanServe context (profile_of context "fast")
  pub not_repair : context.policy_phase ≢ "repair"
  pub easy : IsEasy context

takes_fast_iff :
    (context : ModelStepContext)
    → (takes_fast context
          (eligible_roles context (distinct (filter is_named context.available_roles)))
        ≡ true)
      ↔ MayBeFast context
takes_fast_iff context =
    let eligible = contains-eligible_roles context "fast" in
    let easy = light_iff context in
    let repair = eq_iff context.policy_phase "repair" in
    (
      λ h. record {
        listed = ground (arith, h, eligible);
        serves =
            is_eligible-CanServe context (profile_of context "fast") (ground (arith, h, eligible));
        not_repair = ground (arith, h, repair);
        easy = easy.0 (ground (arith, h));
      },
      λ may.
          let serves = CanServe-is_eligible context (profile_of context "fast") may.serves in
          let light = easy.1 may.easy in
          ground (arith, eligible, serves, light, may.listed, may.not_repair, repair),
    )

slow : ◌≢◌ {A = String} "reasoning" "fast"
slow = ne_of_beq refl

-- In adaptive mode, where the reasoning role is available and its profile serves the step, a decision names
-- the reasoning role or the fast one; and the fast one exactly when it is available, its profile serves the
-- step too, the phase is not the repair and the step is light: the first of a run, with no observation and
-- no tool result, or one with some, as many named as are counted and all of the two discovery tools.
pub fast_at_light_steps :
    (context : ModelStepContext) (d : ModelRouteDecision)
    → routing_mode context ≡ "adaptive"
    → contains context.available_roles "reasoning" ≡ true
    → CanServe context (profile_of context "reasoning")
    → route context ≡ ok d
    → ((d.role ≡ "reasoning") ⊎ (d.role ≡ "fast")) × ((d.role ≡ "fast") ↔ MayBeFast context)
unfolding route
fast_at_light_steps context d mode available serves e =
    let roles = distinct (filter is_named context.available_roles) in
    let eligible = CanServe-is_eligible context (profile_of context "reasoning") serves in
    let there = contains-eligible_roles context "reasoning" ∙ ground (arith, eligible, available) in
    let role = route_available-role context roles mode there e in
    let (fast, is_fast) = takes_fast_iff context in
    elim (Bool-cases (takes_fast context (eligible_roles context roles))) [
      | inl t ↦
          let same : d.role ≡ "fast" = role ∙ rw t refl in (inr same, (λ h. fast t, λ may. same))
      | inr t ↦
          let same : d.role ≡ "reasoning" = role ∙ rw t refl in
          (
            inl same,
            (
              λ h. absurd (slow (sym same ∙ h)),
              λ may. let contrary : false ≡ true = sym t ∙ is_fast may in absurd (cc contrary),
            ),
          )
    ]

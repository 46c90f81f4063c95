-- ===== src/Policy/Allowlist.antt =====
-- The allowlist of the active skill, as the default engine reads it.
use deepkeel.Base.{
  is_empty, String, ◌≡◌, ◌≢◌, ◌↔◌, ◌⊎◌, refl, sym, ◌∙◌, inl, inr, Bool, true, false, Bool-cases,
  not, ◌&&◌, ◌||◌, if◌then◌else◌, List, [], ◌∷◌, contains, arith, ◌==◌, string_eq, eq_iff,
  eq_of_beq, beq_ne,
}
use deepkeel.Base.Text.{or_else}
use deepkeel.Policy.{PolicyContext, PolicyRequest, scope_mode, is_outside_skill}

-- a skill's tools are an allowlist when its mode says so, or says nothing and there are some
abbrev pub HasAllowlist : PolicyContext → Type 0
HasAllowlist context =
    (context.tool_scope_mode ≡ "allowlist")
    ⊎ ((context.tool_scope_mode ≡ "") × (context.allowed_tools ≢ []))

pub record IsInSkill (context : PolicyContext) (tool : String) : Type 0 where
  pub listed :
      (contains context.allowed_tools tool ≡ true)
      ⊎ ((context.allowed_tools ≢ [])
          × ((tool ≡ "runtime.discover_tools") ⊎ (tool ≡ "runtime.discover_skills")))

is_empty_iff : (xs : List String) → (is_empty xs ≡ true) ↔ (xs ≡ [])
is_empty_iff [] = ground arith
is_empty_iff (x ∷ xs) = ground arith

or_else_lem : (s d : String) → or_else s d ≡ (if s == "" then d else s)
or_else_lem String.[] d = refl
or_else_lem (String.◌∷◌ c s) d =
    let filled : String.◌∷◌ c s ≢ "" = λ e. cc e in rw (beq_ne filled) refl

abbrev default_mode : List String → String
default_mode tools = if is_empty tools then "inherit" else "allowlist"

default_mode-allowlist : (tools : List String) → default_mode tools ≡ "allowlist" → tools ≢ []
default_mode-allowlist [] e = absurd (cc e)
default_mode-allowlist (x ∷ xs) e = λ f. cc f

default_mode-of_tools : (tools : List String) → tools ≢ [] → default_mode tools ≡ "allowlist"
default_mode-of_tools [] h = absurd (h refl)
default_mode-of_tools (x ∷ xs) h = refl

scope_mode_iff :
    (context : PolicyContext) → (scope_mode context ≡ "allowlist") ↔ HasAllowlist context
unfolding scope_mode
scope_mode_iff context =
    let mode = context.tool_scope_mode in
    let tools = context.allowed_tools in
    let default : String = default_mode tools in
    let reads : or_else mode default ≡ (if mode == "" then default else mode) =
      or_else_lem mode default in
    (
      λ e. elim (Bool-cases (mode == "")) [
        | inl b ↦
            let unset : (if mode == "" then default else mode) ≡ default = rw b refl in
            inr (eq_of_beq b, default_mode-allowlist tools (sym (reads ∙ unset) ∙ e))
        | inr b ↦
            let set : (if mode == "" then default else mode) ≡ mode = rw b refl in
            inl (sym (reads ∙ set) ∙ e)
      ],
      λ has. elim has [
        | inl e ↦
            let set : (if mode == "" then default else mode) ≡ mode = rw e refl in reads ∙ set ∙ e
        | inr (e, some_tools) ↦
            let unset : (if mode == "" then default else mode) ≡ default = rw e refl in
            reads ∙ unset ∙ default_mode-of_tools tools some_tools
      ],
    )

abbrev is_listed : PolicyContext → String → Bool
is_listed context tool =
    contains context.allowed_tools tool
    || ((tool == "runtime.discover_tools" || tool == "runtime.discover_skills")
        && not (is_empty context.allowed_tools))

is_listed-IsInSkill :
    (context : PolicyContext) (tool : String)
    → is_listed context tool ≡ true
    → IsInSkill context tool
is_listed-IsInSkill context tool h =
    let is_none = is_empty_iff context.allowed_tools in
    record {
      listed = elim (Bool-cases (contains context.allowed_tools tool)) [
        | inl e ↦ inl e
        | inr e ↦ inr (
          ground (arith, e, h, is_none),
          elim (Bool-cases (tool == "runtime.discover_tools")) [
            | inl f ↦ inl (ground (arith, f, eq_iff tool "runtime.discover_tools"))
            | inr f ↦ inr (ground (arith, e, f, h, eq_iff tool "runtime.discover_skills"))
          ],
        )
      ];
    }

IsInSkill-is_listed :
    (context : PolicyContext) (tool : String)
    → IsInSkill context tool
    → is_listed context tool ≡ true
IsInSkill-is_listed context tool h = ground (
  arith,
  h.listed,
  is_empty_iff context.allowed_tools,
  eq_iff tool "runtime.discover_tools",
  eq_iff tool "runtime.discover_skills",
)

pub allowlist_iff :
    (request : PolicyRequest)
    → (is_outside_skill request ≡ false) ↔ (
        request.action ≡ "tool.invoke"
        → request.context.skill_id ≢ ""
        → HasAllowlist request.context
        → IsInSkill request.context request.resource_id)
unfolding is_outside_skill
allowlist_iff request =
    let context = request.context in
    let tool = request.resource_id in
    let mode = scope_mode_iff context in
    (
      λ passes invokes active has. is_listed-IsInSkill context tool (
          let allowlist = mode.1 has in
          ground (
            arith,
            passes,
            invokes,
            active,
            allowlist,
            eq_iff request.action "tool.invoke",
            eq_iff context.skill_id "",
            eq_iff (scope_mode context) "allowlist",
          )),
      λ h. elim (Bool-cases (is_listed context tool)) [
        | inl e ↦ ground (arith, e)
        | inr e ↦
            elim (Bool-cases (
              request.action == "tool.invoke"
              && not (context.skill_id == "")
              && scope_mode context == "allowlist")) [
                | inl f ↦
                    let found =
                      h (ground (arith, f, eq_iff request.action "tool.invoke"))
                        (ground (arith, f, eq_iff context.skill_id ""))
                        (mode.0 (ground (arith, f, eq_iff (scope_mode context) "allowlist"))) in
                    absurd (ground (arith, e, IsInSkill-is_listed context tool found))
                | inr f ↦ ground (arith, f)
              ]
      ],
    )

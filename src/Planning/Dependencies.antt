-- ===== src/Planning/Dependencies.antt =====
-- validator.py, `_validate_dependencies`: the dependencies of a plan's steps are steps of it, and have
-- no cycle. The `while` loop runs on fuel; `check_unfinished` would be its running out.
pub mod Counts
pub mod Tables
pub mod Loop
pub mod Correct
use deepkeel.Base.{
  ℕ, zero, suc, String, Bool, true, not, Option, none, some, Result, ok, err, ◌>>=◌, ◌>>◌, raise_if,
  List, [], ◌∷◌, ◌++◌, map, any, contains, filter, length, if◌then◌else◌, ◌==◌, string_eq, nat_eq,
}
use deepkeel.Base.Int.{ℤ, pos, ◌-ℤ◌, int_eq}
use deepkeel.Base.Sorting.{sorted_set}
use deepkeel.Base.Dict.{Dict, empty, get, put}
use deepkeel.Planning.Contracts.{PlanStep, ExecutionPlan}
use deepkeel.Planning.Validator.{
  PlanValidationError, unknown_dependencies, dependency_cycle, check_unfinished,
}

abbrev pub or_nil : Option (List String) → List String
or_nil none = []
or_nil (some ids) = ids

abbrev pub or_zero : Option ℤ → ℤ
or_zero none = pos 0
or_zero (some n) = n

-- children[dependency].append(child)
unfoldable pub append_child :
    String → String → Dict String (List String) → Dict String (List String)
append_child child dependency children =
    put children dependency (or_nil (get children dependency) ++ child ∷ [])

-- the inner loop over the dependencies of a step
unfoldable pub append_to_all :
    String → List String → Dict String (List String) → Dict String (List String)
unfolding append_child
append_to_all child [] children = children
append_to_all child (dependency ∷ rest) children =
    append_to_all child rest (append_child child dependency children)

-- [key for key, degree in indegree.items() if degree == 0]
unfoldable pub zero_keys : List (String × ℤ) → List String
zero_keys [] = []
zero_keys ((key, degree) ∷ rest) =
    let others = zero_keys rest in if degree == pos 0 then key ∷ others else others

-- what the `while` loop changes, besides the number of visited steps
pub record Frontier : Type 0 where
  pub indegree : Dict String ℤ
  pub ready : List String

-- one child of a visited step
unfoldable pub release : String → Frontier → Frontier
release child s =
    let degree = or_zero (get s.indegree child) -ℤ pos 1 in
    record {
      indegree = put s.indegree child degree;
      ready = if degree == pos 0 then s.ready ++ child ∷ [] else s.ready;
    }

unfoldable pub release_all : List String → Frontier → Frontier
unfolding release
release_all [] s = s
release_all (child ∷ rest) s = release_all rest (release child s)

-- while ready: …; the result is `visited`
unfoldable pub visit_ready :
    ℕ → Dict String (List String) → Dict String ℤ → List String → ℕ → Option ℕ
unfolding release_all
visit_ready fuel children indegree [] visited = some visited
visit_ready zero children indegree (step_id ∷ ready) visited = none
visit_ready (suc fuel) children indegree (step_id ∷ ready) visited =
    let s =
      release_all (or_nil (get children step_id)) (record { indegree = indegree; ready = ready }) in
    visit_ready fuel children s.indegree s.ready (suc visited)

abbrev pub cycle_unless_all : Option ℕ → ℕ → Result PlanValidationError (Unit {0})
cycle_unless_all none total = err check_unfinished
cycle_unless_all (some visited) total = raise_if (not (visited == total)) dependency_cycle

module _ {Object : Type 0} where
  abbrev pub ids_of : List (PlanStep Object) → List String
  ids_of = map (λ s. s.id)

  -- {step.id: len(step.depends_on) for step in plan.steps}
  unfoldable pub indegrees_from : Dict String ℤ → List (PlanStep Object) → Dict String ℤ
  indegrees_from indegree [] = indegree
  indegrees_from indegree (step ∷ steps) =
      indegrees_from (put indegree step.id (pos (length step.depends_on))) steps

  -- {step.id: [] for step in plan.steps}
  unfoldable pub no_children :
      Dict String (List String) → List (PlanStep Object) → Dict String (List String)
  no_children children [] = children
  no_children children (step ∷ steps) = no_children (put children step.id []) steps

  unfoldable pub children_from :
      Dict String (List String) → List (PlanStep Object) → Dict String (List String)
  unfolding append_to_all
  children_from children [] = children
  children_from children (step ∷ steps) =
      children_from (append_to_all step.id step.depends_on children) steps

  abbrev pub is_unknown : List String → PlanStep Object → Bool
  is_unknown ids step = any (λ d. not (contains ids d)) step.depends_on

  -- sorted({dependency for ... if dependency not in step_ids})
  unfoldable pub unknown_of : List String → List (PlanStep Object) → List String
  unknown_of ids [] = []
  unknown_of ids (step ∷ steps) =
      filter (λ d. not (contains ids d)) step.depends_on ++ unknown_of ids steps

  -- _validate_dependencies
  unfoldable pub validate_dependencies :
      ExecutionPlan Object → Result PlanValidationError (Unit {0})
  unfolding indegrees_from no_children children_from zero_keys visit_ready
  validate_dependencies plan =
      let step_ids = ids_of plan.steps in
      let indegree = indegrees_from empty plan.steps in
      let children = children_from (no_children empty plan.steps) plan.steps in
      let ready = zero_keys indegree.entries in
      do
        raise_if (any (is_unknown step_ids) plan.steps)
            (unknown_dependencies (sorted_set (unknown_of step_ids plan.steps)))
        cycle_unless_all (visit_ready (length plan.steps) children indegree ready 0)
            (length plan.steps)

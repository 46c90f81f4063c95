-- ===== src/Planning/Dependencies/Correct.antt =====
-- The check accepts exactly the plans without unknown dependencies and without cycles.
use deepkeel.Base.{
  ℕ, zero, suc, ◌≤◌, ◌<◌, String, ◌≡◌, ◌≢◌, ◌↔◌, refl, ap, subst, true, false, not, Bool-cases, inl,
  inr, Option, some, ok, err, List, [], ◌∷◌, length, contains, any, All, All-imp, All-both,
  if◌then◌else◌, ◌==◌, string_eq, nat_eq, eq_iff, arith, eq_of_beq, beq_refl,
}
use deepkeel.Base.Int.{ℤ, int_eq}
use deepkeel.Base.Dict.{Dict, empty}
use deepkeel.Planning.Contracts.{PlanStep, ExecutionPlan}
use deepkeel.Base.Sorting.{sorted_set}
use deepkeel.Planning.Dependencies.{unknown_of}
use deepkeel.Planning.Validator.{dependency_cycle, unknown_dependencies, check_unfinished}
use deepkeel.Planning.Dependencies.{
  ids_of, indegrees_from, no_children, children_from, zero_keys, visit_ready, is_unknown,
  validate_dependencies,
}
use deepkeel.Planning.Dependencies.Counts.{occ, waits, waits_none, contains-occ}
use deepkeel.Planning.Dependencies.Tables.{
  known, deps_of, are_unique, children_lem, get-indegrees_from, first_ready,
}
use deepkeel.Planning.Dependencies.Loop.{IsFrontier, IsOrderedVisit, remaining, visit_ready_lem}

module _ {Object : Type 0} where
  -- `rank` puts each dependency of a step below it: the dependencies have no cycle.
  abbrev pub IsRanked : List (PlanStep Object) → (String → ℕ) → Type 0
  IsRanked steps rank = All (λ s. All (λ d. rank d < rank s.id) s.depends_on) steps

  -- every dependency is a step of the plan
  abbrev pub IsClosedPlan : List (PlanStep Object) → Type 0
  IsClosedPlan steps = All (λ s. All (λ d. known steps d ≡ true) s.depends_on) steps

  deps_of-own :
      (all : List (PlanStep Object)) (P : String → String → Type 0)
      → are_unique all ≡ true
      → All (λ s. All (P s.id) s.depends_on) all
      → (a : String) → All (P a) (deps_of all a)
  unfolding deps_of are_unique
  deps_of-own [] P u h a = tt
  deps_of-own (s ∷ steps) P u h a = elim (Bool-cases (s.id == a)) [
    | inl e ↦ rw e (subst (λ (b : String). All (P b) s.depends_on) (eq_of_beq e) h.0)
    | inr e ↦ rw e (deps_of-own steps P (ground (arith, u)) h.1 a)
  ]

  own-deps_of :
      (all : List (PlanStep Object)) (P : String → String → Type 0)
      → are_unique all ≡ true
      → ((a : String) → known all a ≡ true → All (P a) (deps_of all a))
      → All (λ s. All (P s.id) s.depends_on) all
  unfolding deps_of are_unique
  own-deps_of [] P u h = tt
  own-deps_of (s ∷ steps) P u h =
      let here : (s.id == s.id) ≡ true = beq_refl s.id in
      (
        rw here at (h s.id (ground (arith, here))),
        own-deps_of steps P (ground (arith, u)) (λ a k.
            let other : (s.id == a) ≡ false = ground (arith, u, k, eq_iff s.id a) in
            rw other at (h a (ground (arith, k)))),
      )

  any_unknown :
      (all steps : List (PlanStep Object))
      → any (is_unknown (ids_of all)) steps ≡ false
      → All (λ s. All (λ d. known all d ≡ true) s.depends_on) steps
  any_unknown all [] h = tt
  any_unknown all (s ∷ steps) h =
      (deps_known s.depends_on (ground (arith, h)), any_unknown all steps (ground (arith, h)))
    where
      deps_known :
          (ds : List String)
          → any (λ d. not (known all d)) ds ≡ false
          → All (λ d. known all d ≡ true) ds
      deps_known [] h = tt
      deps_known (d ∷ ds) h = (ground (arith, h), deps_known ds (ground (arith, h)))

  none_unknown :
      (all steps : List (PlanStep Object))
      → All (λ s. All (λ d. known all d ≡ true) s.depends_on) steps
      → any (is_unknown (ids_of all)) steps ≡ false
  none_unknown all [] h = refl
  none_unknown all (s ∷ steps) h =
      ground (arith, deps_fine s.depends_on h.0, none_unknown all steps h.1)
    where
      deps_fine :
          (ds : List String)
          → All (λ d. known all d ≡ true) ds
          → any (λ d. not (known all d)) ds ≡ false
      deps_fine [] h = refl
      deps_fine (d ∷ ds) h = ground (arith, h.0, deps_fine ds h.1)

  start-IsFrontier :
      (steps : List (PlanStep Object))
      → are_unique steps ≡ true
      → IsFrontier steps []
          (indegrees_from empty steps)
          (zero_keys (indegrees_from empty steps).entries)
  unfolding occ
  start-IsFrontier steps u = record {
    degrees = λ a k.
        rw (waits_none (deps_of steps a)) (ground (arith, k, get-indegrees_from steps empty a u));
    once = λ a. rw (waits_none (deps_of steps a)) (omega (arith, first_ready steps a u));
    ordered = tt;
  }

-- the number of a step in the order of the visits
unfoldable position : List String → String → ℕ
position [] a = 0
position (x ∷ visited) a =
    let earlier = position visited a in if x == a then suc (length visited) else earlier

position-le : (visited : List String) (a : String) → position visited a ≤ length visited
unfolding position
position-le [] a = omega arith
position-le (x ∷ visited) a = ground (arith, position-le visited a)

waits_of_All :
    (visited ds : List String) → All (λ d. contains visited d ≡ true) ds → waits visited ds ≡ 0
unfolding waits
waits_of_All visited [] h = refl
waits_of_All visited (d ∷ ds) h = ground (arith, h.0, waits_of_All visited ds h.1)

module _ {Object : Type 0} where
  remaining_none : (rest : List (PlanStep Object)) → remaining rest [] ≡ length rest
  unfolding remaining
  remaining_none [] = refl
  remaining_none (s ∷ rest) = ap suc (remaining_none rest)

  no_remaining :
      (rest : List (PlanStep Object)) (visited : List String)
      → ((a : String) → known rest a ≡ true → contains visited a ≡ true)
      → remaining rest visited ≡ 0
  unfolding remaining
  no_remaining [] visited h = refl
  no_remaining (s ∷ rest) visited h =
      ground (
        arith,
        h s.id,
        eq_iff s.id s.id,
        no_remaining rest visited (λ a k. h a (ground (arith, k))),
      )

  remaining_zero :
      (rest : List (PlanStep Object)) (visited : List String)
      → remaining rest visited ≡ 0
      → (a : String) → known rest a ≡ true
      → contains visited a ≡ true
  unfolding remaining
  remaining_zero [] visited h a k = absurd (ground (arith, k))
  remaining_zero (s ∷ rest) visited h a k = elim (Bool-cases (s.id == a)) [
    | inl e ↦
        let same : contains visited s.id ≡ contains visited a =
          ap (contains visited) (eq_of_beq e) in
        ground (arith, h, same)
    | inr e ↦ remaining_zero rest visited (ground (arith, h)) a (ground (arith, k, e))
  ]

module _ {Object : Type 0} (steps : List (PlanStep Object)) where
  earlier_position :
      (visited : List String) (x d : String)
      → contains visited x ≡ false
      → contains visited d ≡ true
      → position (x ∷ visited) d ≡ position visited d
  unfolding position
  earlier_position visited x d new old = elim (Bool-cases (x == d)) [
    | inl e ↦
        let same : contains visited x ≡ contains visited d = ap (contains visited) (eq_of_beq e) in
        absurd (ground (arith, new, old, same))
    | inr e ↦ rw e refl
  ]

  -- in the order of the visits the dependencies of a visited step come before it
  positions-lt :
      (visited : List String)
      → ((a : String) → occ a visited ≤ 1)
      → IsOrderedVisit steps visited
      → (a : String) → contains visited a ≡ true
      → All
          (λ d. (contains visited d ≡ true) × (position visited d < position visited a))
          (deps_of steps a)
  unfolding position occ
  positions-lt [] once order a h = absurd (ground (arith, h))
  positions-lt (x ∷ visited) once (below, order) a h =
      let new : contains visited x ≡ false =
        ground (arith, once x, eq_iff x x, contains-occ x visited) in
      elim (Bool-cases (x == a)) [
        | inl e ↦ rw e (
            subst
              (λ (b : String).
                All
                  (λ d.
                    (contains (x ∷ visited) d ≡ true)
                    × (position (x ∷ visited) d < suc (length visited)))
                  (deps_of steps b))
              (eq_of_beq e)
              (All-imp (deps_of steps x)
                (λ d old. (
                  ground (arith, old),
                  omega (arith, earlier_position visited x d new old, position-le visited d),
                ))
                below))
        | inr e ↦ rw e (
            All-imp (deps_of steps a)
              (λ d (old, less).
                (ground (arith, old), omega (arith, earlier_position visited x d new old, less)))
              (positions-lt visited (λ b. ground (arith, once b)) order a (ground (arith, h, e))))
      ]

  module _ (unique : are_unique steps ≡ true) (visited : List String) (left : Dict String ℤ)
      (done : IsFrontier steps visited left []) where
    -- with all steps visited, the order of the visits ranks them
    IsRanked-by_visits : remaining steps visited ≡ 0 → IsRanked steps (position visited)
    unfolding occ
    IsRanked-by_visits none_left =
        own-deps_of steps (λ a d. position visited d < position visited a) unique
          (λ a k.
            All-imp (deps_of steps a) (λ d h. h.1)
              (positions-lt visited (λ b. ground (arith, done.once b)) done.ordered a
                (remaining_zero steps visited none_left a k)))

    -- with the steps ranked, each one is visited
    visited_by_rank :
        (rank : String → ℕ)
        → IsRanked steps rank
        → IsClosedPlan steps
        → (n : ℕ) (a : String) → known steps a ≡ true
        → rank a < n
        → contains visited a ≡ true
    unfolding occ
    visited_by_rank rank ranked closed zero a k h = absurd (omega (arith, h))
    visited_by_rank rank ranked closed (suc n) a k h =
        let lower : All (λ d. rank d < rank a) (deps_of steps a) =
          deps_of-own steps (λ b d. rank d < rank b) unique ranked a in
        let theirs : All (λ d. known steps d ≡ true) (deps_of steps a) =
          deps_of-own steps (λ b d. known steps d ≡ true) unique closed a in
        let free : waits visited (deps_of steps a) ≡ 0 = waits_of_All visited (deps_of steps a) (
          All-both (deps_of steps a)
            (λ d l own. visited_by_rank rank ranked closed n d own (omega (arith, l, h))) lower
            theirs) in
        ground (arith, done.once a, free, k, contains-occ a visited)

module _ {Object : Type 0} (plan : ExecutionPlan Object)
    (unique : are_unique plan.steps ≡ true) where
  abbrev visits : Option ℕ
  visits =
      visit_ready (length plan.steps) (children_from (no_children empty plan.steps) plan.steps)
        (indegrees_from empty plan.steps) (zero_keys (indegrees_from empty plan.steps).entries) 0

  -- the loop of the check ends, and what it returns is the number of all steps if and only if the
  -- dependencies can be ranked
  loop_decides :
      (n : ℕ) × (visits ≡ some n)
      × (n ≡ length plan.steps → (rank : String → ℕ) × IsRanked plan.steps rank)
      × ((rank : String → ℕ)
          → IsRanked plan.steps rank
          → IsClosedPlan plan.steps
          → n ≡ length plan.steps)
  loop_decides =
      let steps : List (PlanStep Object) = plan.steps in
      let (all, left, ends, sum, done) =
        visit_ready_lem steps unique (children_from (no_children empty steps) steps)
          (children_lem steps) (length steps) [] (indegrees_from empty steps)
          (zero_keys (indegrees_from empty steps).entries) (omega (arith, remaining_none steps))
          (start-IsFrontier steps unique) in
      (
        length all,
        ends,
        λ e. (
          position all,
          IsRanked-by_visits steps unique all left done
              (omega (arith, sum, e, remaining_none steps)),
        ),
        λ rank ranked closed.
            let none_left : remaining steps all ≡ 0 = no_remaining steps all (λ a k.
              visited_by_rank steps unique all left done rank ranked closed (suc (rank a)) a k
                (omega arith)) in
            omega (arith, sum, none_left, remaining_none steps),
      )

  outcome :
      (n : ℕ)
      → visits ≡ some n
      → validate_dependencies plan ≡ (
          if any (is_unknown (ids_of plan.steps)) plan.steps
          then err (unknown_dependencies (sorted_set (unknown_of (ids_of plan.steps) plan.steps)))
          else (if n == length plan.steps then ok tt else err dependency_cycle))
  unfolding validate_dependencies
  outcome n ends = rw ends (ground arith)

  -- The dependency check is exact. For a plan with different step ids it always ends, and it accepts
  -- the plan if and only if every dependency is a step of the plan and the dependencies have no cycle:
  -- the steps can be ranked with each above all that it depends on.
  pub validate_dependencies_iff :
      (validate_dependencies plan ≢ err check_unfinished)
      × ((validate_dependencies plan ≡ ok tt)
          ↔ (IsClosedPlan plan.steps × (rank : String → ℕ) × IsRanked plan.steps rank))
  validate_dependencies_iff =
      let steps : List (PlanStep Object) = plan.steps in
      let (n, ends, acyclic, complete) = loop_decides in
      let result = outcome n ends in
      let accepted : validate_dependencies plan ≡ ok tt
          → (any (is_unknown (ids_of steps)) steps ≡ false) × (n ≡ length steps) =
        λ h. ground (arith, result, h) in
      (
        λ h. ground (arith, result, h),
        (
          λ h.
              let (rank, ranked) = acyclic (accepted h).1 in
              (any_unknown steps steps (accepted h).0, rank, ranked),
          λ (closed, rank, ranked).
              let fine : any (is_unknown (ids_of steps)) steps ≡ false =
                none_unknown steps steps closed in
              let all : n ≡ length steps = complete rank ranked closed in
              ground (arith, result, fine, all),
        ),
      )

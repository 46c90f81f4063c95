-- ===== src/Planning/Dependencies/Tables.antt =====
-- What the two tables hold: each step's number of dependencies, and the steps that depend on it.
use deepkeel.Base.{
  String, ◌≡◌, refl, sym, ap, ◌∙◌, Bool, true, false, not, ◌&&◌, Bool-cases, inl, inr, none, some,
  List, [], ◌∷◌, ◌++◌, length, contains, if◌then◌else◌, ◌==◌, string_eq, eq_iff, arith, nat_eq,
  eq_of_beq, append_assoc, append_nil,
}
use deepkeel.Base.Int.{ℤ, pos, int_eq}
use deepkeel.Base.Dict.{Dict, empty, get, put, get-put, get-empty, put-entries}
use deepkeel.Planning.Contracts.{PlanStep}
use deepkeel.Planning.Dependencies.{
  or_nil, append_child, append_to_all, zero_keys, ids_of, indegrees_from, no_children,
  children_from,
}
use deepkeel.Planning.Dependencies.Counts.{occ, occ-append}

-- the same id, as often as another is in a list
unfoldable pub copies : String → String → List String → List String
copies child x [] = []
copies child x (d ∷ ds) = let rest = copies child x ds in if d == x then child ∷ rest else rest

occ-copies :
    (a child x : String) (ds : List String)
    → occ a (copies child x ds) ≡ (if child == a then occ x ds else 0)
unfolding occ copies
occ-copies a child x [] = ground arith
occ-copies a child x (d ∷ ds) = ground (arith, occ-copies a child x ds)

children-appended :
    (child x : String) (ds : List String) (children : Dict String (List String))
    → or_nil (get (append_to_all child ds children) x)
      ≡ or_nil (get children x) ++ copies child x ds
unfolding append_to_all append_child copies
children-appended child x [] children = sym (append_nil (or_nil (get children x)))
children-appended child x (d ∷ ds) children =
    let children' : Dict String (List String) = append_child child d children in
    let here : or_nil (get children' x)
        ≡ (if d == x then or_nil (get children d) ++ child ∷ [] else or_nil (get children x)) =
      rw get-put (elim (Bool-cases (d == x)) [ inl e ↦ rw e refl | inr e ↦ rw e refl ]) in
    children-appended child x ds children' ∙ elim (Bool-cases (d == x)) [
      | inl e ↦
          let same : get children d ≡ get children x = ap (get children) (eq_of_beq e) in
          ground (
            arith,
            here,
            e,
            same,
            append_assoc (or_nil (get children x)) (child ∷ []) (copies child x ds),
          )
      | inr e ↦ ground (arith, here, e)
    ]

module _ {Object : Type 0} where
  -- the steps' ids are all different
  unfoldable pub are_unique : List (PlanStep Object) → Bool
  are_unique [] = true
  are_unique (s ∷ steps) = not (contains (ids_of steps) s.id) && are_unique steps

  abbrev pub known : List (PlanStep Object) → String → Bool
  known steps a = contains (ids_of steps) a

  -- the dependencies of the step with an id
  unfoldable pub deps_of : List (PlanStep Object) → String → List String
  deps_of [] a = []
  deps_of (s ∷ steps) a = let rest = deps_of steps a in if s.id == a then s.depends_on else rest

  pub deps_of_unknown :
      (steps : List (PlanStep Object)) (a : String) → known steps a ≡ false → deps_of steps a ≡ []
  unfolding deps_of
  deps_of_unknown [] a h = refl
  deps_of_unknown (s ∷ steps) a h = ground (arith, h, deps_of_unknown steps a)

  -- the ids of the steps that depend on an id, each as often as it does
  unfoldable pub dependents : List (PlanStep Object) → String → List String
  dependents [] x = []
  dependents (s ∷ steps) x = copies s.id x s.depends_on ++ dependents steps x

  pub occ-dependents :
      (steps : List (PlanStep Object)) (x a : String)
      → are_unique steps ≡ true
      → occ a (dependents steps x) ≡ occ x (deps_of steps a)
  unfolding dependents deps_of are_unique occ
  occ-dependents [] x a u = refl
  occ-dependents (s ∷ steps) x a u = ground (
    arith,
    u,
    occ-append a (copies s.id x s.depends_on) (dependents steps x),
    occ-copies a s.id x s.depends_on,
    occ-dependents steps x a,
    deps_of_unknown steps a,
    eq_iff s.id a,
  )

  pub children-dependents :
      (steps : List (PlanStep Object)) (children : Dict String (List String)) (x : String)
      → or_nil (get (children_from children steps) x)
        ≡ or_nil (get children x) ++ dependents steps x
  unfolding children_from dependents
  children-dependents [] children x = sym (append_nil (or_nil (get children x)))
  children-dependents (s ∷ steps) children x =
      children-dependents steps (append_to_all s.id s.depends_on children) x
      ∙ ap (λ l. l ++ dependents steps x) (children-appended s.id x s.depends_on children)
      ∙ append_assoc (or_nil (get children x)) (copies s.id x s.depends_on) (dependents steps x)

  pub no_children-empty :
      (steps : List (PlanStep Object)) (children : Dict String (List String)) (x : String)
      → or_nil (get children x) ≡ []
      → or_nil (get (no_children children steps) x) ≡ []
  unfolding no_children
  no_children-empty [] children x h = h
  no_children-empty (s ∷ steps) children x h =
      no_children-empty steps (put children s.id []) x
        (rw get-put (elim (Bool-cases (s.id == x)) [ inl e ↦ rw e refl | inr e ↦ rw e h ]))

  -- what stands in the table of the steps that depend on a step
  pub children_lem :
      (steps : List (PlanStep Object)) (x : String)
      → or_nil (get (children_from (no_children empty steps) steps) x) ≡ dependents steps x
  children_lem steps x =
      children-dependents steps (no_children empty steps) x
      ∙ ap (λ l. l ++ dependents steps x) (no_children-empty steps empty x (rw get-empty refl))

  pub get-indegrees_from :
      (steps : List (PlanStep Object)) (indegree : Dict String ℤ) (a : String)
      → are_unique steps ≡ true
      → get (indegrees_from indegree steps) a
        ≡ (if known steps a then some (pos (length (deps_of steps a))) else get indegree a)
  unfolding indegrees_from deps_of are_unique
  get-indegrees_from [] indegree a u = refl
  get-indegrees_from (s ∷ steps) indegree a u =
      let n : ℤ = pos (length s.depends_on) in
      ground (
        arith,
        u,
        eq_iff s.id a,
        get-put indegree s.id a n,
        get-indegrees_from steps (put indegree s.id n) a,
      )

  -- the entries of a table of unique keys
  unfoldable entries_of : List (PlanStep Object) → List (String × ℤ)
  entries_of [] = []
  entries_of (s ∷ steps) = (s.id, pos (length s.depends_on)) ∷ entries_of steps

  indegrees_from-entries :
      (steps : List (PlanStep Object)) (indegree : Dict String ℤ)
      → are_unique steps ≡ true
      → ((a : String) → known steps a ≡ true → get indegree a ≡ none)
      → (indegrees_from indegree steps).entries ≡ indegree.entries ++ entries_of steps
  unfolding indegrees_from entries_of are_unique
  indegrees_from-entries [] indegree u free = sym (append_nil indegree.entries)
  indegrees_from-entries (s ∷ steps) indegree u free =
      let n : ℤ = pos (length s.depends_on) in
      let written : (put indegree s.id n).entries ≡ indegree.entries ++ (s.id, n) ∷ [] =
        put-entries indegree s.id n (free s.id (ground (arith, eq_iff s.id s.id))) in
      let still : (a : String) → known steps a ≡ true → get (put indegree s.id n) a ≡ none =
        λ a k. ground (arith, u, k, eq_iff s.id a, get-put indegree s.id a n, free a) in
      indegrees_from-entries steps (put indegree s.id n) (ground (arith, u)) still
      ∙ ap (λ l. l ++ entries_of steps) written
      ∙ append_assoc indegree.entries ((s.id, n) ∷ []) (entries_of steps)

  occ-zero_keys :
      (steps : List (PlanStep Object)) (a : String)
      → are_unique steps ≡ true
      → occ a (zero_keys (entries_of steps))
        ≡ (if known steps a && (length (deps_of steps a) == 0) then 1 else 0)
  unfolding occ zero_keys entries_of deps_of are_unique
  occ-zero_keys [] a u = refl
  occ-zero_keys (s ∷ steps) a u = ground (arith, u, eq_iff s.id a, occ-zero_keys steps a)

  -- at the start the steps with no dependencies are ready, each once
  pub first_ready :
      (steps : List (PlanStep Object)) (a : String)
      → are_unique steps ≡ true
      → occ a (zero_keys (indegrees_from empty steps).entries)
        ≡ (if known steps a && (length (deps_of steps a) == 0) then 1 else 0)
  unfolding empty
  first_ready steps a u =
      ap (λ l. occ a (zero_keys l)) (indegrees_from-entries steps empty u (λ b k. get-empty b))
      ∙ occ-zero_keys steps a u

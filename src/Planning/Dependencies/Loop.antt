-- ===== src/Planning/Dependencies/Loop.antt =====
-- The loop: it ends, every step is visited at most once, and only after what it depends on.
use deepkeel.Base.{
  ℕ, zero, suc, ◌+◌, ◌-◌, ◌≤◌, ◌<◌, String, ◌≡◌, refl, ap, ◌∙◌, Bool, true, false, not, ◌&&◌,
  Bool-cases, inl, inr, some, List, [], ◌∷◌, length, contains, filter, All, if◌then◌else◌, ◌==◌,
  string_eq, nat_eq, eq_iff, arith, ltb, eq_of_beq,
}
use deepkeel.Base.Int.{ℤ, pos, ◌-ℤ◌, int_eq}
use deepkeel.Base.Dict.{Dict, get, get-put}
use deepkeel.Planning.Contracts.{PlanStep}
use deepkeel.Planning.Dependencies.{or_nil, Frontier, release, release_all, visit_ready}
use deepkeel.Planning.Dependencies.Counts.{occ, occ-append, contains-occ, waits, waits-visited}
use deepkeel.Planning.Dependencies.Tables.{
  known, deps_of, deps_of_unknown, dependents, occ-dependents, are_unique,
}

pred_ℤ : (n : ℕ) → 1 ≤ n → pos n -ℤ pos 1 ≡ pos (n - 1)
unfolding ◌-ℤ◌
pred_ℤ n h = ground (arith, h)

get-release :
    (child a : String) (s : Frontier) (n : ℕ)
    → 1 ≤ n
    → get s.indegree child ≡ some (pos n)
    → get (release child s).indegree a
      ≡ (if child == a then some (pos (n - 1)) else get s.indegree a)
unfolding release
get-release child a s n h e = rw (get-put, e) (rw (pred_ℤ n h) refl)

occ-release :
    (child a : String) (s : Frontier) (n : ℕ)
    → 1 ≤ n
    → get s.indegree child ≡ some (pos n)
    → occ a (release child s).ready ≡ occ a s.ready + (if child == a && (n == 1) then 1 else 0)
unfolding release occ
occ-release child a s n h e =
    rw e (rw (pred_ℤ n h) (ground (arith, h, occ-append a s.ready (child ∷ []))))

-- which are ready after a child and the rest: those that the child makes ready, and the rest do
new_ready_lem :
    (c a : String) (cs : List String) (count : String → ℕ)
    → occ c (c ∷ cs) ≤ count c
    → (if ltb 0 (occ a cs) && ((if c == a then count a - 1 else count a) == occ a cs) then 1 else 0)
        + (if c == a && (count c == 1) then 1 else 0)
      ≡ (if ltb 0 (occ a (c ∷ cs)) && (count a == occ a (c ∷ cs)) then 1 else 0)
unfolding occ
new_ready_lem c a cs count fits = elim (Bool-cases (c == a)) [
  | inl e ↦
      let one : occ c cs ≡ occ a cs = ap (λ b. occ b cs) (eq_of_beq e) in
      let other : count c ≡ count a = ap count (eq_of_beq e) in
      ground (arith, e, one, other, fits, eq_iff c c)
  | inr e ↦ ground (arith, e)
]

-- visiting a step's dependents takes one off for each, and makes ready those that come to 0
release_all_lem :
    (cs : List String) (s : Frontier) (is_known : String → Bool) (count : String → ℕ)
    → ((a : String) → is_known a ≡ true → get s.indegree a ≡ some (pos (count a)))
    → ((a : String) → occ a cs ≤ count a)
    → ((a : String) → 0 < occ a cs → is_known a ≡ true)
    → (a : String)
    → (is_known a ≡ true → get (release_all cs s).indegree a ≡ some (pos (count a - occ a cs)))
      × (occ a (release_all cs s).ready
          ≡ occ a s.ready + (if ltb 0 (occ a cs) && (count a == occ a cs) then 1 else 0))
unfolding release_all occ
release_all_lem [] s is_known count held fits own a = (
  λ ka. let all_left : count a - 0 ≡ count a = omega arith in rw all_left (held a ka),
  omega arith,
)
release_all_lem (c ∷ cs) s is_known count held fits own a =
    let k : ℕ = occ c cs in
    let mine : is_known c ≡ true = own c (ground (arith, eq_iff c c)) in
    let least : 1 ≤ count c = ground (arith, eq_iff c c, fits c) in
    let count' : String → ℕ = λ b. if c == b then count b - 1 else count b in
    let held' : (b : String)
        → is_known b ≡ true
        → get (release c s).indegree b ≡ some (pos (count' b)) =
      λ b kb.
        ground (arith, get-release c b s (count c) least (held c mine), held b kb, eq_iff c b) in
    let fits' : (b : String) → occ b cs ≤ count' b = λ b. ground (arith, fits b) in
    let own' : (b : String) → 0 < occ b cs → is_known b ≡ true =
      λ b more. own b (ground (arith, more)) in
    let rest = release_all_lem cs (release c s) is_known count' held' fits' own' a in
    let made = occ-release c a s (count c) least (held c mine) in
    let left : count' a - occ a cs ≡ count a - occ a (c ∷ cs) = ground arith in
    let new_ready : (if ltb 0 (occ a cs) && (count' a == occ a cs) then 1 else 0)
          + (if c == a && (count c == 1) then 1 else 0)
        ≡ (if ltb 0 (occ a (c ∷ cs)) && (count a == occ a (c ∷ cs)) then 1 else 0) =
      new_ready_lem c a cs count (fits c) in
    (λ ka. rw (← left) (rest.0 ka), omega (arith, rest.1, made, new_ready))

module _ {Object : Type 0} (steps : List (PlanStep Object)) where
  -- each step was visited after all that it depends on; the last one visited stands first
  abbrev pub IsOrderedVisit : List String → Type 0
  IsOrderedVisit [] = Unit
  IsOrderedVisit (x ∷ visited) =
      All (λ d. contains visited d ≡ true) (deps_of steps x) × IsOrderedVisit visited

  -- How the tables stand after some visits: a degree is the number of dependencies that are not
  -- visited, and the steps of degree 0 are visited or ready, once.
  pub record IsFrontier (visited : List String) (indegree : Dict String ℤ) (ready : List String)
      : Type 0 where
    pub degrees :
        (a : String)
        → known steps a ≡ true
        → get indegree a ≡ some (pos (waits visited (deps_of steps a)))
    pub once :
        (a : String)
        → occ a visited + occ a ready
          ≡ (if known steps a && (waits visited (deps_of steps a) == 0) then 1 else 0)
    pub ordered : IsOrderedVisit visited

  -- how many steps are not visited
  unfoldable pub remaining : List String → ℕ
  remaining visited = length (filter (λ s. not (contains visited s.id)) steps)

All-visited :
    (visited ds : List String) → waits visited ds ≡ 0 → All (λ d. contains visited d ≡ true) ds
unfolding waits
All-visited visited [] h = tt
All-visited visited (d ∷ ds) h = (ground (arith, h), All-visited visited ds (ground (arith, h)))

remaining_other :
    {Object : Type 0} (steps : List (PlanStep Object)) (x : String) (visited : List String)
    → known steps x ≡ false
    → remaining steps (x ∷ visited) ≡ remaining steps visited
unfolding remaining
remaining_other [] x visited h = refl
remaining_other (s ∷ steps) x visited h =
    ground (arith, h, remaining_other steps x visited, eq_iff x s.id, eq_iff s.id x)

remaining-visit :
    {Object : Type 0} (steps : List (PlanStep Object)) (x : String) (visited : List String)
    → are_unique steps ≡ true
    → known steps x ≡ true
    → contains visited x ≡ false
    → suc (remaining steps (x ∷ visited)) ≡ remaining steps visited
unfolding remaining are_unique
remaining-visit [] x visited u k h = absurd (ground (arith, k))
remaining-visit (s ∷ steps) x visited u k h = elim (Bool-cases (s.id == x)) [
  | inl e ↦
      let same : s.id ≡ x = eq_of_beq e in
      let other : known steps x ≡ false = ground (arith, u, ap (known steps) same) in
      let seen : contains visited s.id ≡ contains visited x = ap (contains visited) same in
      ground (arith, remaining_other steps x visited other, seen, h, e, eq_iff x s.id, same)
  | inr e ↦ ground (arith, e, eq_iff x s.id, eq_iff s.id x, k, u, remaining-visit steps x visited)
]

one_round :
    (children : Dict String (List String)) (fuel : ℕ) (x : String) (indegree : Dict String ℤ)
    (ready : List String) (visited : ℕ) {cs : List String}
    → or_nil (get children x) ≡ cs
    → visit_ready (suc fuel) children indegree (x ∷ ready) visited ≡ (
        let s = release_all cs (record { indegree = indegree; ready = ready }) in
        visit_ready fuel children s.indegree s.ready (suc visited))
unfolding visit_ready
one_round children fuel x indegree ready visited e =
    ap
      (λ cs.
        let s : Frontier = release_all cs (record { indegree = indegree; ready = ready }) in
        visit_ready fuel children s.indegree s.ready (suc visited))
      e

module _ {Object : Type 0} (steps : List (PlanStep Object)) (unique : are_unique steps ≡ true) where
  visit-IsFrontier :
      (visited : List String) (indegree : Dict String ℤ) (x : String) (ready : List String)
      → IsFrontier steps visited indegree (x ∷ ready)
      → let s = release_all (dependents steps x) (record { indegree = indegree; ready = ready }) in
        IsFrontier steps (x ∷ visited) s.indegree s.ready
        × (known steps x ≡ true)
        × (contains visited x ≡ false)
  unfolding occ
  visit-IsFrontier visited indegree x ready f =
      let here = f.once x in
      let new : contains visited x ≡ false =
        ground (arith, here, eq_iff x x, contains-occ x visited) in
      let own : known steps x ≡ true = ground (arith, here, eq_iff x x) in
      let free : waits visited (deps_of steps x) ≡ 0 = ground (arith, here, eq_iff x x) in
      let count : String → ℕ = λ a. waits visited (deps_of steps a) in
      let times : (a : String) → occ a (dependents steps x) ≡ occ x (deps_of steps a) =
        λ a. occ-dependents steps x a unique in
      let left : (a : String)
          → waits (x ∷ visited) (deps_of steps a) + occ x (deps_of steps a) ≡ count a =
        λ a. waits-visited x visited (deps_of steps a) new in
      let after =
        release_all_lem (dependents steps x) (record { indegree = indegree; ready = ready })
          (known steps) count f.degrees (λ a. omega (arith, times a, left a))
          (λ a more. ground (arith, more, times a, deps_of_unknown steps a)) in
      (
        record {
          degrees = λ a ka.
              let fewer : waits (x ∷ visited) (deps_of steps a)
                  ≡ count a - occ a (dependents steps x) =
                omega (arith, left a, times a) in
              rw fewer ((after a).0 ka);
          once = λ a.
              let idle : known steps a ≡ false → occ x (deps_of steps a) ≡ 0 =
                λ k. rw (deps_of_unknown steps a k) refl in
              ground (arith, (after a).1, f.once a, left a, times a, idle);
          ordered = (All-visited visited (deps_of steps x) free, f.ordered);
        },
        own,
        new,
      )

  -- The loop ends, with as much fuel as there are steps left; what it returns is the number of the
  -- steps that it visited, and then no step is ready any more.
  pub visit_ready_lem :
      (children : Dict String (List String))
      → ((x : String) → or_nil (get children x) ≡ dependents steps x)
      → (fuel : ℕ) (visited : List String) (indegree : Dict String ℤ) (ready : List String)
      → remaining steps visited ≤ fuel
      → IsFrontier steps visited indegree ready
      → (all : List String) × (left : Dict String ℤ) × (visit_ready fuel children indegree ready
            (length visited)
          ≡ some (length all))
        × (remaining steps all + length all ≡ remaining steps visited + length visited)
        × IsFrontier steps all left []
  unfolding visit_ready
  visit_ready_lem children table fuel visited indegree [] fits f =
      (visited, indegree, refl, refl, f)
  visit_ready_lem children table zero visited indegree (x ∷ ready) fits f =
      let (f', own, new) = visit-IsFrontier visited indegree x ready f in
      absurd (omega (arith, remaining-visit steps x visited unique own new, fits))
  visit_ready_lem children table (suc fuel) visited indegree (x ∷ ready) fits f =
      let (f', own, new) = visit-IsFrontier visited indegree x ready f in
      let fewer = remaining-visit steps x visited unique own new in
      let s : Frontier =
        release_all (dependents steps x) (record { indegree = indegree; ready = ready }) in
      let (all, left, ends, sum, done) =
        visit_ready_lem children table fuel (x ∷ visited) s.indegree s.ready
          (omega (arith, fewer, fits)) f' in
      (
        all,
        left,
        one_round children fuel x indegree ready (length visited) (table x) ∙ ends,
        omega (arith, sum, fewer),
        done,
      )

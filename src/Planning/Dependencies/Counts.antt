-- ===== src/Planning/Dependencies/Counts.antt =====
-- Counting the occurrences of an id, and the dependencies that are not visited yet.
use deepkeel.Base.{
  ℕ, suc, ◌+◌, ◌≤◌, String, ◌≡◌, refl, ap, false, List, [], ◌∷◌, ◌++◌, length, contains,
  if◌then◌else◌, ◌==◌, string_eq, eq_iff, arith, ltb, nat_eq,
}

-- how often an id is in a list
unfoldable pub occ : String → List String → ℕ
occ a [] = 0
occ a (x ∷ xs) = let rest = occ a xs in if x == a then suc rest else rest

pub occ-append : (a : String) (xs ys : List String) → occ a (xs ++ ys) ≡ occ a xs + occ a ys
unfolding occ
occ-append a [] ys = omega arith
occ-append a (x ∷ xs) ys = ground (arith, occ-append a xs ys)

pub contains-occ : (a : String) (xs : List String) → contains xs a ≡ ltb 0 (occ a xs)
unfolding occ
contains-occ a [] = ground arith
contains-occ a (x ∷ xs) = ground (arith, contains-occ a xs)

-- how many of some dependencies are not among the visited ones
unfoldable pub waits : List String → List String → ℕ
waits visited [] = 0
waits visited (d ∷ ds) =
    let rest = waits visited ds in if contains visited d then rest else suc rest

pub waits-visited :
    (x : String) (visited ds : List String)
    → contains visited x ≡ false
    → waits (x ∷ visited) ds + occ x ds ≡ waits visited ds
unfolding waits occ
waits-visited x visited [] h = omega arith
waits-visited x visited (d ∷ ds) h =
    ground (arith, waits-visited x visited ds h, eq_iff x d, eq_iff d x)

pub waits_none : (ds : List String) → waits [] ds ≡ length ds
unfolding waits
waits_none [] = refl
waits_none (d ∷ ds) = ap suc (waits_none ds)

pub occ-le-waits :
    (x : String) (visited ds : List String)
    → contains visited x ≡ false
    → occ x ds ≤ waits visited ds
occ-le-waits x visited ds h = omega (arith, waits-visited x visited ds h)

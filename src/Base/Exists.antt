-- ===== src/Base/Exists.antt =====
-- An item of a list with a property and a name, against the code's filter and map.
use Prim.Native.String.{String}
use mathlib.Core.Path.{◌≡◌}
use mathlib.Core.Bool.{Bool, true}
use mathlib.Core.Logic.{◌⊎◌, ◌↔◌, inl, inr}
use mathlib.Core.List.{List, [], ◌∷◌, map}
use native.Mathlib.Omega.{arith}
use text.Mathlib.TextEquality.{eq_iff}
use deepkeel.Base.Tests.{Bool-cases}
use deepkeel.Base.Classes.{◌==◌, string_eq}
use deepkeel.Base.Lists.{filter, contains}

-- some item has the property and the name
abbrev pub Exists {ℓ} : {A : Type ℓ} → (A → Type 0) → (A → String) → List A → String → Type 0
Exists P f [] name = ⊥
Exists P f (x ∷ xs) name = (P x × (f x ≡ name)) ⊎ Exists P f xs name

pub contains-map-filter {ℓ} :
    {A : Type ℓ} (p : A → Bool) (P : A → Type 0) (f : A → String)
    → ((x : A) → (p x ≡ true) ↔ P x)
    → (xs : List A) (name : String)
    → (contains (map f (filter p xs)) name ≡ true) ↔ Exists P f xs name
contains-map-filter p P f decides [] name = (λ h. cc h, λ h. absurd h)
contains-map-filter p P f decides (x ∷ xs) name =
    let (there, back) = contains-map-filter p P f decides xs name in
    let same = eq_iff (f x) name in
    elim (Bool-cases (p x)) [
      | inl e ↦ rw e (
        λ h. elim (Bool-cases (f x == name)) [
          | inl g ↦ inl ((decides x).0 e, same.0 g)
          | inr g ↦ inr (there (ground (arith, g, h)))
        ],
        λ h. elim h [ inl (_, g) ↦ ground (arith, same.1 g) | inr g ↦ ground (arith, back g) ],
      )
      | inr e ↦ rw e (
        λ h. inr (there h),
        λ h. elim h [
          | inl (g, _) ↦ (let f = (decides x).1 g in absurd (cc (e, f)))
          | inr g ↦ back g
        ],
      )
    ]

-- ===== src/Base/Sorting.antt =====
-- `sorted` of a set of texts: the texts, each once, in Python's order.
use Prim.Native.Char.{code}
use Prim.Native.String.{String}
use mathlib.Core.Path.{◌≡◌, refl}
use mathlib.Core.Bool.{Bool, true, false, ◌&&◌, ◌||◌}
use mathlib.Core.List.{List, [], ◌∷◌}
use native.Mathlib.Omega.{arith}
use text.Mathlib.TextEquality.{eq_iff}
use deepkeel.Base.Tests.{ltb, nat_beq, if◌then◌else◌}
use deepkeel.Base.Classes.{◌==◌, string_eq}
use deepkeel.Base.Lists.{contains, is_empty}

-- `s < t`
unfoldable pub text_ltb : String → String → Bool
text_ltb s String.[] = false
text_ltb String.[] (String.◌∷◌ d t) = true
text_ltb (String.◌∷◌ c s) (String.◌∷◌ d t) =
    ltb (code c) (code d) || nat_beq (code c) (code d) && text_ltb s t

insert_text : String → List String → List String
unfolding text_ltb
insert_text x [] = x ∷ []
insert_text x (y ∷ ys) =
    let rest = insert_text x ys in
    if x == y then y ∷ ys else if text_ltb x y then x ∷ y ∷ ys else y ∷ rest

unfoldable pub sorted_set : List String → List String
unfolding insert_text
sorted_set [] = []
sorted_set (x ∷ xs) = insert_text x (sorted_set xs)

contains-insert_text :
    (x : String) (ys : List String) (a : String)
    → contains (insert_text x ys) a ≡ ((x == a) || contains ys a)
unfolding insert_text
contains-insert_text x [] a = refl
contains-insert_text x (y ∷ ys) a =
    ground (arith, eq_iff x y, eq_iff x a, eq_iff y a, contains-insert_text x ys a)

pub contains-sorted_set :
    (xs : List String) (a : String) → contains (sorted_set xs) a ≡ contains xs a
unfolding sorted_set
contains-sorted_set [] a = refl
contains-sorted_set (x ∷ xs) a =
    ground (arith, contains-insert_text x (sorted_set xs) a, contains-sorted_set xs a)

-- of a list that has nothing, nothing is contained; of another, something is
pub empty-contains : (xs : List String) (x : String) → is_empty xs ≡ true → contains xs x ≡ false
empty-contains [] x h = refl
empty-contains (y ∷ ys) x h = absurd (cc h)

abbrev pub first_of : List String → String
first_of [] = ""
first_of (x ∷ xs) = x

pub contains-first_of : (xs : List String) → is_empty xs ≡ false → contains xs (first_of xs) ≡ true
contains-first_of [] h = absurd (cc h)
contains-first_of (x ∷ xs) h = ground (arith, eq_iff x x)

sorted_set_test : sorted_set ("b" ∷ "ab" ∷ "b" ∷ "a" ∷ []) ≡ "a" ∷ "ab" ∷ "b" ∷ []
unfolding sorted_set
sorted_set_test = refl

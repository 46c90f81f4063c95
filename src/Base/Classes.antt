-- ===== src/Base/Classes.antt =====
-- Equality of keys as an interface, with instances for numbers, texts and tuples of them.
use Prim.Native.Nat.{ℕ}
use Prim.Native.String.{String}
use mathlib.Core.Path.{◌≡◌, refl}
use mathlib.Core.Logic.{◌↔◌, ◌≢◌}
use mathlib.Core.Bool.{Bool, true, false, ◌&&◌}
use mathlib.Core.List.{List, [], ◌∷◌}
use native.Mathlib.Omega.{arith}
use text.Mathlib.Text.{◌==◌ as str_eq}
use text.Mathlib.TextEquality.{eq_iff}
use deepkeel.Base.Tests.{nat_beq, nat_beq_iff}

-- The Boolean test of a key type, with its law.
pub record Eq {ℓ} (Key : Type ℓ) : Type ℓ where
  pub equals : Key → Key → Bool
  pub equals_iff : (j k : Key) → (equals j k ≡ true) ↔ (j ≡ k)

abbrev pub ◌==◌ {ℓ} : {Key : Type ℓ} ⦃e : Eq Key⦄ → Key → Key → Bool
◌==◌ ⦃e⦄ = e.equals

infix 50 ◌==◌
instance abbrev pub string_eq : Eq String
string_eq = record { equals = str_eq; equals_iff = eq_iff }

instance abbrev pub nat_eq : Eq ℕ
nat_eq = record { equals = nat_beq; equals_iff = nat_beq_iff }

module _ {ℓ} {A B : Type ℓ} ⦃ea : Eq A⦄ ⦃eb : Eq B⦄ where
  abbrev pub pair_beq : A × B → A × B → Bool
  pair_beq (a, b) (c, d) = (a == c) && (b == d)

  pub pair_beq_iff : (p q : A × B) → (pair_beq p q ≡ true) ↔ (p ≡ q)
  pair_beq_iff (a, b) (c, d) = ground (arith, ea.equals_iff a c, eb.equals_iff b d)

  instance abbrev pub pair_eq : Eq (A × B)
  pair_eq = record { equals = pair_beq; equals_iff = pair_beq_iff }

module _ {ℓ} {A : Type ℓ} ⦃e : Eq A⦄ where
  abbrev pub list_beq : List A → List A → Bool
  list_beq [] [] = true
  list_beq [] (b ∷ ys) = false
  list_beq (a ∷ xs) [] = false
  list_beq (a ∷ xs) (b ∷ ys) = (a == b) && list_beq xs ys

  pub list_beq_iff : (xs ys : List A) → (list_beq xs ys ≡ true) ↔ (xs ≡ ys)
  list_beq_iff [] [] = ground arith
  list_beq_iff [] (b ∷ ys) = ground arith
  list_beq_iff (a ∷ xs) [] = ground arith
  list_beq_iff (a ∷ xs) (b ∷ ys) = ground (arith, e.equals_iff a b, list_beq_iff xs ys)

  instance abbrev pub list_eq : Eq (List A)
  list_eq = record { equals = list_beq; equals_iff = list_beq_iff }

module _ {ℓ} {A : Type ℓ} ⦃e : Eq A⦄ where
  pub beq_refl : (a : A) → (a == a) ≡ true
  beq_refl a = (e.equals_iff a a).1 refl

  pub beq_sym : (a b : A) → (a == b) ≡ (b == a)
  beq_sym a b = ground (arith, e.equals_iff a b, e.equals_iff b a)

  pub beq_ne : {a b : A} → a ≢ b → (a == b) ≡ false
  beq_ne {a} {b} h = ground (arith, e.equals_iff a b)

  pub eq_of_beq : {a b : A} → (a == b) ≡ true → a ≡ b
  eq_of_beq {a} {b} h = (e.equals_iff a b).0 h

  pub ne_of_beq : {a b : A} → (a == b) ≡ false → a ≢ b
  ne_of_beq {a} {b} h e' = cc (h, (e.equals_iff a b).1 e')

-- ===== src/Base/Text.antt =====
-- `str.strip` and `str.lower`. The white space is all of Python's; of letters with a case only the
-- ASCII ones are in the model, so `lower` is Python's on texts with no other capital letter.
use Prim.Native.Nat.{ℕ, ◌+◌, ◌<◌, compare, Ordering}
use Prim.Native.Char.{Char, char, code, IsScalar}
use Prim.Native.String.{String}
use mathlib.Core.Path.{◌≡◌, refl, ap}
use mathlib.Core.Logic.{dite, inl, inr}
use mathlib.Core.Bool.{Bool, true, false, not, ◌&&◌, ◌||◌}
use native.Mathlib.Omega.{arith}
use native.Mathlib.Decide.{dec_lt}
use text.Mathlib.TextEquality.{Char-path}
use deepkeel.Base.Tests.{leb, nat_beq, if◌then◌else◌, Bool-cases}

is_space_code : ℕ → Bool
is_space_code c =
    leb 9 c && leb c 13
    || leb 28 c && leb c 32
    || nat_beq c 133
    || nat_beq c 160
    || nat_beq c 5760
    || leb 8192 c && leb c 8202
    || leb 8232 c && leb c 8233
    || nat_beq c 8239
    || nat_beq c 8287
    || nat_beq c 12288

-- s.lstrip()
lstrip : String → String
unfolding is_space_code
lstrip String.[] = String.[]
lstrip (String.◌∷◌ c s) =
    let rest = lstrip s in if is_space_code (code c) then rest else String.◌∷◌ c s

abbrev is_nil : String → Bool
is_nil String.[] = true
is_nil (String.◌∷◌ _ _) = false

-- s.rstrip()
rstrip : String → String
unfolding is_space_code
rstrip String.[] = String.[]
rstrip (String.◌∷◌ c s) =
    let rest = rstrip s in
    if is_space_code (code c) && is_nil rest then String.[] else String.◌∷◌ c rest

unfoldable pub strip : String → String
unfolding lstrip rstrip
strip s = rstrip (lstrip s)

small-IsScalar : (n : ℕ) → n < 128 → IsScalar n
small-IsScalar n h = let e : compare n 55296 ≡ Ordering.lt = ground arith in rw e tt

lower_char : Char → Char
lower_char c =
    dite (dec_lt 64 (code c))
      (λ _.
        dite (dec_lt (code c) 91)
          (λ h. char (code c + 32) (small-IsScalar (code c + 32) (omega arith))) (λ _. c))
      (λ _. c)

unfoldable pub lower : String → String
unfolding lower_char dec_lt small-IsScalar
lower String.[] = String.[]
lower (String.◌∷◌ c s) = String.◌∷◌ (lower_char c) (lower s)

-- `text or default`
abbrev pub or_else : String → String → String
or_else String.[] d = d
or_else (String.◌∷◌ c s) d = String.◌∷◌ c s

-- Lower-casing twice is lower-casing once.
lower_char-lower_char : (c : Char) → lower_char (lower_char c) ≡ lower_char c
unfolding lower_char
lower_char-lower_char c = Char-path _ _ (ground arith)

pub lower-lower : (s : String) → lower (lower s) ≡ lower s
unfolding lower
lower-lower String.[] = refl
lower-lower (String.◌∷◌ c s) = rw (lower_char-lower_char c) (rw (lower-lower s))

space-lower_char : (c : Char) → is_space_code (code (lower_char c)) ≡ is_space_code (code c)
unfolding lower_char is_space_code
space-lower_char c = ground arith

is_nil-lower : (s : String) → is_nil (lower s) ≡ is_nil s
unfolding lower
is_nil-lower String.[] = refl
is_nil-lower (String.◌∷◌ c s) = refl

lstrip-lower : (s : String) → lstrip (lower s) ≡ lower (lstrip s)
unfolding lower lstrip
lstrip-lower String.[] = refl
lstrip-lower (String.◌∷◌ c s) =
    rw (space-lower_char c)
      (elim (Bool-cases (is_space_code (code c))) [ inl e ↦ rw e (lstrip-lower s) | inr e ↦ rw e ])

rstrip-lower : (s : String) → rstrip (lower s) ≡ lower (rstrip s)
unfolding lower rstrip
rstrip-lower String.[] = refl
rstrip-lower (String.◌∷◌ c s) =
    rw (rstrip-lower s, is_nil-lower (rstrip s), space-lower_char c)
      (elim (Bool-cases (is_space_code (code c) && is_nil (rstrip s))) [
        | inl e ↦ rw e
        | inr e ↦ rw e
      ])

strip-lower : (s : String) → strip (lower s) ≡ lower (strip s)
unfolding strip
strip-lower s = rw (lstrip-lower s) (rstrip-lower (lstrip s))

rstrip-rstrip : (s : String) → rstrip (rstrip s) ≡ rstrip s
unfolding rstrip
rstrip-rstrip String.[] = refl
rstrip-rstrip (String.◌∷◌ c s) = elim (Bool-cases (is_space_code (code c) && is_nil (rstrip s))) [
  | inl e ↦ rw e
  | inr e ↦ rw e (rw (rstrip-rstrip s) (rw e))
]

-- The text does not begin with white space.
abbrev starts_clean : String → Bool
starts_clean String.[] = true
starts_clean (String.◌∷◌ c _) = not (is_space_code (code c))

starts_clean-lstrip : (s : String) → starts_clean (lstrip s) ≡ true
unfolding lstrip
starts_clean-lstrip String.[] = refl
starts_clean-lstrip (String.◌∷◌ c s) = elim (Bool-cases (is_space_code (code c))) [
  | inl e ↦ rw e (starts_clean-lstrip s)
  | inr e ↦ rw (e, starts_clean) (ap not e)
]

lstrip_of_clean : (s : String) → starts_clean s ≡ true → lstrip s ≡ s
unfolding lstrip
lstrip_of_clean String.[] h = refl
lstrip_of_clean (String.◌∷◌ c s) h = elim (Bool-cases (is_space_code (code c))) [
  | inl e ↦ cc
  | inr e ↦ rw e
]

starts_clean-rstrip : (s : String) → starts_clean s ≡ true → starts_clean (rstrip s) ≡ true
unfolding rstrip
starts_clean-rstrip String.[] h = refl
starts_clean-rstrip (String.◌∷◌ c s) h =
    elim (Bool-cases (is_space_code (code c) && is_nil (rstrip s))) [
      | inl e ↦ rw e
      | inr e ↦ rw e h
    ]

-- Stripping twice is stripping once.
pub strip-strip : (s : String) → strip (strip s) ≡ strip s
unfolding strip
strip-strip s =
    let clean : starts_clean (rstrip (lstrip s)) ≡ true =
      starts_clean-rstrip (lstrip s) (starts_clean-lstrip s) in
    rw (lstrip_of_clean (rstrip (lstrip s)) clean) (rstrip-rstrip (lstrip s))

-- A text that has been stripped and lower-cased is left alone by both.
pub lower-strip_again : (s : String) → lower (strip (lower (strip s))) ≡ lower (strip s)
lower-strip_again s = rw (strip-lower, strip-strip, lower-lower)

strip_test : strip " ab c " ≡ "ab c"
unfolding strip
strip_test = refl

lower_test : lower "AbZ-[" ≡ "abz-["
unfolding lower
lower_test = refl

-- text.startswith(prefix)
unfoldable pub starts_with : String → String → Bool
starts_with text String.[] = true
starts_with String.[] (String.◌∷◌ p prefix) = false
starts_with (String.◌∷◌ c text) (String.◌∷◌ p prefix) =
    nat_beq (code c) (code p) && starts_with text prefix

-- ===== src/Base/Exec.antt =====
-- A method that writes to an object and may raise: what it wrote before the exception stays.
use mathlib.Core.Option.{Option, none, some}
use deepkeel.Base.Raise.{Result, ok, err}

abbrev pub Exec : Type 0 → Type 0 → Type 0 → Type 0
Exec S E A = S → Result E A × S

module _ {S E A B : Type 0} where
  abbrev continue : Result E A → (A → Exec S E B) → Exec S E B
  continue (ok a) f s = f a s
  continue (err e) f s = (err e, s)

  infixl 10 ◌>>=◌ ◌>>◌
  abbrev pub ◌>>=◌ : Exec S E A → (A → Exec S E B) → Exec S E B
  ◌>>=◌ m f s = let (r, s') = m s in continue r f s'

  abbrev pub ◌>>◌ : Exec S E A → Exec S E B → Exec S E B
  m >> n = m >>= λ _. n

module _ {S E A : Type 0} where
  abbrev pub pure : A → Exec S E A
  pure a s = (ok a, s)

  abbrev pub lift : Result E A → Exec S E A
  lift r s = (r, s)

module _ {S E : Type 0} where
  abbrev pub read : Exec S E S
  read s = (ok s, s)

  abbrev pub modify : (S → S) → Exec S E (Unit {0})
  modify f s = (ok tt, f s)

  -- raise the exception, if there is one
  abbrev pub raise_some : Option E → Exec S E (Unit {0})
  raise_some none s = (ok tt, s)
  raise_some (some e) s = (err e, s)

-- ===== src/Base/Dict.antt =====
-- Python's `dict`, in insertion order: an assignment to a key that is there keeps its place.
use mathlib.Core.Path.{◌≡◌, refl, ap, subst}
use mathlib.Core.Bool.{Bool, true, false}
use mathlib.Core.Logic.{◌⊎◌, inl, inr}
use mathlib.Core.Option.{Option, none, some}
use mathlib.Core.List.{List, [], ◌∷◌, ◌++◌}
use native.Mathlib.Omega.{arith}
use deepkeel.Base.Tests.{if◌then◌else◌, Bool-cases}
use deepkeel.Base.Classes.{Eq, ◌==◌}
use deepkeel.Base.Lists.{All}

pub record Dict {ℓ} (K V : Type ℓ) : Type ℓ where
  pub entries : List (K × V)

module _ {ℓ} {K V : Type ℓ} ⦃e : Eq K⦄ where
  pub lookup : K → List (K × V) → Option V
  lookup k [] = none
  lookup k ((j, v) ∷ l) = if j == k then some v else lookup k l

  pub write : K → V → List (K × V) → List (K × V)
  write k v [] = (k, v) ∷ []
  write k v ((j, w) ∷ l) = let rest = write k v l in if j == k then (j, v) ∷ l else (j, w) ∷ rest

  pub without : K → List (K × V) → List (K × V)
  without k [] = []
  without k ((j, v) ∷ l) = let rest = without k l in if j == k then rest else (j, v) ∷ rest

  pub kept_entries : (K → Bool) → List (K × V) → List (K × V)
  kept_entries p [] = []
  kept_entries p ((j, v) ∷ l) = let rest = kept_entries p l in if p j then (j, v) ∷ rest else rest

  unfoldable pub empty : Dict K V
  empty = record { entries = [] }

  -- d.get(k)
  unfoldable pub get : Dict K V → K → Option V
  unfolding lookup
  get d k = lookup k d.entries

  -- d[k] = v
  unfoldable pub put : Dict K V → K → V → Dict K V
  unfolding write
  put d k v = record { entries = write k v d.entries }

  -- d.pop(k, None)
  unfoldable pub remove : Dict K V → K → Dict K V
  unfolding without
  remove d k = record { entries = without k d.entries }

  -- {k: v for k, v in d.items() if p(k)}
  unfoldable pub filter_keys : (K → Bool) → Dict K V → Dict K V
  unfolding kept_entries
  filter_keys p d = record { entries = kept_entries p d.entries }

  lookup-write :
      (k j : K) (v : V) (l : List (K × V))
      → lookup j (write k v l) ≡ (if k == j then some v else lookup j l)
  unfolding lookup write
  lookup-write k j v [] = refl
  lookup-write k j v ((i, w) ∷ l) =
      ground (arith, e.equals_iff i k, e.equals_iff i j, e.equals_iff k j, lookup-write k j v l)

  lookup-without :
      (k j : K) (l : List (K × V)) → lookup j (without k l) ≡ (if k == j then none else lookup j l)
  unfolding lookup without
  lookup-without k j [] = ground arith
  lookup-without k j ((i, w) ∷ l) =
      ground (arith, e.equals_iff i k, e.equals_iff i j, e.equals_iff k j, lookup-without k j l)

  lookup-kept_entries :
      (p : K → Bool) (k : K) (l : List (K × V))
      → lookup k (kept_entries p l) ≡ (if p k then lookup k l else none)
  unfolding lookup kept_entries
  lookup-kept_entries p k [] = ground arith
  lookup-kept_entries p k ((j, v) ∷ l) =
      let keeps : (j == k) ≡ true → p j ≡ p k = λ h. ap p ((e.equals_iff j k).0 h) in
      ground (arith, keeps, lookup-kept_entries p k l)

  write_new :
      (k : K) (v : V) (l : List (K × V)) → lookup k l ≡ none → write k v l ≡ l ++ (k, v) ∷ []
  unfolding lookup write
  write_new k v [] h = refl
  write_new k v ((j, w) ∷ l) h = ground (arith, h, write_new k v l)

  -- a new key is written at the end
  pub put-entries :
      (d : Dict K V) (k : K) (v : V)
      → get d k ≡ none
      → (put d k v).entries ≡ d.entries ++ (k, v) ∷ []
  unfolding get put
  put-entries d k v h = write_new k v d.entries h

  pub get-filter_keys :
      (p : K → Bool) (d : Dict K V) (k : K)
      → get (filter_keys p d) k ≡ (if p k then get d k else none)
  unfolding get filter_keys
  get-filter_keys p d k = lookup-kept_entries p k d.entries

  pub get-put :
      (d : Dict K V) (k j : K) (v : V) → get (put d k v) j ≡ (if k == j then some v else get d j)
  unfolding get put
  get-put d k j v = lookup-write k j v d.entries

  pub get-remove :
      (d : Dict K V) (k j : K) → get (remove d k) j ≡ (if k == j then none else get d j)
  unfolding get remove
  get-remove d k j = lookup-without k j d.entries

  pub get-empty : (k : K) → get empty k ≡ none
  unfolding get empty
  get-empty k = refl

module _ {ℓ} {K V : Type ℓ} ⦃e : Eq K⦄ where
  -- what is found after a write is the value written, or was there
  pub found_after_put :
      (d : Dict K V) (k j : K) (v : V) {w : V}
      → get (put d k v) j ≡ some w
      → (((k == j) ≡ true) × (w ≡ v)) ⊎ (((k == j) ≡ false) × (get d j ≡ some w))
  found_after_put d k j v h = elim (Bool-cases (k == j)) [
    | inl same ↦ inl (same, ground (arith, get-put d k j v, same, h))
    | inr other ↦ inr (other, ground (arith, get-put d k j v, other, h))
  ]

  pub found_after_remove :
      (d : Dict K V) (k j : K) {w : V} → get (remove d k) j ≡ some w → get d j ≡ some w
  found_after_remove d k j h = ground (arith, get-remove d k j, h)

  write_all : List (K × V) → Dict K V → Dict K V
  unfolding put
  write_all [] d = d
  write_all ((k, v) ∷ l) d = write_all l (put d k v)

  -- d.update(e)
  unfoldable pub update : Dict K V → Dict K V → Dict K V
  unfolding write_all
  update d e = write_all e.entries d

  -- d.values()
  abbrev pub values_of : List (K × V) → List V
  values_of [] = []
  values_of ((k, v) ∷ l) = v ∷ values_of l

  All-lookup {κ} :
      (P : V → Type κ) (l : List (K × V)) (k : K) (v : V)
      → All P (values_of l)
      → lookup k l ≡ some v
      → P v
  unfolding lookup
  All-lookup P [] k v h e = absurd (cc e)
  All-lookup P ((j, w) ∷ l) k v (first, others) e = elim (Bool-cases (j == k)) [
    | inl b ↦ let same : w ≡ v = ground (arith, b, e) in subst P same first
    | inr b ↦ All-lookup P l k v others (ground (arith, b, e))
  ]

  -- what holds of all values holds of the one under a key
  pub All-get {κ} :
      (P : V → Type κ) (d : Dict K V) (k : K) (v : V)
      → All P (values_of d.entries)
      → get d k ≡ some v
      → P v
  unfolding get
  All-get P d k v h e = All-lookup P d.entries k v h e

pub ruleset dict_laws = (get-empty, get-remove, get-put)

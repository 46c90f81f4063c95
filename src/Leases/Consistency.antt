-- ===== src/Leases/Consistency.antt =====
-- The invariant of a lease store, kept by every operation.
use deepkeel.Base.{
  ℕ, ◌+◌, ◌≤◌, String, ◌≡◌, sym, ap, ◌∙◌, inl, inr, Bool-cases, some, Result-cases, List, [], ◌∷◌,
  arith, if◌then◌else◌, ◌==◌, string_eq, nat_eq, pair_eq, eq_of_beq,
}
use deepkeel.Base.Dict.{get, get-put, get-empty, found_after_put, found_after_remove}
use deepkeel.Scope.{RuntimeScope, RunKey}
use deepkeel.Leases.Store.{
  RunLease, LeaseStore, claim_scoped, renew, release, lease_key, generation_at, new_lease,
  new_lease_store,
}
use deepkeel.Leases.Histories.{
  Operation, claims, renews, releases, perform, serve, claim_key, Claimed, claim_scoped-ok, Renewed,
  renew-ok, Released, nothing_held, gave_back, release-ok,
}

-- Each lease stands under its own key, and has the latest generation that was given out there.
pub record IsConsistent (store : LeaseStore) : Type 0 where
  pub at_key :
      (key : RunKey) (lease : RunLease)
      → get store.leases key ≡ some lease
      → (lease_key lease ≡ key) × (lease.generation ≡ generation_at store key)

pub generation_at-Claimed :
    {now : ℕ} {token : String} {scope : RuntimeScope} {run_id owner_id : String}
    {store store' : LeaseStore} {lease : RunLease} (key : RunKey)
    → Claimed now token scope run_id owner_id store lease store'
    → generation_at store' key ≡ (
        if claim_key scope run_id == key
        then generation_at store key + 1
        else generation_at store key)
unfolding generation_at
generation_at-Claimed {scope = scope} {run_id = run_id} {store = store} key c = rw c.stored (
    rw get-put (elim (Bool-cases (claim_key scope run_id == key)) [
      | inl e ↦ rw e (
          rw c.made
            (unfold new_lease in ap (λ (k : RunKey). generation_at store k + 1) (eq_of_beq e)))
      | inr e ↦ rw e
    ]))

pub Claimed-IsConsistent :
    {now : ℕ} {token : String} {scope : RuntimeScope} {run_id owner_id : String}
    {store store' : LeaseStore} {lease : RunLease}
    → Claimed now token scope run_id owner_id store lease store'
    → IsConsistent store
    → IsConsistent store'
Claimed-IsConsistent {scope = scope} {run_id = run_id} {store = store} {store' = store'} c w =
    record {
      at_key = λ key other h.
          elim (found_after_put store.leases (claim_key scope run_id) key _
            (ap (λ (x : LeaseStore). get x.leases key) (sym c.stored) ∙ h)) [
              | inl (here, new) ↦ (
                rw (new, c.made) (unfold new_lease in eq_of_beq here),
                rw (new, c.stored) (unfold generation_at in rw get-put (rw here)),
              )
              | inr (elsewhere, old) ↦
                  let (keyed, latest) = w.at_key key other old in
                  (keyed, rw (generation_at-Claimed key c) (rw elsewhere latest))
            ];
    }

generation_at-Renewed :
    {now : ℕ} {lease lease' : RunLease} {store store' : LeaseStore} (key : RunKey)
    → Renewed now lease store lease' store'
    → generation_at store' key ≡ generation_at store key
unfolding generation_at
generation_at-Renewed key c = rw c.stored

Renewed-IsConsistent :
    {now : ℕ} {lease lease' : RunLease} {store store' : LeaseStore}
    → Renewed now lease store lease' store'
    → IsConsistent store
    → IsConsistent store'
Renewed-IsConsistent {lease = lease} {lease' = lease'} {store = store} {store' = store'} c w =
    record {
      at_key = λ key other h.
          elim (found_after_put store.leases (lease_key lease) key lease'
            (ap (λ (x : LeaseStore). get x.leases key) (sym c.stored) ∙ h)) [
              | inl (here, new) ↦
                  let (keyed, latest) = w.at_key (lease_key lease) c.current c.found in
                  (
                    rw (new, c.made) (keyed ∙ eq_of_beq here),
                    rw (new, c.made, generation_at-Renewed key c)
                        (latest ∙ ap (generation_at store) (eq_of_beq here)),
                  )
              | inr (elsewhere, old) ↦
                  let (keyed, latest) = w.at_key key other old in
                  (keyed, rw (generation_at-Renewed key c) latest)
            ];
    }

generation_at-Released :
    {lease : RunLease} {store store' : LeaseStore} (key : RunKey)
    → Released lease store store'
    → generation_at store' key ≡ generation_at store key
unfolding generation_at
generation_at-Released key (nothing_held e f) = rw f
generation_at-Released key (gave_back current e t g f) = rw f

Released-IsConsistent :
    {lease : RunLease} {store store' : LeaseStore}
    → Released lease store store'
    → IsConsistent store
    → IsConsistent store'
Released-IsConsistent (nothing_held e f) w = rw f w
Released-IsConsistent {lease} {store} {store'} (gave_back current e t g f) w = record {
  at_key = λ key other h.
      let (keyed, latest) = w.at_key key other (
        found_after_remove store.leases (lease_key lease) key
          (ap (λ (x : LeaseStore). get x.leases key) (sym f) ∙ h)) in
      (keyed, rw (generation_at-Released {lease = lease} key (gave_back current e t g f)) latest);
}

-- What one operation does to a store, whichever way it ends
pub data Performed (store : LeaseStore) : LeaseStore → Type 0 where
  unchanged : Performed store store
  claimed :
      {now : ℕ} {token : String} {scope : RuntimeScope} {run_id owner_id : String}
      {store' : LeaseStore} {lease : RunLease}
      → Claimed now token scope run_id owner_id store lease store'
      → Performed store store'
  renewed :
      {now : ℕ} {lease lease' : RunLease} {store' : LeaseStore}
      → Renewed now lease store lease' store'
      → Performed store store'
  released :
      {lease : RunLease} {store' : LeaseStore}
      → Released lease store store'
      → Performed store store'

pub perform-Performed : (store : LeaseStore) (o : Operation) → Performed store (perform store o)
unfolding perform
perform-Performed store (claims now token scope run_id owner_id ttl) =
    elim (Result-cases (claim_scoped now token scope run_id owner_id ttl store)) [
      | inl ((lease, store'), e) ↦
          rw e (claimed (claim_scoped-ok now token scope run_id owner_id ttl store e))
      | inr (x, e) ↦ rw e unchanged
    ]
perform-Performed store (renews now lease ttl) = elim (Result-cases (renew now lease ttl store)) [
  | inl ((lease', store'), e) ↦ rw e (renewed (renew-ok now lease ttl store e))
  | inr (x, e) ↦ rw e unchanged
]
perform-Performed store (releases lease) = elim (Result-cases (release lease store)) [
  | inl (store', e) ↦ rw e (released (release-ok lease store e))
  | inr (x, e) ↦ rw e unchanged
]

Performed-IsConsistent :
    {store store' : LeaseStore} → Performed store store' → IsConsistent store → IsConsistent store'
Performed-IsConsistent unchanged w = w
Performed-IsConsistent (claimed c) w = Claimed-IsConsistent c w
Performed-IsConsistent (renewed c) w = Renewed-IsConsistent c w
Performed-IsConsistent (released c) w = Released-IsConsistent c w

generation_at-Performed :
    {store store' : LeaseStore} (key : RunKey)
    → Performed store store'
    → generation_at store key ≤ generation_at store' key
generation_at-Performed key unchanged = omega arith
generation_at-Performed key (claimed {scope = scope} {run_id = run_id} c) =
    rw (generation_at-Claimed key c) (ground arith)
generation_at-Performed key (renewed c) = rw (generation_at-Renewed key c) (omega arith)
generation_at-Performed key (released c) = rw (generation_at-Released key c) (omega arith)

pub serve-IsConsistent :
    (store : LeaseStore) (operations : List Operation)
    → IsConsistent store
    → IsConsistent (serve store operations)
unfolding serve
serve-IsConsistent store [] w = w
serve-IsConsistent store (o ∷ rest) w =
    serve-IsConsistent (perform store o) rest (Performed-IsConsistent (perform-Performed store o) w)

pub generation_at-serve :
    (store : LeaseStore) (operations : List Operation) (key : RunKey)
    → generation_at store key ≤ generation_at (serve store operations) key
unfolding serve
generation_at-serve store [] key = omega arith
generation_at-serve store (o ∷ rest) key = omega (
  arith,
  generation_at-Performed key (perform-Performed store o),
  generation_at-serve (perform store o) rest key,
)

pub IsConsistent-new : IsConsistent new_lease_store
IsConsistent-new = record { at_key = λ key lease h. absurd (cc (get-empty {V = RunLease} key, h)) }

-- Whatever a new store has served, the lease that stands under a run's key is that run's, and it has
-- the latest generation that was given out there.
pub reachable-IsConsistent :
    (operations : List Operation) → IsConsistent (serve new_lease_store operations)
reachable-IsConsistent operations = serve-IsConsistent new_lease_store operations IsConsistent-new

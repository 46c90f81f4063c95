-- ===== src/Leases/Takeover.antt =====
-- Fencing generations: a lease that was taken over is dead for good.
use deepkeel.Base.{
  ℕ, ◌+◌, ◌<◌, String, ◌≡◌, refl, ap, inl, inr, ok, err, Result-cases, List, arith, string_eq,
  nat_eq, pair_eq, beq_refl,
}
use deepkeel.Base.Int.{ℤ}
use deepkeel.Scope.{RuntimeScope}
use deepkeel.Leases.Store.{
  LeaseError, RunLease, LeaseStore, claim_scoped, renew, release, lease_key, generation_at,
  new_lease,
}
use deepkeel.Leases.Histories.{
  Operation, serve, claim_key, Claimed, claim_scoped-ok, Renewed, renew-ok, Released, nothing_held,
  gave_back, release-ok,
}
use deepkeel.Leases.Consistency.{
  IsConsistent, generation_at-Claimed, Claimed-IsConsistent, serve-IsConsistent,
  generation_at-serve,
}

-- the generation of a new lease is the run's from then on
generation-Claimed :
    {now : ℕ} {token : String} {scope : RuntimeScope} {run_id owner_id : String}
    {store store' : LeaseStore} {lease : RunLease}
    → Claimed now token scope run_id owner_id store lease store'
    → (lease_key lease ≡ claim_key scope run_id)
      × (lease.generation ≡ generation_at store (claim_key scope run_id) + 1)
      × (generation_at store' (claim_key scope run_id) ≡ lease.generation)
generation-Claimed {scope = scope} {run_id = run_id} c = (
  rw c.made (unfold new_lease in refl),
  rw c.made (unfold new_lease in refl),
  rw (generation_at-Claimed (claim_key scope run_id) c)
      (rw (beq_refl (claim_key scope run_id)) (rw c.made (unfold new_lease in refl))),
)

not-Renewed :
    (store : LeaseStore) (stale : RunLease) {now : ℕ} {lease' : RunLease} {store' : LeaseStore}
    → IsConsistent store
    → stale.generation < generation_at store (lease_key stale)
    → Renewed now stale store lease' store'
    → ⊥
not-Renewed store stale w older c =
    omega (arith, (w.at_key (lease_key stale) c.current c.found).1, c.same_generation)

not_given_back :
    (store : LeaseStore) (stale : RunLease) {store' : LeaseStore}
    → IsConsistent store
    → stale.generation < generation_at store (lease_key stale)
    → Released stale store store'
    → store' ≡ store
not_given_back store stale w older (nothing_held e f) = f
not_given_back store stale w older (gave_back current e t g f) =
    absurd (omega (arith, (w.at_key (lease_key stale) current e).1, g))

-- What a worker whose run was taken over can do with its lease
pub record IsDead (stale : RunLease) (store : LeaseStore) : Type 0 where
  pub cannot_renew : (now : ℕ) (ttl : ℤ) → (e : LeaseError) × (renew now stale ttl store ≡ err e)
  pub cannot_release : (store' : LeaseStore) → release stale store ≡ ok store' → store' ≡ store

IsDead-of_older :
    (store : LeaseStore) (stale : RunLease)
    → IsConsistent store
    → stale.generation < generation_at store (lease_key stale)
    → IsDead stale store
IsDead-of_older store stale w older = record {
  cannot_renew = λ now ttl. elim (Result-cases (renew now stale ttl store)) [
    | inl ((lease', store'), e) ↦
        absurd (not-Renewed store stale w older (renew-ok now stale ttl store e))
    | inr (x, e) ↦ (x, e)
  ];
  cannot_release = λ store' h. not_given_back store stale w older (release-ok stale store h);
}

-- A takeover is final. Where a claim of a run returned a lease, and after any operations of any
-- workers a later claim of the same run returned another, the later one has the greater generation;
-- and after any further operations the earlier lease can not be renewed, at any time and for any
-- ttl, and releasing it does not change the store.
pub takeover_is_final :
    (store : LeaseStore) (now now' : ℕ) (token token' : String) (scope scope' : RuntimeScope)
    (run_id run_id' owner_id owner_id' : String) (ttl ttl' : ℤ) (between after : List Operation)
    {stale lease : RunLease} {store₁ store₂ : LeaseStore}
    → IsConsistent store
    → claim_scoped now token scope run_id owner_id ttl store ≡ ok (stale, store₁)
    → claim_key scope' run_id' ≡ claim_key scope run_id
    → claim_scoped now' token' scope' run_id' owner_id' ttl' (serve store₁ between)
      ≡ ok (lease, store₂)
    → (stale.generation < lease.generation) × IsDead stale (serve store₂ after)
takeover_is_final store now now' token token' scope scope' run_id run_id' owner_id owner_id' ttl
      ttl' between after {stale} {lease} {store₁} {store₂} w first same second =
    let c = claim_scoped-ok now token scope run_id owner_id ttl store first in
    let c' =
      claim_scoped-ok now' token' scope' run_id' owner_id' ttl' (serve store₁ between) second in
    let (keyed, given, latest) = generation-Claimed c in
    let (keyed', given', latest') = generation-Claimed c' in
    let key = claim_key scope run_id in
    let w₂ : IsConsistent store₂ =
      Claimed-IsConsistent c' (serve-IsConsistent store₁ between (Claimed-IsConsistent c w)) in
    let newer : stale.generation < lease.generation = omega (
      arith,
      latest,
      given',
      generation_at-serve store₁ between key,
      ap (generation_at (serve store₁ between)) same,
    ) in
    (
      newer,
      IsDead-of_older (serve store₂ after) stale (serve-IsConsistent store₂ after w₂) (
          rw keyed (
            omega (
              arith,
              newer,
              latest',
              ap (generation_at store₂) same,
              generation_at-serve store₂ after key,
            ))),
    )

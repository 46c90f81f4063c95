-- ===== src/Leases/Histories.antt =====
-- Any sequence of operations on a lease store, by any workers. An exception leaves the store alone.
use deepkeel.Base.{
  ℕ, ◌+◌, ◌<◌, String, ◌≡◌, inl, inr, none, some, Option-cases, Result, ok, err, List, [], ◌∷◌,
  arith, string_eq, nat_eq, pair_eq, eq_iff,
}
use deepkeel.Base.Int.{ℤ, clip}
use deepkeel.Base.Text.{strip}
use deepkeel.Base.Dict.{get, put, remove}
use deepkeel.Scope.{RuntimeScope, RunKey, storage_key}
use deepkeel.Leases.Store.{
  LeaseError, RunLease, LeaseStore, claim_scoped, renew, release, lease_key, held, new_lease,
}

pub data Operation : Type 0 where
  claims : ℕ → String → RuntimeScope → String → String → ℤ → Operation
  renews : ℕ → RunLease → ℤ → Operation
  releases : RunLease → Operation

abbrev after_pair : LeaseStore → Result LeaseError (RunLease × LeaseStore) → LeaseStore
after_pair store (ok (lease, store')) = store'
after_pair store (err e) = store

abbrev after_store : LeaseStore → Result LeaseError LeaseStore → LeaseStore
after_store store (ok store') = store'
after_store store (err e) = store

unfoldable pub perform : LeaseStore → Operation → LeaseStore
perform store (claims now token scope run_id owner_id ttl) =
    after_pair store (claim_scoped now token scope run_id owner_id ttl store)
perform store (renews now lease ttl) = after_pair store (renew now lease ttl store)
perform store (releases lease) = after_store store (release lease store)

unfoldable pub serve : LeaseStore → List Operation → LeaseStore
serve store [] = store
serve store (o ∷ rest) = serve (perform store o) rest

abbrev pub claim_key : RuntimeScope → String → RunKey
claim_key scope run_id = (storage_key scope, strip run_id)

-- what a claim that returns has done
pub record Claimed (now : ℕ) (token : String) (scope : RuntimeScope) (run_id owner_id : String)
    (store : LeaseStore) (lease : RunLease) (store' : LeaseStore) : Type 0 where
  pub ttl : ℕ
  pub free : held (get store.leases (claim_key scope run_id)) now ≡ none
  pub made : lease ≡ new_lease now token scope (strip run_id) (strip owner_id) ttl store
  pub stored : store' ≡ record {
    leases = put store.leases (claim_key scope run_id) lease;
    generations = put store.generations (claim_key scope run_id) lease.generation;
  }

pub claim_scoped-ok :
    (now : ℕ) (token : String) (scope : RuntimeScope) (run_id owner_id : String) (ttl : ℤ)
    (store : LeaseStore) {lease : RunLease} {store' : LeaseStore}
    → claim_scoped now token scope run_id owner_id ttl store ≡ ok (lease, store')
    → Claimed now token scope run_id owner_id store lease store'
unfolding claim_scoped
claim_scoped-ok now token scope run_id owner_id ttl store h = record {
  ttl = clip ttl;
  free = ground arith;
  made = ground arith;
  stored = ground arith;
}

-- what a renewal that returns has done
pub record Renewed (now : ℕ) (lease : RunLease) (store : LeaseStore) (lease' : RunLease)
    (store' : LeaseStore) : Type 0 where
  pub ttl : ℕ
  pub current : RunLease
  pub found : get store.leases (lease_key lease) ≡ some current
  pub same_token : current.token ≡ lease.token
  pub same_generation : current.generation ≡ lease.generation
  pub alive : now < current.expires_at
  pub made : lease' ≡ record current { expires_at = now + ttl }
  pub stored : store' ≡ record store { leases = put store.leases (lease_key lease) lease' }

pub renew-ok :
    (now : ℕ) (lease : RunLease) (ttl : ℤ) (store : LeaseStore) {lease' : RunLease}
    {store' : LeaseStore}
    → renew now lease ttl store ≡ ok (lease', store')
    → Renewed now lease store lease' store'
unfolding renew
renew-ok now lease ttl store h = elim (Option-cases (get store.leases (lease_key lease))) [
  | inl e ↦ absurd (ground (arith, e))
  | inr (current, e) ↦ record {
    ttl = clip ttl;
    current = current;
    found = e;
    same_token = ground (arith, e, eq_iff current.token lease.token);
    same_generation = ground (arith, e);
    alive = ground (arith, e);
    made = ground (arith, e);
    stored = ground (arith, e);
  }
]

-- what a release that returns has done
pub data Released (lease : RunLease) (store store' : LeaseStore) : Type 0 where
  nothing_held :
      get store.leases (lease_key lease) ≡ none → store' ≡ store → Released lease store store'
  gave_back :
      (current : RunLease)
      → get store.leases (lease_key lease) ≡ some current
      → current.token ≡ lease.token
      → current.generation ≡ lease.generation
      → store' ≡ record store { leases = remove store.leases (lease_key lease) }
      → Released lease store store'

pub release-ok :
    (lease : RunLease) (store : LeaseStore) {store' : LeaseStore}
    → release lease store ≡ ok store'
    → Released lease store store'
unfolding release
release-ok lease store h = elim (Option-cases (get store.leases (lease_key lease))) [
  | inl e ↦ nothing_held e (ground (arith, e))
  | inr (current, e) ↦
      gave_back current e (ground (arith, e, eq_iff current.token lease.token)) (ground (arith, e))
        (ground (arith, e))
]

-- ===== src/Leases/Guard.antt =====
-- `RunLeaseGuard`: it claims a lease, and a thread of it renews the lease until the guard is left. The
-- guard is over the in-memory store, so the operation that it claims with is `claim_scoped`. A round of
-- the thread (`beat`), entering and leaving are steps on the store and the guard; the thread is taken to
-- have ended when the guard is left, as `join` means it to.
pub mod Keeping
pub mod Losing
use deepkeel.Base.{
  ℕ, String, Bool, true, false, not, ◌||◌, Option, none, some, Result, ok, err, ◌>>=◌, ◌>>◌,
  raise_if, if◌then◌else◌, string_eq,
}
use deepkeel.Base.Int.{ℤ, pos}
use deepkeel.Scope.{RuntimeScope}
use deepkeel.Leases.Store.{
  LeaseError, lease_lost, RunLease, LeaseStore, validated_ttl, claim_scoped, renew, release,
}

pub record RunLeaseGuard : Type 0 where
  pub run_id : String
  pub owner_id : String
  pub ttl : ℕ
  pub scope : RuntimeScope
  pub lease : Option RunLease
  pub is_stopped : Bool
  -- the thread has been started and has not returned
  pub is_beating : Bool
  pub lost : Option LeaseError

-- __init__
unfoldable pub new_guard : String → String → ℤ → RuntimeScope → Result LeaseError RunLeaseGuard
unfolding validated_ttl
new_guard run_id owner_id ttl_seconds scope = do
  ttl ← validated_ttl ttl_seconds
  ok (record {
    run_id = run_id;
    owner_id = owner_id;
    ttl = ttl;
    scope = scope;
    lease = none;
    is_stopped = false;
    is_beating = false;
    lost = none;
  })

-- __enter__
unfoldable pub enter :
    ℕ → String → LeaseStore → RunLeaseGuard → Result LeaseError (LeaseStore × RunLeaseGuard)
enter now token store self = do
  (lease, store') ← claim_scoped now token self.scope self.run_id self.owner_id (pos self.ttl) store
  ok (store', record self { lease = some lease; is_beating = true })

-- what a round does with the result of the renewal
abbrev pub after_renewal :
    LeaseStore
    → RunLeaseGuard
    → Result LeaseError (RunLease × LeaseStore)
    → LeaseStore × RunLeaseGuard
after_renewal store self (ok (renewed, store')) = (store', record self { lease = some renewed })
after_renewal store self (err e) = (store, record self { lost = some e; is_beating = false })

abbrev pub renew_own : ℕ → LeaseStore → RunLeaseGuard → Option RunLease → LeaseStore × RunLeaseGuard
renew_own now store self none = (store, record self { is_beating = false })
renew_own now store self (some lease) =
    after_renewal store self (renew now lease (pos self.ttl) store)

-- a round of _heartbeat, after its wait; `while not self._stop.wait(interval)`
unfoldable pub beat : ℕ → LeaseStore → RunLeaseGuard → LeaseStore × RunLeaseGuard
beat now store self =
    if not self.is_beating || self.is_stopped
    then (store, record self { is_beating = false })
    else renew_own now store self self.lease

-- `except RunLeaseLost: pass`; a release raises nothing else
abbrev pub released_or : LeaseStore → Result LeaseError LeaseStore → LeaseStore
released_or store (ok store') = store'
released_or store (err e) = store

abbrev pub release_own : LeaseStore → Option RunLease → LeaseStore
release_own store none = store
release_own store (some lease) = released_or store (release lease store)

-- __exit__
unfoldable pub exit : LeaseStore → RunLeaseGuard → LeaseStore × RunLeaseGuard
exit store self =
    (release_own store self.lease, record self { is_stopped = true; is_beating = false })

abbrev pub raise_lost : Option LeaseError → Result LeaseError (Unit {0})
raise_lost none = ok tt
raise_lost (some e) = err lease_lost

unfoldable pub raise_if_lost : RunLeaseGuard → Result LeaseError (Unit {0})
raise_if_lost self = raise_lost self.lost

abbrev pub token_of : Option RunLease → String
token_of none = ""
token_of (some lease) = lease.token

abbrev pub generation_of : Option RunLease → ℕ
generation_of none = 0
generation_of (some lease) = lease.generation

-- the `token` and `generation` that the run shows to the state store
unfoldable pub guard_token : RunLeaseGuard → String
guard_token self = token_of self.lease

unfoldable pub guard_generation : RunLeaseGuard → ℕ
guard_generation self = generation_of self.lease

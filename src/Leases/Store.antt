-- ===== src/Leases/Store.antt =====
-- `InMemoryRunLeaseStore`. Times are `datetime`s: whole microseconds. A ttl is a number of seconds in
-- the source; here it is that time in microseconds, as `timedelta` keeps it.
use deepkeel.Base.{
  ℕ, ◌+◌, String, Bool, not, ◌&&◌, ◌||◌, Option, none, some, Result, ok, err, raise_if, ◌>>=◌, ◌>>◌,
  if◌then◌else◌, ◌==◌, string_eq, nat_eq, pair_eq, leb, ltb,
}
use deepkeel.Base.Int.{ℤ, pos, clip, leb_ℤ}
use deepkeel.Base.Dict.{Dict, empty, get, put, remove}
use deepkeel.Base.Text.{strip}
use deepkeel.Scope.{RuntimeScope, RunKey, storage_key, default_scope}

pub data LeaseError : Type 0 where
  run_id_required : LeaseError
  owner_id_required : LeaseError
  ttl_not_positive : LeaseError
  lease_conflict : String → LeaseError
  lease_lost : LeaseError
  lease_replaced : LeaseError

pub record RunLease : Type 0 where
  pub run_id : String
  pub owner_id : String
  pub token : String
  pub acquired_at : ℕ
  pub expires_at : ℕ
  pub generation : ℕ
  pub scope : RuntimeScope

-- InMemoryRunLeaseStore
pub record LeaseStore : Type 0 where
  pub leases : Dict RunKey RunLease
  pub generations : Dict RunKey ℕ

abbrev pub new_lease_store : LeaseStore
new_lease_store = record { leases = empty; generations = empty }

abbrev pub lease_key : RunLease → RunKey
lease_key lease = (storage_key lease.scope, lease.run_id)

-- _validated_ttl
unfoldable pub validated_ttl : ℤ → Result LeaseError ℕ
validated_ttl ttl = if leb_ℤ ttl (pos 0) then err ttl_not_positive else ok (clip ttl)

abbrev pub or_zero : Option ℕ → ℕ
or_zero none = 0
or_zero (some n) = n

-- self._generations.get(key, 0)
unfoldable pub generation_at : LeaseStore → RunKey → ℕ
generation_at store key = or_zero (get store.generations key)

-- `current is not None and current.expires_at > now`
abbrev pub held : Option RunLease → ℕ → Option RunLease
held none now = none
held (some current) now = if ltb now current.expires_at then some current else none

abbrev pub if_not_held :
    Option RunLease
    → Result LeaseError (RunLease × LeaseStore)
    → Result LeaseError (RunLease × LeaseStore)
if_not_held none rest = rest
if_not_held (some current) rest = err (lease_conflict current.owner_id)

unfoldable pub new_lease : ℕ → String → RuntimeScope → String → String → ℕ → LeaseStore → RunLease
new_lease now token scope run_id owner_id ttl store = record {
  run_id = run_id;
  owner_id = owner_id;
  token = token;
  acquired_at = now;
  expires_at = now + ttl;
  generation = generation_at store (storage_key scope, run_id) + 1;
  scope = scope;
}

unfoldable pub claim_scoped :
    ℕ
    → String
    → RuntimeScope
    → String
    → String
    → ℤ
    → LeaseStore
    → Result LeaseError (RunLease × LeaseStore)
unfolding validated_ttl
claim_scoped now token scope run_id owner_id ttl_seconds store =
    let normalized_run_id = strip run_id in
    let normalized_owner = strip owner_id in
    let key : RunKey = (storage_key scope, normalized_run_id) in
    do
      raise_if (normalized_run_id == "") run_id_required
      raise_if (normalized_owner == "") owner_id_required
      ttl ← validated_ttl ttl_seconds
      let lease = new_lease now token scope normalized_run_id normalized_owner ttl store
      if_not_held (held (get store.leases key) now) (
          ok (
            lease,
            record {
              leases = put store.leases key lease;
              generations = put store.generations key lease.generation;
            },
          ))

claim : ℕ → String → String → String → ℤ → LeaseStore → Result LeaseError (RunLease × LeaseStore)
unfolding claim_scoped
claim now token run_id owner_id ttl store =
    claim_scoped now token default_scope run_id owner_id ttl store

-- the test of `renew`: the store's lease is the caller's, and has not expired
abbrev pub is_current : RunLease → RunLease → Bool
is_current current lease = current.token == lease.token && current.generation == lease.generation

abbrev pub renew_found :
    ℕ → RunLease → ℕ → LeaseStore → Option RunLease → Result LeaseError (RunLease × LeaseStore)
renew_found now lease ttl store none = err lease_lost
renew_found now lease ttl store (some current) =
    let renewed = record current { expires_at = now + ttl } in
    if not (is_current current lease) || leb current.expires_at now
    then err lease_lost
    else ok (renewed, record store { leases = put store.leases (lease_key lease) renewed })

unfoldable pub renew : ℕ → RunLease → ℤ → LeaseStore → Result LeaseError (RunLease × LeaseStore)
unfolding validated_ttl
renew now lease ttl_seconds store = do
  ttl ← validated_ttl ttl_seconds
  renew_found now lease ttl store (get store.leases (lease_key lease))

abbrev pub release_found : RunLease → LeaseStore → Option RunLease → Result LeaseError LeaseStore
release_found lease store none = ok store
release_found lease store (some current) =
    if is_current current lease
    then ok (record store { leases = remove store.leases (lease_key lease) })
    else err lease_replaced

unfoldable pub release : RunLease → LeaseStore → Result LeaseError LeaseStore
release lease store = release_found lease store (get store.leases (lease_key lease))

unfoldable pub inspect_scoped : ℕ → String → RuntimeScope → LeaseStore → Option RunLease
inspect_scoped now run_id scope store = held (get store.leases (storage_key scope, run_id)) now

inspect : ℕ → String → LeaseStore → Option RunLease
unfolding inspect_scoped
inspect now run_id store = inspect_scoped now run_id default_scope store

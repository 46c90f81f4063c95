-- ===== src/Leases/GuardExamples.antt =====
-- The theorems of the lease guard, each at a concrete input.
use deepkeel.Base.{
  ℕ, ◌≡◌, refl, none, some, true, false, ok, err, List, [], ◌∷◌, arith, string_eq, pair_eq,
  ne_of_beq, Result, String,
}
use deepkeel.Base.Int.{pos}
use deepkeel.Base.Dict.{get, put, empty, remove}
use deepkeel.Base.Text.{strip}
use deepkeel.Scope.{storage_key, default_scope}
use deepkeel.Leases.Store.{
  RunLease, LeaseStore, new_lease_store, claim_scoped, renew, release, new_lease, generation_at,
  validated_ttl, LeaseError, lease_key, lease_lost,
}
use deepkeel.Leases.Histories.{Operation, claims, releases, perform}
use deepkeel.Leases.Guard.{
  RunLeaseGuard, new_guard, enter, beat, exit, raise_if_lost, guard_token, guard_generation,
}
use deepkeel.Leases.Guard.Keeping.{GuardStep, others, beats, proceed, guard_keeps_lease}
use deepkeel.Leases.Guard.Losing.{takeover_is_noticed}

-- `proceed`, `enter` and `exit`, with all that they call open
runs : LeaseStore → RunLeaseGuard → List GuardStep → LeaseStore × RunLeaseGuard
unfolding proceed beat perform claim_scoped renew release new_lease generation_at get put remove
    empty strip storage_key
runs = proceed

enters : ℕ → String → LeaseStore → RunLeaseGuard → Result LeaseError (LeaseStore × RunLeaseGuard)
unfolding enter claim_scoped new_lease generation_at get put empty strip storage_key new_guard
    validated_ttl
enters = enter

abbrev guard_a : RunLeaseGuard
guard_a = record {
  run_id = "run";
  owner_id = "a";
  ttl = 10;
  scope = default_scope;
  lease = none;
  is_stopped = false;
  is_beating = false;
  lost = none;
}

abbrev lease_a : RunLease
lease_a = record {
  run_id = "run";
  owner_id = "a";
  token = "t1";
  acquired_at = 100;
  expires_at = 110;
  generation = 1;
  scope = default_scope;
}

abbrev entered_a : RunLeaseGuard
entered_a = record guard_a { lease = some lease_a; is_beating = true }

abbrev store_of : RunLease → LeaseStore
store_of lease = record {
  leases = record { entries = (lease_key lease, lease) ∷ [] };
  generations = record { entries = (lease_key lease, lease.generation) ∷ [] };
}

abbrev claim_b : ℕ → Operation
claim_b now = claims now "t2" default_scope "run" "b" (pos 10)

-- a round that comes too late has lost the lease
late : (runs (store_of lease_a) entered_a (beats 110 ∷ [])).1.lost ≡ some lease_lost
unfolding runs
late = refl

-- leaving a guard gives the lease back
left : (exit (store_of lease_a) entered_a).0.leases ≡ empty
unfolding exit release get remove storage_key empty
left = refl

guard_keeps_lease_example :
    let (store, self) =
      proceed
        (store_of lease_a)
        entered_a
        (others (claim_b 105) ∷ beats 107 ∷ others (claim_b 112) ∷ []) in
    (raise_if_lost self ≡ ok tt)
    × (guard_token self ≡ "t1")
    × (guard_generation self ≡ 1)
    × ((current : RunLease) × (get store.leases (lease_key lease_a) ≡ some current)
        × (current.token ≡ "t1")
        × (current.generation ≡ 1))
unfolding enters
guard_keeps_lease_example =
    guard_keeps_lease 100 "t1" "run" "a" (pos 10) default_scope new_lease_store (store_of lease_a)
      guard_a entered_a lease_a (others (claim_b 105) ∷ beats 107 ∷ others (claim_b 112) ∷ []) refl
      refl refl (omega arith, (omega arith, (omega arith, tt)))

abbrev lease_b : RunLease
lease_b = record lease_a {
  owner_id = "b";
  token = "t2";
  acquired_at = 110;
  expires_at = 120;
  generation = 2;
}

takeover_is_noticed_example :
    ((proceed (store_of lease_b) entered_a (beats 112 ∷ [])).0 ≡ store_of lease_b)
    × (raise_if_lost
          (proceed (store_of lease_b) entered_a (beats 112 ∷ others (releases lease_b) ∷ [])).1
        ≡ err lease_lost)
unfolding get storage_key
takeover_is_noticed_example =
    takeover_is_noticed 112 (store_of lease_b) entered_a lease_a lease_b
      (others (releases lease_b) ∷ []) refl refl refl (omega arith) refl (ne_of_beq refl)

-- ===== src/Leases/Examples.antt =====
-- Tests of the lease store, and each of its theorems at a concrete input.
use deepkeel.Base.{
  ℕ, ◌<◌, ◌≡◌, refl, some, ok, err, List, [], ◌∷◌, arith, string_eq, pair_eq, ne_of_beq,
}
use deepkeel.Base.Int.{pos}
use deepkeel.Base.Dict.{get, put, empty, remove}
use deepkeel.Base.Text.{strip}
use deepkeel.Scope.{storage_key, default_scope}
use deepkeel.Leases.Store.{
  RunLease, LeaseStore, new_lease_store, claim_scoped, renew, release, new_lease, generation_at,
  lease_conflict,
}
use deepkeel.Leases.Histories.{Operation, claims, renews, releases, serve, perform, claim_key}
use deepkeel.Leases.Consistency.{IsConsistent, IsConsistent-new, reachable-IsConsistent}
use deepkeel.Leases.Takeover.{IsDead, takeover_is_final}
use deepkeel.Leases.Exclusion.{lease_excludes}

-- `serve`, with all that it calls open
computes : LeaseStore → List Operation → LeaseStore
unfolding serve perform claim_scoped renew release new_lease generation_at get put remove empty
    strip storage_key
computes = serve

-- worker a's lease of a run, for ten units of time from 100 on
abbrev lease_a : RunLease
lease_a = record {
  run_id = "run";
  owner_id = "a";
  token = "t1";
  acquired_at = 100;
  expires_at = 110;
  generation = 1;
  scope = default_scope;
}

abbrev claim_b : ℕ → Operation
claim_b now = claims now "t2" default_scope "run" "b" (pos 10)

abbrev store_a : LeaseStore
store_a = serve new_lease_store (claims 100 "t1" default_scope " run " "a" (pos 10) ∷ [])

abbrev lease_b : RunLease
lease_b = record lease_a {
  owner_id = "b";
  token = "t2";
  acquired_at = 110;
  expires_at = 120;
  generation = 2;
}

-- a claim before the expiry fails, and one at the expiry takes over
taken_over :
    (get (serve store_a (claim_b 109 ∷ [])).leases (claim_key default_scope "run") ≡ some lease_a)
    × (get (serve store_a (claim_b 110 ∷ [])).leases (claim_key default_scope "run") ≡ some lease_b)
unfolding computes
taken_over = (refl, refl)

reachable-IsConsistent_example : IsConsistent (serve new_lease_store (claim_b 1 ∷ claim_b 20 ∷ []))
reachable-IsConsistent_example = reachable-IsConsistent (claim_b 1 ∷ claim_b 20 ∷ [])

takeover_is_final_example :
    (1 < 2)
    × IsDead lease_a (serve (serve store_a (claim_b 110 ∷ [])) (renews 111 lease_b (pos 10) ∷ []))
unfolding computes
takeover_is_final_example =
    takeover_is_final new_lease_store 100 110 "t1" "t2" default_scope default_scope " run " "run"
      "a" "b" (pos 10) (pos 10) [] (renews 111 lease_b (pos 10) ∷ []) IsConsistent-new refl refl
      refl

lease_excludes_example :
    let later = serve store_a (claim_b 109 ∷ releases lease_b ∷ []) in
    (claim_scoped 109 "t2" default_scope " run " "b" (pos 10) later ≡ err (lease_conflict "a"))
    × ((renewed : RunLease × LeaseStore) × (renew 109 lease_a (pos 10) later ≡ ok renewed))
unfolding computes
lease_excludes_example =
    lease_excludes new_lease_store 100 "t1" default_scope " run " "a" (pos 10)
      (claim_b 109 ∷ releases lease_b ∷ []) 109 "t2" "b" (pos 10) refl
      (omega arith, (ne_of_beq refl, tt)) (omega arith) (ne_of_beq refl) (ne_of_beq refl)
      (omega arith)

-- ===== src/Leases/Guard/Keeping.antt =====
-- A guard whose rounds come in time keeps its lease.
use deepkeel.Base.{
  ℕ, ◌+◌, ◌≤◌, ◌<◌, String, ◌≡◌, refl, sym, ap, ◌∙◌, true, false, none, some, ok, err, Result-cases,
  inl, inr, List, [], ◌∷◌, arith, ◌==◌, string_eq, nat_eq, pair_eq, beq_refl,
}
use deepkeel.Base.Int.{ℤ, pos}
use deepkeel.Base.Dict.{get, get-put}
use deepkeel.Scope.{RuntimeScope}
use deepkeel.Leases.Store.{RunLease, LeaseStore, LeaseError, lease_key, claim_scoped}
use deepkeel.Leases.Histories.{Operation, perform, claim_scoped-ok}
use deepkeel.Leases.Exclusion.{IsForeign, Holds, perform-Holds, Holds-Claimed, renew_of_held}
use deepkeel.Leases.Guard.{
  RunLeaseGuard, new_guard, enter, beat, raise_if_lost, guard_token, guard_generation,
}

-- what happens around a guard: a call of another worker, or a round of its thread
pub data GuardStep : Type 0 where
  others : Operation → GuardStep
  beats : ℕ → GuardStep

unfoldable pub proceed : LeaseStore → RunLeaseGuard → List GuardStep → LeaseStore × RunLeaseGuard
proceed store self [] = (store, self)
proceed store self (others operation ∷ rest) = proceed (perform store operation) self rest
proceed store self (beats now ∷ rest) =
    let (store', self') = beat now store self in proceed store' self' rest

-- Each round comes before the lease expires, which the round before has put off; and the other workers
-- claim the run at no later time, and do not show the lease's token.
abbrev pub IsInTime : ℕ → RunLease → List GuardStep → Type 0
IsInTime ttl lease [] = Unit
IsInTime ttl lease (others operation ∷ rest) = IsForeign lease operation × IsInTime ttl lease rest
IsInTime ttl lease (beats now ∷ rest) =
    (now < lease.expires_at) × IsInTime ttl (record lease { expires_at = now + ttl }) rest

-- the guard has a lease, which the store holds, and its thread goes on
record IsKeeping (lease : RunLease) (store : LeaseStore) (self : RunLeaseGuard) : Type 0 where
  pub owned : self.lease ≡ some lease
  pub held : Holds lease store
  pub beating : self.is_beating ≡ true
  pub not_stopped : self.is_stopped ≡ false
  pub not_lost : self.lost ≡ none
  pub positive : 1 ≤ self.ttl

beat-IsKeeping :
    (lease : RunLease) (store : LeaseStore) (self : RunLeaseGuard) (now : ℕ)
    → now < lease.expires_at
    → IsKeeping lease store self
    → IsKeeping
        (record lease { expires_at = now + self.ttl })
        (beat now store self).0
        (beat now store self).1
      × ((beat now store self).1.ttl ≡ self.ttl)
unfolding beat
beat-IsKeeping lease store self now early k =
    let here : (lease_key lease == lease_key lease) ≡ true = beq_refl (lease_key lease) in
    let renews =
      renew_of_held now (pos self.ttl) store lease k.held early (omega (arith, k.positive)) in
    rw (k.beating, k.not_stopped, k.owned, renews)
      (
        record {
          owned = refl;
          held = rw get-put (rw here refl);
          beating = refl;
          not_stopped = refl;
          not_lost = k.not_lost;
          positive = k.positive;
        },
        refl,
      )

-- a lease, with another expiry perhaps, that the store and the guard have
record Keeps (lease : RunLease) (after : LeaseStore × RunLeaseGuard) : Type 0 where
  pub current : RunLease
  pub keeping : IsKeeping current after.0 after.1
  pub same_key : lease_key current ≡ lease_key lease
  pub same_token : current.token ≡ lease.token
  pub same_generation : current.generation ≡ lease.generation

proceed-Keeps :
    (lease : RunLease) (store : LeaseStore) (self : RunLeaseGuard) (steps : List GuardStep)
    → IsInTime self.ttl lease steps
    → IsKeeping lease store self
    → Keeps lease (proceed store self steps)
unfolding proceed
proceed-Keeps lease store self [] in_time k = record {
  current = lease;
  keeping = k;
  same_key = refl;
  same_token = refl;
  same_generation = refl;
}
proceed-Keeps lease store self (others operation ∷ rest) (foreign, in_time) k =
    proceed-Keeps lease (perform store operation) self rest in_time (record {
      owned = k.owned;
      held = perform-Holds store lease operation foreign k.held;
      beating = k.beating;
      not_stopped = k.not_stopped;
      not_lost = k.not_lost;
      positive = k.positive;
    })
proceed-Keeps lease store self (beats now ∷ rest) (early, in_time) k =
    let (kept, same_ttl) = beat-IsKeeping lease store self now early k in
    let more =
      proceed-Keeps (record lease { expires_at = now + self.ttl }) (beat now store self).0
        (beat now store self).1 rest (rw same_ttl in_time) kept in
    record {
      current = more.current;
      keeping = more.keeping;
      same_key = more.same_key;
      same_token = more.same_token;
      same_generation = more.same_generation;
    }

-- what a new guard has
new_guard-ok :
    (run_id owner_id : String) (ttl : ℤ) (scope : RuntimeScope) (self : RunLeaseGuard)
    → new_guard run_id owner_id ttl scope ≡ ok self
    → (self.is_stopped ≡ false) × (self.lost ≡ none) × (1 ≤ self.ttl)
unfolding new_guard
new_guard-ok run_id owner_id ttl scope self made =
    (ground (arith, made), ground (arith, made), ground (arith, made))

enter-claimed :
    (now : ℕ) (token : String) (store after : LeaseStore) (self : RunLeaseGuard) (lease : RunLease)
    → claim_scoped now token self.scope self.run_id self.owner_id (pos self.ttl) store
      ≡ ok (lease, after)
    → enter now token store self ≡ ok (after, record self { lease = some lease; is_beating = true })
unfolding enter
enter-claimed now token store after self lease e = rw e refl

enter-refused :
    (now : ℕ) (token : String) (store : LeaseStore) (self : RunLeaseGuard) (error : LeaseError)
    → claim_scoped now token self.scope self.run_id self.owner_id (pos self.ttl) store ≡ err error
    → enter now token store self ≡ err error
unfolding enter
enter-refused now token store self error e = rw e refl

enter-IsKeeping :
    (now : ℕ) (token run_id owner_id : String) (ttl : ℤ) (scope : RuntimeScope)
    (store store' : LeaseStore) (self self' : RunLeaseGuard) (lease : RunLease)
    → new_guard run_id owner_id ttl scope ≡ ok self
    → enter now token store self ≡ ok (store', self')
    → self'.lease ≡ some lease
    → IsKeeping lease store' self' × (self'.ttl ≡ self.ttl)
enter-IsKeeping now token run_id owner_id ttl scope store store' self self' lease made enters
      owned =
    let call = claim_scoped now token self.scope self.run_id self.owner_id (pos self.ttl) store in
    let (not_stopped, not_lost, positive) = new_guard-ok run_id owner_id ttl scope self made in
    elim (Result-cases call) [
      | inl ((claimed, after), e) ↦
          let shape = sym (enter-claimed now token store after self claimed e) ∙ enters in
          let store_is : after ≡ store' = cc shape in
          let self_is : (record self { lease = some claimed; is_beating = true }) ≡ self' =
            cc shape in
          let same : claimed ≡ lease = cc (ap (λ (g : RunLeaseGuard). g.lease) self_is, owned) in
          let holds : Holds claimed after = Holds-Claimed (
            claim_scoped-ok now token self.scope self.run_id self.owner_id (pos self.ttl) store
              e) in
          rw (sym self_is, sym store_is, sym same)
            (
              record {
                owned = refl;
                held = holds;
                beating = refl;
                not_stopped = not_stopped;
                not_lost = not_lost;
                positive = positive;
              },
              refl,
            )
      | inr (error, e) ↦
          let shape = sym (enter-refused now token store self error e) ∙ enters in absurd (cc shape)
    ]

-- A guard that was just made and entered, and whose thread renews the lease each time before it
-- expires, keeps it: whatever other workers do meanwhile, as long as they show other tokens and
-- claim at no time after the expiry, `raise_if_lost` does not raise, the guard's token and generation stay
-- those of the lease it claimed, and the store has a lease of that token and generation for the run.
pub guard_keeps_lease :
    (now : ℕ) (token run_id owner_id : String) (ttl : ℤ) (scope : RuntimeScope)
    (store store' : LeaseStore) (self self' : RunLeaseGuard) (lease : RunLease)
    (steps : List GuardStep)
    → new_guard run_id owner_id ttl scope ≡ ok self
    → enter now token store self ≡ ok (store', self')
    → self'.lease ≡ some lease
    → IsInTime self.ttl lease steps
    → let (store'', self'') = proceed store' self' steps in
      (raise_if_lost self'' ≡ ok tt)
      × (guard_token self'' ≡ lease.token)
      × (guard_generation self'' ≡ lease.generation)
      × ((current : RunLease) × (get store''.leases (lease_key lease) ≡ some current)
          × (current.token ≡ lease.token)
          × (current.generation ≡ lease.generation))
unfolding raise_if_lost guard_token guard_generation
guard_keeps_lease now token run_id owner_id ttl scope store store' self self' lease steps made
      enters owned in_time =
    let (keeping, same_ttl) =
      enter-IsKeeping now token run_id owner_id ttl scope store store' self self' lease made enters
        owned in
    let kept = proceed-Keeps lease store' self' steps (rw same_ttl in_time) keeping in
    (
      rw kept.keeping.not_lost refl,
      rw kept.keeping.owned kept.same_token,
      rw kept.keeping.owned kept.same_generation,
      (
        kept.current,
        rw (sym kept.same_key) kept.keeping.held,
        kept.same_token,
        kept.same_generation,
      ),
    )

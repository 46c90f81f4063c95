-- ===== src/Leases/Guard/Losing.antt =====
-- A guard whose run another worker has taken over.
use deepkeel.Base.{
  ℕ, ◌≤◌, ◌≡◌, ◌≢◌, refl, ap, ◌∙◌, true, false, some, err, List, [], ◌∷◌, arith, string_eq, nat_eq,
  pair_eq, eq_iff,
}
use deepkeel.Base.Int.{pos}
use deepkeel.Base.Dict.{get}
use deepkeel.Leases.Store.{RunLease, LeaseStore, lease_lost, lease_key, renew}
use deepkeel.Leases.Histories.{perform}
use deepkeel.Leases.Guard.{RunLeaseGuard, beat, raise_if_lost}
use deepkeel.Leases.Guard.Keeping.{GuardStep, others, beats, proceed}

-- the store's lease of the guard's run is another's
renew_of_taken :
    (now ttl : ℕ) (store : LeaseStore) (lease taken : RunLease)
    → 1 ≤ ttl
    → get store.leases (lease_key lease) ≡ some taken
    → taken.token ≢ lease.token
    → renew now lease (pos ttl) store ≡ err lease_lost
unfolding renew
renew_of_taken now ttl store lease taken positive found other =
    ground (arith, found, eq_iff taken.token lease.token)

-- a guard that has noticed its loss
record HasLost (self : RunLeaseGuard) : Type 0 where
  pub lost : self.lost ≡ some lease_lost
  pub ended : self.is_beating ≡ false

beat_of_lost :
    (now : ℕ) (store : LeaseStore) (self : RunLeaseGuard)
    → HasLost self
    → ((beat now store self).0 ≡ store) × HasLost (beat now store self).1
unfolding beat
beat_of_lost now store self h = rw h.ended (refl, record { lost = h.lost; ended = refl })

proceed-HasLost :
    (store : LeaseStore) (self : RunLeaseGuard) (steps : List GuardStep)
    → HasLost self
    → HasLost (proceed store self steps).1
unfolding proceed
proceed-HasLost store self [] h = h
proceed-HasLost store self (others operation ∷ rest) h =
    proceed-HasLost (perform store operation) self rest h
proceed-HasLost store self (beats now ∷ rest) h =
    proceed-HasLost (beat now store self).0 (beat now store self).1 rest
      (beat_of_lost now store self h).1

beat_of_taken :
    (now : ℕ) (store : LeaseStore) (self : RunLeaseGuard) (lease taken : RunLease)
    → self.lease ≡ some lease
    → self.is_beating ≡ true
    → self.is_stopped ≡ false
    → 1 ≤ self.ttl
    → get store.leases (lease_key lease) ≡ some taken
    → taken.token ≢ lease.token
    → beat now store self ≡ (store, record self { lost = some lease_lost; is_beating = false })
unfolding beat
beat_of_taken now store self lease taken owned beating not_stopped positive found other =
    rw
      (
        beating,
        not_stopped,
        owned,
        renew_of_taken now self.ttl store lease taken positive found other,
      )
      refl

proceed-beat :
    (now : ℕ) (store store' : LeaseStore) (self self' : RunLeaseGuard) (steps : List GuardStep)
    → beat now store self ≡ (store', self')
    → proceed store self (beats now ∷ steps) ≡ proceed store' self' steps
unfolding proceed
proceed-beat now store store' self self' steps e = rw e refl

raise_if_lost_lem : (self : RunLeaseGuard) → HasLost self → raise_if_lost self ≡ err lease_lost
unfolding raise_if_lost
raise_if_lost_lem self h = rw h.lost refl

-- When the store has another worker's lease for the run of a guard whose thread goes on, the next round of
-- the thread leaves the store as it is, and from then on, whatever follows, `raise_if_lost` raises.
pub takeover_is_noticed :
    (now : ℕ) (store : LeaseStore) (self : RunLeaseGuard) (lease taken : RunLease)
    (steps : List GuardStep)
    → self.lease ≡ some lease
    → self.is_beating ≡ true
    → self.is_stopped ≡ false
    → 1 ≤ self.ttl
    → get store.leases (lease_key lease) ≡ some taken
    → taken.token ≢ lease.token
    → ((proceed store self (beats now ∷ [])).0 ≡ store)
      × (raise_if_lost (proceed store self (beats now ∷ steps)).1 ≡ err lease_lost)
unfolding proceed
takeover_is_noticed now store self lease taken steps owned beating not_stopped positive found
      other =
    let e =
      beat_of_taken now store self lease taken owned beating not_stopped positive found other in
    let after : RunLeaseGuard = record self { lost = some lease_lost; is_beating = false } in
    let lost = proceed-HasLost store after steps (record { lost = refl; ended = refl }) in
    (
      rw e refl,
      ap raise_if_lost (
            ap (λ (p : LeaseStore × RunLeaseGuard). p.1)
              (proceed-beat now store store self after steps e))
          ∙ raise_if_lost_lem (proceed store after steps).1 lost,
    )

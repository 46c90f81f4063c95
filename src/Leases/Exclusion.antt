-- ===== src/Leases/Exclusion.antt =====
-- Mutual exclusion: what other workers can do while a lease has not expired.
use deepkeel.Base.{
  ℕ, ◌+◌, ◌<◌, String, ◌≡◌, ◌≢◌, refl, sym, ap, ◌∙◌, inl, inr, Bool-cases, Option, some, ok, err,
  Result-cases, List, [], ◌∷◌, All, arith, ◌==◌, string_eq, nat_eq, pair_eq, beq_refl, eq_of_beq,
  eq_iff,
}
use deepkeel.Base.Int.{ℤ, pos, ◌≤ℤ◌, clip}
use deepkeel.Base.Text.{strip}
use deepkeel.Base.Dict.{get, put, get-put, get-remove}
use deepkeel.Scope.{RuntimeScope, RunKey}
use deepkeel.Leases.Store.{
  RunLease, LeaseStore, claim_scoped, renew, release, lease_key, held, new_lease, lease_conflict,
}
use deepkeel.Leases.Histories.{
  Operation, claims, renews, releases, perform, serve, claim_key, Claimed, claim_scoped-ok, Renewed,
  renew-ok, Released, nothing_held, gave_back, release-ok,
}

-- An operation of another worker before the lease expires: a claim before then, or a renewal or a
-- release that shows another token
abbrev pub IsForeign : RunLease → Operation → Type 0
IsForeign lease (claims now token scope run_id owner_id ttl) = now < lease.expires_at
IsForeign lease (renews now other ttl) = other.token ≢ lease.token
IsForeign lease (releases other) = other.token ≢ lease.token

abbrev pub Holds : RunLease → LeaseStore → Type 0
Holds lease store = get store.leases (lease_key lease) ≡ some lease

held-alive :
    (lease : RunLease) (now : ℕ) → now < lease.expires_at → held (some lease) now ≡ some lease
held-alive lease now h = ground arith

Claimed-Holds :
    {now : ℕ} {token : String} {scope : RuntimeScope} {run_id owner_id : String}
    {store store' : LeaseStore} {other : RunLease} (lease : RunLease)
    → now < lease.expires_at
    → Claimed now token scope run_id owner_id store other store'
    → Holds lease store
    → Holds lease store'
Claimed-Holds {now} {scope = scope} {run_id = run_id} {store = store} lease early c h =
    rw c.stored (
      rw get-put (elim (Bool-cases (claim_key scope run_id == lease_key lease)) [
        | inl e ↦
            let same : claim_key scope run_id ≡ lease_key lease = eq_of_beq e in
            absurd (
              cc (
                c.free,
                ap (λ (k : RunKey). held (get store.leases k) now) same,
                ap (λ (o : Option RunLease). held o now) h,
                held-alive lease now early,
              ))
        | inr e ↦ rw e h
      ]))

-- what is found under a held lease's key is that lease
the_lease :
    (lease : RunLease) (key : RunKey) (store : LeaseStore) (current : RunLease)
    → key ≡ lease_key lease
    → get store.leases key ≡ some current
    → Holds lease store
    → current ≡ lease
the_lease lease key store current same found h =
    cc (ap (λ (k : RunKey). get store.leases k) same, found, h)

Renewed-Holds :
    {now : ℕ} {other other' : RunLease} {store store' : LeaseStore} (lease : RunLease)
    → other.token ≢ lease.token
    → Renewed now other store other' store'
    → Holds lease store
    → Holds lease store'
Renewed-Holds {other = other} {store = store} lease foreign c h = rw c.stored (
    rw get-put (elim (Bool-cases (lease_key other == lease_key lease)) [
      | inl e ↦ absurd (
          foreign (
            sym c.same_token
            ∙ ap (λ (l : RunLease). l.token)
                (the_lease lease (lease_key other) store c.current (eq_of_beq e) c.found h)))
      | inr e ↦ rw e h
    ]))

Released-Holds :
    {other : RunLease} {store store' : LeaseStore} (lease : RunLease)
    → other.token ≢ lease.token
    → Released other store store'
    → Holds lease store
    → Holds lease store'
Released-Holds lease foreign (nothing_held e f) h = rw f h
Released-Holds {other} {store} lease foreign (gave_back current e t g f) h = rw f (
    rw get-remove (elim (Bool-cases (lease_key other == lease_key lease)) [
      | inl b ↦ absurd (
          foreign (
            sym t
            ∙ ap (λ (l : RunLease). l.token)
                (the_lease lease (lease_key other) store current (eq_of_beq b) e h)))
      | inr b ↦ rw b h
    ]))

pub perform-Holds :
    (store : LeaseStore) (lease : RunLease) (o : Operation)
    → IsForeign lease o
    → Holds lease store
    → Holds lease (perform store o)
unfolding perform
perform-Holds store lease (claims now token scope run_id owner_id ttl) f h =
    elim (Result-cases (claim_scoped now token scope run_id owner_id ttl store)) [
      | inl ((other, store'), e) ↦
          rw e
            (Claimed-Holds lease f (claim_scoped-ok now token scope run_id owner_id ttl store e) h)
      | inr (x, e) ↦ rw e h
    ]
perform-Holds store lease (renews now other ttl) f h =
    elim (Result-cases (renew now other ttl store)) [
      | inl ((other', store'), e) ↦ rw e (Renewed-Holds lease f (renew-ok now other ttl store e) h)
      | inr (x, e) ↦ rw e h
    ]
perform-Holds store lease (releases other) f h = elim (Result-cases (release other store)) [
  | inl (store', e) ↦ rw e (Released-Holds lease f (release-ok other store e) h)
  | inr (x, e) ↦ rw e h
]

serve-Holds :
    (store : LeaseStore) (lease : RunLease) (operations : List Operation)
    → All (IsForeign lease) operations
    → Holds lease store
    → Holds lease (serve store operations)
unfolding serve
serve-Holds store lease [] f h = h
serve-Holds store lease (o ∷ rest) (foreign, others) h =
    serve-Holds (perform store o) lease rest others (perform-Holds store lease o foreign h)

pub Holds-Claimed :
    {now : ℕ} {token : String} {scope : RuntimeScope} {run_id owner_id : String}
    {store store' : LeaseStore} {lease : RunLease}
    → Claimed now token scope run_id owner_id store lease store'
    → Holds lease store'
Holds-Claimed {scope = scope} {run_id = run_id} {lease = lease} c = rw c.stored (
    rw get-put (
      rw (
        (pair_eq.equals_iff (claim_key scope run_id) (lease_key lease)).1
          (sym (rw c.made (unfold new_lease in refl))))))

-- a claim of a run whose lease has not expired
claim_of_held :
    (now : ℕ) (token : String) (scope : RuntimeScope) (run_id owner_id : String) (ttl : ℤ)
    (store : LeaseStore) (lease : RunLease)
    → get store.leases (claim_key scope run_id) ≡ some lease
    → now < lease.expires_at
    → strip run_id ≢ ""
    → strip owner_id ≢ ""
    → pos 1 ≤ℤ ttl
    → claim_scoped now token scope run_id owner_id ttl store ≡ err (lease_conflict lease.owner_id)
unfolding claim_scoped
claim_of_held now token scope run_id owner_id ttl store lease h early r o t =
    ground (arith, h, eq_iff (strip run_id) "", eq_iff (strip owner_id) "")

-- a renewal of the lease that the store holds
pub renew_of_held :
    (now : ℕ) (ttl : ℤ) (store : LeaseStore) (lease : RunLease)
    → Holds lease store
    → now < lease.expires_at
    → pos 1 ≤ℤ ttl
    → let renewed : RunLease = record lease { expires_at = now + clip ttl } in
      renew now lease ttl store
      ≡ ok (renewed, record store { leases = put store.leases (lease_key lease) renewed })
unfolding renew
renew_of_held now ttl store lease h early t = ground (arith, h, beq_refl lease.token)

-- A lease excludes other workers until it expires. After a claim has returned a lease, and after
-- any operations by others that come before its expiry and show another token, the store still
-- holds exactly that lease: a claim of the run at any time before the expiry fails and names the
-- lease's owner, and the lease can still be renewed by its holder.
pub lease_excludes :
    (store : LeaseStore) (now : ℕ) (token : String) (scope : RuntimeScope)
    (run_id owner_id : String) (ttl : ℤ) (operations : List Operation) (later : ℕ) (token' : String)
    (owner_id' : String) (ttl' : ℤ) {lease : RunLease} {store' : LeaseStore}
    → claim_scoped now token scope run_id owner_id ttl store ≡ ok (lease, store')
    → All (IsForeign lease) operations
    → later < lease.expires_at
    → strip run_id ≢ ""
    → strip owner_id' ≢ ""
    → pos 1 ≤ℤ ttl'
    → (claim_scoped later token' scope run_id owner_id' ttl' (serve store' operations)
        ≡ err (lease_conflict lease.owner_id))
      × ((renewed : RunLease × LeaseStore) × (renew later lease ttl' (serve store' operations)
            ≡ ok renewed))
lease_excludes store now token scope run_id owner_id ttl operations later token' owner_id' ttl'
      {lease} {store'} claims_it foreign early r o t =
    let c = claim_scoped-ok now token scope run_id owner_id ttl store claims_it in
    let h = serve-Holds store' lease operations foreign (Holds-Claimed c) in
    let same : claim_key scope run_id ≡ lease_key lease = rw c.made (unfold new_lease in refl) in
    (
      claim_of_held later token' scope run_id owner_id' ttl' (serve store' operations) lease
          (rw same h) early r o t,
      (
        (
          record lease { expires_at = later + clip ttl' },
          record (serve store' operations) {
            leases =
                put (serve store' operations).leases (lease_key lease)
                  (record lease { expires_at = later + clip ttl' });
          },
        ),
        renew_of_held later ttl' (serve store' operations) lease h early t,
      ),
    )

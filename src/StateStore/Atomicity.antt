-- ===== src/StateStore/Atomicity.antt =====
-- A commit that raises, and the runs that a commit is not about.
use deepkeel.Base.{
  String, ◌≡◌, ◌≢◌, ◌⊎◌, ap, inl, inr, some, err, if◌then◌else◌, ◌==◌, string_eq, pair_eq, nat_eq,
}
use deepkeel.Base.Int.{int_eq}
use deepkeel.Base.Dict.{get}
use deepkeel.Base.Text.{or_else}
use deepkeel.Base.Objects.{Objects}
use deepkeel.Scope.{RuntimeScope, RunKey, storage_key}
use deepkeel.StateStore.Aggregate.{StateError}
use deepkeel.StateStore.Commit.{States, or_fresh, commit_scoped}
use deepkeel.StateStore.Entries.{get-commit_at_error, get-commit_at_elsewhere}
use deepkeel.StateStore.Histories.{Request, key_of, handle}

-- runs of two tenants, users or namespaces, where a blank user and namespace stand for the defaults,
-- or two runs of one
abbrev pub AreApart : RuntimeScope → String → RuntimeScope → String → Type 0
AreApart scope run_id scope' run_id' =
    (scope.tenant_id ≢ scope'.tenant_id)
    ⊎ ((or_else scope.namespace "default" ≢ or_else scope'.namespace "default")
        ⊎ ((or_else scope.user_id "local-device" ≢ or_else scope'.user_id "local-device")
            ⊎ (run_id ≢ run_id')))

apart_keys :
    (scope scope' : RuntimeScope) (run_id run_id' : String)
    → AreApart scope run_id scope' run_id'
    → ◌≢◌ {A = RunKey} (storage_key scope, run_id) (storage_key scope', run_id')
unfolding storage_key
apart_keys scope scope' run_id run_id' apart e = elim apart [
  | inl tenants ↦ tenants (ap (λ (k : RunKey). k.0.0) e)
  | inr (inl namespaces) ↦ namespaces (ap (λ (k : RunKey). k.0.1.0) e)
  | inr (inr (inl users)) ↦ users (ap (λ (k : RunKey). k.0.1.1) e)
  | inr (inr (inr runs)) ↦ runs (ap (λ (k : RunKey). k.1) e)
]

module _ {Any : Type 0} ⦃py : Objects Any⦄ where
  -- A commit that raises, in its checks, in the reducer or at any of the five points where a failure
  -- is injected after a part of its writes, changes no entry of the store but that of its own run,
  -- and this one only where there was none: it is then the entry of a new run, which is left behind.
  pub commit_atomic :
      (states : States Any) (q : Request Any) {e : StateError} (key : RunKey)
      → (handle states q).0 ≡ err e
      → get (handle states q).1 key
        ≡ (if key_of q == key then some (or_fresh (get states (key_of q))) else get states key)
  unfolding commit_scoped
  commit_atomic states q key h =
      get-commit_at_error q.injector q.now (key_of q) q.mutation states key h

  -- A commit, whatever it returns or raises, leaves the entry of every other run as it is, or missing: of
  -- each run of another tenant, of another namespace or user, a blank one being the default, and of
  -- each run with another id.
  pub commit_isolated :
      (states : States Any) (q : Request Any) (scope : RuntimeScope) (run_id : String)
      → AreApart q.scope q.mutation.run_id scope run_id
      → get (handle states q).1 (storage_key scope, run_id) ≡ get states (storage_key scope, run_id)
  unfolding commit_scoped
  commit_isolated states q scope run_id apart =
      get-commit_at_elsewhere q.injector q.now (key_of q) q.mutation states
        (storage_key scope, run_id) (apart_keys q.scope scope q.mutation.run_id run_id apart)

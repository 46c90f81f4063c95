-- ===== src/StateStore/Queries.antt =====
-- The queries of `InMemoryRuntimeStateStore`: one run's snapshot, and the list of a scope's runs.
use Prim.Native.String.{compare}
use text.Mathlib.Text.{is_lt}
use deepkeel.Base.{
  ℕ, String, Bool, true, false, not, ◌&&◌, ◌||◌, Option, none, some, List, [], ◌∷◌, map, Result, ok,
  ◌>>=◌, if◌then◌else◌, ◌==◌, string_eq, nat_eq, pair_eq, contains, filter, take, ltb, min,
}
use deepkeel.Base.Int.{ℤ, pos, clip, int_eq}
use deepkeel.Base.Dict.{get}
use deepkeel.Base.Text.{or_else, strip}
use deepkeel.Scope.{RuntimeScope, RunKey, storage_key, is_legacy_compatible, scope_of_user}
use deepkeel.StateStore.Status.{normalize_runtime_status}
use deepkeel.StateStore.Aggregate.{StateError, RunStateSnapshot, snapshot}
use deepkeel.StateStore.Memory.{MemoryRuntimeState, Event, Checkpoint, fresh, aggregate}
use deepkeel.StateStore.Commit.{States}

-- What `snapshot_scoped` returns as a `dict`; the fields that may be missing are options.
pub record StateDict (Any : Type 0) : Type 0 where
  pub version : ℕ
  pub sequence : ℕ
  pub status : String
  pub events : List (Event Any)
  pub checkpoints : List (Checkpoint Any)
  pub updated_at : Option ℕ
  pub fence : Option (String × ℤ)

-- {normalize(status) for status in statuses if str(status or "").strip()}
unfoldable pub allowed_statuses : List String → List String
allowed_statuses statuses =
    map normalize_runtime_status (filter (λ status. not (strip status == "")) statuses)

-- max(0, min(int(limit), 10_000))
unfoldable pub ceiling : ℤ → ℕ
ceiling limit = min (clip limit) 10000

abbrev is_empty : List String → Bool
is_empty [] = true
is_empty (_ ∷ _) = false

module _ {Any : Type 0} where
  -- the states of the runs that go by an id in any scope
  unfoldable pub matches :
      String → List (RunKey × MemoryRuntimeState Any) → List (MemoryRuntimeState Any)
  matches run_id [] = []
  matches run_id ((key, state) ∷ rest) =
      let others = matches run_id rest in if key.1 == run_id then state ∷ others else others

  abbrev only : List (MemoryRuntimeState Any) → MemoryRuntimeState Any
  only [] = fresh
  only (state ∷ []) = state
  only (state ∷ _ ∷ _) = fresh

  -- _lookup_state
  unfoldable pub lookup_state : States Any → String → RuntimeScope → MemoryRuntimeState Any
  unfolding is_legacy_compatible storage_key matches
  lookup_state states run_id scope = elim (get states (storage_key scope, run_id)) [
    | some exact ↦ exact
    | none ↦
        if scope.user_id == "local-device" && is_legacy_compatible scope
        then only (matches run_id states.entries)
        else fresh
  ]

  unfoldable pub load_snapshot_scoped :
      States Any → String → RuntimeScope → Result StateError (RunStateSnapshot Any)
  load_snapshot_scoped states run_id scope =
      snapshot (aggregate (lookup_state states run_id scope) run_id)

  load_snapshot : States Any → String → String → Result StateError (RunStateSnapshot Any)
  unfolding load_snapshot_scoped
  load_snapshot states run_id user_id =
      load_snapshot_scoped states run_id (scope_of_user (or_else user_id "local-device"))

  snapshot_scoped : States Any → String → RuntimeScope → StateDict Any
  snapshot_scoped states run_id scope =
      let state = lookup_state states run_id scope in
      record {
        version = state.version;
        sequence = state.sequence;
        status = state.status;
        events = state.events;
        checkpoints = state.checkpoints;
        updated_at = state.updated_at;
        fence =
            if state.fence_generation == pos 0
            then none
            else some (state.fence_token, state.fence_generation);
      }

  unfoldable pub is_listed : RuntimeScope → List String → RunKey → MemoryRuntimeState Any → Bool
  is_listed scope allowed key state =
      key.0 == storage_key scope
      && (is_empty allowed || contains allowed (normalize_runtime_status state.status))

  -- the comprehension of `list_snapshots_scoped`, which may raise in the middle
  unfoldable pub collect :
      RuntimeScope
      → List String
      → List (RunKey × MemoryRuntimeState Any)
      → Result StateError (List (RunStateSnapshot Any))
  collect scope allowed [] = ok []
  collect scope allowed ((key, state) ∷ rest) =
      let others = collect scope allowed rest in
      if is_listed scope allowed key state
      then (do first ← snapshot (aggregate state key.1); more ← others; ok (first ∷ more))
      else others

  -- (a.sequence, a.run_id) < (b.sequence, b.run_id)
  unfoldable pub precedes : RunStateSnapshot Any → RunStateSnapshot Any → Bool
  precedes a b =
      ltb a.sequence b.sequence || (a.sequence == b.sequence && is_lt (compare a.run_id b.run_id))

  unfoldable pub insert_by_recency :
      RunStateSnapshot Any → List (RunStateSnapshot Any) → List (RunStateSnapshot Any)
  insert_by_recency x [] = x ∷ []
  insert_by_recency x (y ∷ ys) =
      let rest = insert_by_recency x ys in if precedes x y then y ∷ rest else x ∷ y ∷ ys

  -- `list.sort(key=…, reverse=True)`, which is stable: any stable sort gives the same list.
  unfoldable pub sort_by_recency : List (RunStateSnapshot Any) → List (RunStateSnapshot Any)
  unfolding insert_by_recency precedes
  sort_by_recency [] = []
  sort_by_recency (x ∷ xs) = insert_by_recency x (sort_by_recency xs)

  unfoldable pub list_snapshots_scoped :
      States Any → RuntimeScope → List String → ℤ → Result StateError (List (RunStateSnapshot Any))
  unfolding allowed_statuses ceiling collect is_listed sort_by_recency
  list_snapshots_scoped states scope statuses limit = do
    snapshots ← collect scope (allowed_statuses statuses) states.entries
    ok (take (ceiling limit) (sort_by_recency snapshots))

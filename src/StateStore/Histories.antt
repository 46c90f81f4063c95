-- ===== src/StateStore/Histories.antt =====
-- Any sequence of commits, to any runs, whatever each of them raises.
use deepkeel.Base.{
  ℕ, ◌+◌, String, ◌≡◌, refl, sym, ap, subst, ◌∙◌, inl, inr, true, false, Bool-cases, none, List, [],
  ◌∷◌, Result, ok, ◌==◌, string_eq, pair_eq, eq_of_beq,
}
use deepkeel.Base.Dict.{get, get-empty, empty}
use deepkeel.Base.Objects.{Objects}
use deepkeel.Scope.{RuntimeScope, RunKey, storage_key}
use deepkeel.StateStore.Status.{is_terminal, is_terminal-or_else}
use deepkeel.StateStore.Aggregate.{StateError, RuntimeStateMutation, RuntimeStateReceipt}
use deepkeel.StateStore.Memory.{MemoryRuntimeState, FailureInjector, fresh, aggregate, checks}
use deepkeel.StateStore.Commit.{States, state_at, commit_scoped}
use deepkeel.StateStore.Applied.{apply-Applied}
use deepkeel.StateStore.Committed.{Made}
use deepkeel.StateStore.Outcome.{Outcome, replayed, refused, committed, commit_at-Outcome}
use deepkeel.StateStore.WellFormed.{IsWellFormed, fresh-IsWellFormed, Made-IsWellFormed}

-- One call of `commit_scoped`
pub record Request (Any : Type 0) : Type 0 where
  pub injector : FailureInjector
  pub now : ℕ
  pub scope : RuntimeScope
  pub mutation : RuntimeStateMutation Any

module _ {Any : Type 0} where
  abbrev pub key_of : Request Any → RunKey
  key_of q = (storage_key q.scope, q.mutation.run_id)

module _ {Any : Type 0} ⦃py : Objects Any⦄ where
  abbrev pub handle : States Any → Request Any → Result StateError RuntimeStateReceipt × States Any
  handle states q = commit_scoped q.injector q.now q.scope q.mutation states

  -- the caller goes on after an exception
  unfoldable pub serve : States Any → List (Request Any) → States Any
  serve states [] = states
  serve states (q ∷ rest) = serve (handle states q).1 rest

  abbrev pub HandleOutcome : States Any → Request Any → Type 0
  HandleOutcome states q = Outcome q.injector q.now (key_of q) q.mutation states (handle states q)

  pub handle-Outcome : (states : States Any) (q : Request Any) → HandleOutcome states q
  unfolding commit_scoped
  handle-Outcome states q = commit_at-Outcome q.injector q.now (key_of q) q.mutation states

  -- What holds of a run's state before a request, and is kept where the run is written to, holds
  -- after any requests.
  module _ (P : MemoryRuntimeState Any → Type 0) (key : RunKey)
      (keeps : (q : Request Any) (s s' : MemoryRuntimeState Any) (r : RuntimeStateReceipt)
        → get s.receipts q.mutation.mutation_id ≡ none
        → checks s q.mutation ≡ ok tt
        → Made (aggregate s q.mutation.run_id) q.now q.mutation s s' r
        → P s
        → P s') where
    handle-keeps :
        (states : States Any) (q : Request Any)
        → HandleOutcome states q
        → P (state_at states key)
        → P (state_at (handle states q).1 key)
    handle-keeps states q (replayed old f e same) h = rw (same key) h
    handle-keeps states q (refused x f e same) h = rw (same key) h
    handle-keeps states q (committed r s' f c made e updates) h =
        rw (updates key) (elim (Bool-cases (key_of q == key)) [
          | inl here ↦ rw here (
              keeps q (state_at states (key_of q)) s' r f c made
                (subst (λ (k : RunKey). P (state_at states k)) (sym (eq_of_beq here)) h))
          | inr elsewhere ↦ rw elsewhere h
        ])

    pub serve-keeps :
        (states : States Any) (requests : List (Request Any))
        → P (state_at states key)
        → P (state_at (serve states requests) key)
    unfolding serve
    serve-keeps states [] h = h
    serve-keeps states (q ∷ rest) h =
        serve-keeps (handle states q).1 rest (handle-keeps states q (handle-Outcome states q) h)

  -- From a well-formed state of a run, any requests lead to one.
  pub serve-IsWellFormed :
      (states : States Any) (requests : List (Request Any)) (key : RunKey)
      → IsWellFormed (state_at states key)
      → IsWellFormed (state_at (serve states requests) key)
  serve-IsWellFormed states requests key h =
      serve-keeps IsWellFormed key
        (λ q s s' r f c made w. Made-IsWellFormed q.mutation.run_id c made w) states requests h

  state_at-empty : (key : RunKey) → state_at {Any = Any} empty key ≡ fresh
  unfolding state_at
  state_at-empty key = rw get-empty

  -- Whatever requests a new store has served, and whatever they raised, the state of every run is
  -- well formed: its version is its sequence number and the length of its journal, the events are
  -- numbered from 1 without a gap, exactly one of them is `run.settled` if the status is terminal
  -- and none otherwise, the status is normalized, no checkpoint is ahead of the journal, the fence
  -- is no negative number, and each receipt is kept under its own id and is not ahead of the run.
  pub reachable-IsWellFormed :
      (requests : List (Request Any)) (key : RunKey)
      → IsWellFormed (state_at (serve empty requests) key)
  reachable-IsWellFormed requests key =
      serve-IsWellFormed empty requests key (rw (state_at-empty key) fresh-IsWellFormed)

  -- A settled run makes no commit.
  Made-open :
      (run_id : String) {now : ℕ} {m : RuntimeStateMutation Any} {s s' : MemoryRuntimeState Any}
      {r : RuntimeStateReceipt}
      → IsWellFormed s
      → Made (aggregate s run_id) now m s s' r
      → is_terminal s.status ≡ false
  unfolding aggregate
  Made-open run_id {m = m} {s = s} w made =
      sym (is_terminal-or_else s.status)
      ∙ ap is_terminal (sym w.normalized)
      ∙ (apply-Applied (aggregate s run_id) m (s.sequence + 1) made.applied).was_open

  -- Once the status of a well-formed run is terminal, no further requests change anything of it:
  -- its status, journal, checkpoints, receipts and fence stay as they are.
  pub settled_forever :
      (states : States Any) (requests : List (Request Any)) (key : RunKey)
      → IsWellFormed (state_at states key)
      → is_terminal (state_at states key).status ≡ true
      → state_at (serve states requests) key ≡ state_at states key
  settled_forever states requests key w settled =
      serve-keeps (λ s. s ≡ state_at states key) key
        (λ q s s' r f c made same. absurd (settled_no_commit q s s' r made same)) states requests
        refl
    where
      settled_no_commit :
          (q : Request Any) (s s' : MemoryRuntimeState Any) (r : RuntimeStateReceipt)
          → Made (aggregate s q.mutation.run_id) q.now q.mutation s s' r
          → s ≡ state_at states key
          → ⊥
      settled_no_commit q s s' r made same = cc (
        Made-open q.mutation.run_id (subst IsWellFormed (sym same) w) made,
        ap (λ (x : MemoryRuntimeState Any). is_terminal x.status) same,
        settled,
      )

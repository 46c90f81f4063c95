-- ===== src/StateStore/Replay.antt =====
-- Mutation ids: a mutation is committed once, and repeated commits get its receipt.
use deepkeel.Base.{
  ℕ, String, ◌≡◌, sym, ap, ◌∙◌, inl, inr, Bool-cases, none, some, List, ok, ◌==◌, string_eq,
  pair_eq, nat_eq, eq_of_beq, beq_refl,
}
use deepkeel.Base.Int.{int_eq}
use deepkeel.Base.Dict.{Dict, get, put, get-put}
use deepkeel.Base.Objects.{Objects}
use deepkeel.Scope.{RunKey}
use deepkeel.StateStore.Aggregate.{RuntimeStateMutation, RuntimeStateReceipt}
use deepkeel.StateStore.Memory.{
  MemoryRuntimeState, aggregate, append_event, append_checkpoint, delete_checkpoints, settle_state,
  keep_receipt, receipt_of,
}
use deepkeel.StateStore.Commit.{States, state_at, as_replayed}
use deepkeel.StateStore.Committed.{Made, written}
use deepkeel.StateStore.Outcome.{replayed, refused, committed, Same}
use deepkeel.StateStore.Histories.{
  Request, key_of, handle, serve, HandleOutcome, handle-Outcome, serve-keeps,
}

-- a new receipt does not displace one that is there
receipt_not_displaced :
    (receipts : Dict String RuntimeStateReceipt) (new id : String) (r r' : RuntimeStateReceipt)
    → get receipts new ≡ none
    → get receipts id ≡ some r
    → get (put receipts new r') id ≡ some r
receipt_not_displaced receipts new id r r' free kept = rw get-put (elim (Bool-cases (new == id)) [
  | inl e ↦ absurd (cc (free, kept, ap (get receipts) (eq_of_beq e)))
  | inr e ↦ rw e kept
])

module _ {Any : Type 0} ⦃py : Objects Any⦄ where
  receipts-written :
      (run_id : String) {now : ℕ} {m : RuntimeStateMutation Any} {s s' : MemoryRuntimeState Any}
      {r : RuntimeStateReceipt}
      → Made (aggregate s run_id) now m s s' r
      → s'.receipts ≡ put s.receipts m.mutation_id r
  unfolding written append_event append_checkpoint delete_checkpoints settle_state keep_receipt
      receipt_of
  receipts-written run_id {now} {m} {s} {s'} made = rw (made.receipt, made.writes)

  -- a receipt that is kept stays kept
  pub receipt_kept :
      (states : States Any) (requests : List (Request Any)) (key : RunKey) (id : String)
      (r : RuntimeStateReceipt)
      → get (state_at states key).receipts id ≡ some r
      → get (state_at (serve states requests) key).receipts id ≡ some r
  receipt_kept states requests key id r h =
      serve-keeps (λ s. get s.receipts id ≡ some r) key
        (λ q s s' r' f c made kept.
          rw (receipts-written q.mutation.run_id made)
            (receipt_not_displaced s.receipts q.mutation.mutation_id id r r' f kept))
        states requests h

  -- the receipt that a returning commit leaves under its id
  left_receipt :
      (states : States Any) (q : Request Any) {r : RuntimeStateReceipt}
      → HandleOutcome states q
      → (handle states q).0 ≡ ok r
      → (old : RuntimeStateReceipt) × (get
            (state_at (handle states q).1 (key_of q)).receipts
            q.mutation.mutation_id
          ≡ some old)
        × (as_replayed old ≡ as_replayed r)
  left_receipt states q (replayed old f e same) h = (old, rw (same (key_of q)) f, cc)
  left_receipt states q (refused x f e same) h = absurd (cc)
  left_receipt states q (committed r' s' f c made e updates) h = (
    r',
    rw (updates (key_of q)) (
        rw (beq_refl (key_of q)) (
          rw (receipts-written q.mutation.run_id made)
            (rw get-put (rw (beq_refl q.mutation.mutation_id))))),
    cc,
  )

  replays :
      (states : States Any) (q : Request Any) (old : RuntimeStateReceipt)
      → get (state_at states (key_of q)).receipts q.mutation.mutation_id ≡ some old
      → HandleOutcome states q
      → ((handle states q).0 ≡ ok (as_replayed old)) × Same states (handle states q).1
  replays states q old kept (replayed old' f e same) = (cc, same)
  replays states q old kept (refused x f e same) = absurd (cc)
  replays states q old kept (committed r s' f c made e updates) = absurd (cc)

  -- A mutation is committed at most once. After a commit has returned a receipt, and after any
  -- further requests, a commit to the same run under the same mutation id, whatever else it says,
  -- returns the same receipt marked as replayed, and changes no run.
  pub commit_once :
      (states : States Any) (q q' : Request Any) (between : List (Request Any)) (key : RunKey)
      {r : RuntimeStateReceipt}
      → key_of q ≡ key
      → key_of q' ≡ key
      → q'.mutation.mutation_id ≡ q.mutation.mutation_id
      → (handle states q).0 ≡ ok r
      → ((handle (serve (handle states q).1 between) q').0 ≡ ok (as_replayed r))
        × Same (serve (handle states q).1 between) (handle (serve (handle states q).1 between) q').1
  commit_once states q q' between key {r} eq eq' id h =
      let (old, left, same) = left_receipt states q (handle-Outcome states q) h in
      let later = serve (handle states q).1 between in
      let kept : get (state_at later (key_of q')).receipts q'.mutation.mutation_id ≡ some old =
        rw (eq' ∙ sym eq, id)
          (receipt_kept (handle states q).1 between (key_of q) q.mutation.mutation_id old left) in
      rw (← same) (replays later q' old kept (handle-Outcome later q'))

-- ===== src/StateStore/Fencing.antt =====
-- Execution fences: a worker whose lease was taken over cannot commit.
use deepkeel.Base.{
  ℕ, String, ◌≡◌, ◌≢◌, sym, ap, subst, ◌∙◌, inl, inr, ◌⊎◌, true, Bool-cases, none, List, ok, err,
  arith, string_eq, pair_eq, nat_eq, eq_iff, beq_refl,
}
use deepkeel.Base.Int.{ℤ, pos, ◌≤ℤ◌, pos_part, neg_part, ltb_ℤ, eq_of_not_lt, int_eq}
use deepkeel.Base.Dict.{get}
use deepkeel.Base.Objects.{Objects}
use deepkeel.StateStore.Aggregate.{StateError, RuntimeStateMutation, RuntimeStateReceipt}
use deepkeel.StateStore.Memory.{
  MemoryRuntimeState, aggregate, checks, append_event, append_checkpoint, delete_checkpoints,
  settle_state, keep_receipt,
}
use deepkeel.StateStore.Commit.{States, state_at}
use deepkeel.StateStore.Committed.{Made, written}
use deepkeel.StateStore.Outcome.{replayed, refused, committed, Same}
use deepkeel.StateStore.Histories.{
  Request, key_of, handle, serve, HandleOutcome, handle-Outcome, serve-keeps,
}

module _ {Any : Type 0} ⦃py : Objects Any⦄ where
  pub fence-written :
      (run_id : String) {now : ℕ} {m : RuntimeStateMutation Any} {s s' : MemoryRuntimeState Any}
      {r : RuntimeStateReceipt}
      → checks s m ≡ ok tt
      → Made (aggregate s run_id) now m s s' r
      → (s.fence_generation ≤ℤ s'.fence_generation) × (s'.fence_generation ≡ m.fence_generation)
  unfolding written append_event append_checkpoint delete_checkpoints settle_state keep_receipt
      checks
  fence-written run_id {now} {m} {s} {s'} c made =
      rw made.writes
        (ground (arith, int_eq.equals_iff s.fence_generation m.fence_generation), ground arith)

  -- The run is held under the fence, or under a later one.
  abbrev pub HeldSince : ℤ → String → MemoryRuntimeState Any → Type 0
  HeldSince generation token s =
      (ltb_ℤ generation s.fence_generation ≡ true)
      ⊎ ((s.fence_generation ≡ generation) × (s.fence_token ≡ token))

  -- what the fence of a run is after a commit
  token-written :
      (run_id : String) {now : ℕ} {m : RuntimeStateMutation Any} {s s' : MemoryRuntimeState Any}
      {r : RuntimeStateReceipt}
      → m.fence_generation ≢ pos 0
      → checks s m ≡ ok tt
      → Made (aggregate s run_id) now m s s' r
      → s'.fence_token ≡ m.fence_token
  unfolding written append_event append_checkpoint delete_checkpoints settle_state keep_receipt
  token-written run_id {now} {m} {s} {s'} h c made =
      rw made.writes (ground (arith, int_eq.equals_iff m.fence_generation (pos 0)))

  -- what the checks of a commit say of its fence and the run's
  fence-checked :
      (s : MemoryRuntimeState Any) (m : RuntimeStateMutation Any)
      → checks s m ≡ ok tt
      → (s.fence_generation ≤ℤ m.fence_generation)
        × (s.fence_generation ≡ m.fence_generation
            → m.fence_generation ≢ pos 0
            → m.fence_token ≡ s.fence_token)
  unfolding checks
  fence-checked s m c = (
    ground arith,
    λ e n. ground (
      arith,
      int_eq.equals_iff s.fence_generation m.fence_generation,
      int_eq.equals_iff m.fence_generation (pos 0),
      eq_iff m.fence_token s.fence_token,
    ),
  )

  HeldSince-Made :
      (generation : ℤ) (token : String) (run_id : String) {now : ℕ} {m : RuntimeStateMutation Any}
      {s s' : MemoryRuntimeState Any} {r : RuntimeStateReceipt}
      → generation ≢ pos 0
      → checks s m ≡ ok tt
      → Made (aggregate s run_id) now m s s' r
      → HeldSince generation token s
      → HeldSince generation token s'
  HeldSince-Made generation token run_id {m = m} {s = s} {s' = s'} n c made (inl later) =
      inl (ground (arith, (fence-written run_id c made).0))
  HeldSince-Made generation token run_id {m = m} {s = s} {s' = s'} n c made (inr (g, t)) =
      let (grows, current) = fence-written run_id c made in
      elim (Bool-cases (ltb_ℤ generation s'.fence_generation)) [
        | inl later ↦ inl later
        | inr same ↦
            let e : s'.fence_generation ≡ generation =
              eq_of_not_lt generation s'.fence_generation
                (subst (λ (x : ℤ). x ≤ℤ s'.fence_generation) g grows) same in
            let fenced : m.fence_generation ≢ pos 0 = λ z. n (sym e ∙ current ∙ z) in
            inr (
              e,
              token-written run_id fenced c made
                  ∙ (fence-checked s m c).1 (g ∙ sym e ∙ current) fenced
                  ∙ t,
            )
      ]

  -- a mutation that another fence has superseded
  abbrev pub Superseded : RuntimeStateMutation Any → RuntimeStateMutation Any → Type 0
  Superseded m' m =
      (ltb_ℤ m'.fence_generation m.fence_generation ≡ true)
      ⊎ ((m'.fence_generation ≡ m.fence_generation) × (m'.fence_token ≢ m.fence_token))

  -- the fence of a commit that has just been made
  holds :
      (states : States Any) (q : Request Any) {r : RuntimeStateReceipt}
      → q.mutation.fence_generation ≢ pos 0
      → get (state_at states (key_of q)).receipts q.mutation.mutation_id ≡ none
      → (handle states q).0 ≡ ok r
      → HandleOutcome states q
      → HeldSince q.mutation.fence_generation q.mutation.fence_token
          (state_at (handle states q).1 (key_of q))
  holds states q n free h (replayed old f e same) = absurd (cc)
  holds states q n free h (refused x f e same) = absurd (cc)
  holds states q n free h (committed r' s' f c made e updates) = rw (updates (key_of q)) (
      rw (beq_refl (key_of q)) (
        inr ((fence-written q.mutation.run_id c made).1, token-written q.mutation.run_id n c made)))

  Superseded-fails :
      (s : MemoryRuntimeState Any) (m m' : RuntimeStateMutation Any)
      → m.fence_generation ≢ pos 0
      → HeldSince m.fence_generation m.fence_token s
      → Superseded m' m
      → checks s m' ≡ ok tt
      → ⊥
  Superseded-fails s m m' n (inl later) (inl older) c = ground (arith, (fence-checked s m' c).0)
  Superseded-fails s m m' n (inl later) (inr (g, t)) c =
      ground (arith, (fence-checked s m' c).0, ap pos_part g, ap neg_part g)
  Superseded-fails s m m' n (inr (g, t)) (inl older) c =
      ground (arith, (fence-checked s m' c).0, ap pos_part g, ap neg_part g)
  Superseded-fails s m m' n (inr (g, t)) (inr (g', t')) c =
      t' ((fence-checked s m' c).1 (g ∙ sym g') (λ z. n (sym g' ∙ z)) ∙ t)

  refuses :
      (states : States Any) (q : Request Any) (m : RuntimeStateMutation Any)
      → m.fence_generation ≢ pos 0
      → HeldSince m.fence_generation m.fence_token (state_at states (key_of q))
      → Superseded q.mutation m
      → get (state_at states (key_of q)).receipts q.mutation.mutation_id ≡ none
      → HandleOutcome states q
      → ((e : StateError) × ((handle states q).0 ≡ err e)) × Same states (handle states q).1
  refuses states q m n held super free (replayed old f e same) = absurd (cc)
  refuses states q m n held super free (refused x f e same) = ((x, e), same)
  refuses states q m n held super free (committed r s' f c made e updates) =
      absurd (Superseded-fails (state_at states (key_of q)) m q.mutation n held super c)

  -- A worker that was superseded cannot commit. After a new mutation was committed under a fence, and
  -- after any further requests, a new mutation to the same run under an earlier generation, or under
  -- the same generation with another token, is refused with an exception, and changes no run.
  pub Superseded-refused :
      (states : States Any) (q q' : Request Any) (between : List (Request Any))
      {r : RuntimeStateReceipt}
      → key_of q' ≡ key_of q
      → q.mutation.fence_generation ≢ pos 0
      → get (state_at states (key_of q)).receipts q.mutation.mutation_id ≡ none
      → (handle states q).0 ≡ ok r
      → Superseded q'.mutation q.mutation
      → get
          (state_at (serve (handle states q).1 between) (key_of q')).receipts
          q'.mutation.mutation_id
        ≡ none
      → ((e : StateError) × ((handle (serve (handle states q).1 between) q').0 ≡ err e))
        × Same (serve (handle states q).1 between) (handle (serve (handle states q).1 between) q').1
  Superseded-refused states q q' between eq n free h super free' =
      let later = serve (handle states q).1 between in
      let held : HeldSince q.mutation.fence_generation q.mutation.fence_token
          (state_at later (key_of q')) =
        rw eq (
          serve-keeps (HeldSince q.mutation.fence_generation q.mutation.fence_token) (key_of q)
            (λ p s s' r' f c made. HeldSince-Made _ _ p.mutation.run_id n c made)
            (handle states q).1 between (holds states q n free h (handle-Outcome states q))) in
      refuses later q' q.mutation n held super free' (handle-Outcome later q')

-- ===== src/Budgets/Limits.antt =====
-- What bounds the amounts that the ledger keeps.
use deepkeel.Base.{
  ℕ, ◌≤◌, String, ◌≡◌, ◌≢◌, refl, sym, ap, subst, ◌∙◌, inl, inr, true, Bool-cases, some, List, [],
  ◌∷◌, All, arith, ◌==◌, string_eq, eq_of_beq, beq_ne, eq_iff,
}
use deepkeel.Base.Int.{ℤ, clip}
use deepkeel.Budgets.Ledger.{
  BudgetRequest, BudgetLedger, effective_limit, usage_of, projected, consume, restore,
}
use deepkeel.Budgets.Effects.{
  used_at, charged, used_at-consume, used_at-restore, used_at-clear, restored-grows,
  restored-bounded, Operation, consumes, restores, clears, perform, serve, run_of,
}

-- An operation keeps to a bound of a run's metric: a request for it has a limit, which is within the
-- bound, and a restored amount of it is.
abbrev pub IsCapped : String → String → ℕ → Operation → Type 0
IsCapped run_id metric bound (consumes request) =
    request.run_id ≡ run_id
    → request.metric ≡ metric
    → (limit : ℕ) × (effective_limit request.limit ≡ some limit) × (limit ≤ bound)
IsCapped run_id metric bound (restores r items) =
    r ≡ run_id → All (λ (item : String × ℤ). item.0 ≡ metric → clip item.1 ≤ bound) items
IsCapped run_id metric bound (clears r) = Unit

charged-within :
    (request : BudgetRequest) (self : BudgetLedger) (limit : ℕ)
    → effective_limit request.limit ≡ some limit
    → charged request self ≡ true
    → projected request (used_at self request.run_id request.metric) ≤ limit
unfolding charged
charged-within request self limit e h = ground (arith, e, h)

consume-within :
    (self : BudgetLedger) (request : BudgetRequest) (run_id metric : String) (bound : ℕ)
    → IsCapped run_id metric bound (consumes request)
    → used_at self run_id metric ≤ bound
    → used_at (consume request self).1 run_id metric ≤ bound
consume-within self request run_id metric bound fit h =
    let effect = used_at-consume request self run_id metric in
    elim (Bool-cases (request.run_id == run_id)) [
      | inl r ↦ elim (Bool-cases (request.metric == metric)) [
        | inl m ↦
            let (limit, limited, low) = fit (eq_of_beq r) (eq_of_beq m) in
            ground (arith, effect, low, h, charged-within request self limit limited)
        | inr m ↦ ground (arith, effect, r, m, h)
      ]
      | inr r ↦ ground (arith, effect, r, h)
    ]

restore-within :
    (self : BudgetLedger) (r : String) (items : List (String × ℤ)) (run_id metric : String)
    (bound : ℕ)
    → IsCapped run_id metric bound (restores r items)
    → used_at self run_id metric ≤ bound
    → used_at (restore r items self) run_id metric ≤ bound
unfolding used_at
restore-within self r items run_id metric bound fit h = elim (Bool-cases (r == run_id)) [
  | inl e ↦
      let here : r ≡ run_id = eq_of_beq e in
      ground (
        arith,
        used_at-restore r items self run_id metric,
        e,
        restored-bounded items (usage_of self r) metric bound (fit here)
            (subst (λ (k : String). used_at self k metric ≤ bound) (sym here) h),
      )
  | inr e ↦ ground (arith, used_at-restore r items self run_id metric, e, h)
]

perform-within :
    (self : BudgetLedger) (operation : Operation) (run_id metric : String) (bound : ℕ)
    → IsCapped run_id metric bound operation
    → used_at self run_id metric ≤ bound
    → used_at (perform self operation) run_id metric ≤ bound
unfolding perform
perform-within self (consumes request) run_id metric bound fit h =
    consume-within self request run_id metric bound fit h
perform-within self (restores r items) run_id metric bound fit h =
    restore-within self r items run_id metric bound fit h
perform-within self (clears r) run_id metric bound fit h = rw used_at-clear (ground (arith, h))

-- A budget is never overspent. Where a run's metric is within a bound, and every request for it among
-- any operations, of this run and of others, has a limit above 0 that is within the bound, and
-- restored amounts of it are within the bound, it is within the bound after all of them.
pub serve-within :
    (self : BudgetLedger) (operations : List Operation) (run_id metric : String) (bound : ℕ)
    → All (IsCapped run_id metric bound) operations
    → used_at self run_id metric ≤ bound
    → used_at (serve self operations) run_id metric ≤ bound
unfolding serve
serve-within self [] run_id metric bound fits h = h
serve-within self (operation ∷ rest) run_id metric bound (fit, fits) h =
    serve-within (perform self operation) rest run_id metric bound fits
      (perform-within self operation run_id metric bound fit h)

projected-grows : (request : BudgetRequest) (used : ℕ) → used ≤ projected request used
unfolding projected
projected-grows request used = ground arith

perform-grows :
    (self : BudgetLedger) (operation : Operation) (run_id metric : String)
    → operation ≢ clears run_id
    → used_at self run_id metric ≤ used_at (perform self operation) run_id metric
unfolding perform used_at
perform-grows self (consumes request) run_id metric other = ground (
  arith,
  used_at-consume request self run_id metric,
  eq_iff request.run_id run_id,
  eq_iff request.metric metric,
  projected-grows request (used_at self request.run_id request.metric),
)
perform-grows self (restores r items) run_id metric other = ground (
  arith,
  used_at-restore r items self run_id metric,
  eq_iff r run_id,
  restored-grows items (usage_of self r) metric,
)
perform-grows self (clears r) run_id metric other =
    rw used_at-clear (rw (beq_ne (λ (e : r ≡ run_id). other (ap clears e))) (omega arith))

-- What was used is not given back: whatever the ledger serves, except that it clears the run, no
-- amount of the run becomes less.
pub serve-grows :
    (self : BudgetLedger) (operations : List Operation) (run_id metric : String)
    → All (λ (operation : Operation). operation ≢ clears run_id) operations
    → used_at self run_id metric ≤ used_at (serve self operations) run_id metric
unfolding serve
serve-grows self [] run_id metric others = omega arith
serve-grows self (operation ∷ rest) run_id metric (other, others) = omega (
  arith,
  perform-grows self operation run_id metric other,
  serve-grows (perform self operation) rest run_id metric others,
)

perform-others :
    (self : BudgetLedger) (operation : Operation) (run_id metric : String)
    → run_of operation ≢ run_id
    → used_at (perform self operation) run_id metric ≡ used_at self run_id metric
unfolding perform
perform-others self (consumes request) run_id metric other =
    ground (arith, used_at-consume request self run_id metric, beq_ne other)
perform-others self (restores r items) run_id metric other =
    ground (arith, used_at-restore r items self run_id metric, beq_ne other)
perform-others self (clears r) run_id metric other =
    ground (arith, used_at-clear r self run_id metric, beq_ne other)

-- Runs do not share a budget: operations on other runs leave every amount of a run as it is.
pub serve-others :
    (self : BudgetLedger) (operations : List Operation) (run_id metric : String)
    → All (λ (operation : Operation). run_of operation ≢ run_id) operations
    → used_at (serve self operations) run_id metric ≡ used_at self run_id metric
unfolding serve
serve-others self [] run_id metric others = refl
serve-others self (operation ∷ rest) run_id metric (other, others) =
    serve-others (perform self operation) rest run_id metric others
    ∙ perform-others self operation run_id metric other

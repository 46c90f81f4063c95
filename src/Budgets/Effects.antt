-- ===== src/Budgets/Effects.antt =====
-- What the operations of the ledger do to what is used, and sequences of them.
use deepkeel.Base.{
  ℕ, ◌≤◌, max, String, ◌≡◌, refl, ap, inl, inr, Bool, true, false, not, ◌&&◌, Bool-cases, Option,
  none, some, Option-cases, List, [], ◌∷◌, arith, All, if◌then◌else◌, ◌==◌, string_eq, pair_eq,
  eq_of_beq, eq_iff,
}
use deepkeel.Base.Int.{ℤ, clip}
use deepkeel.Base.Dict.{Dict, put, get-put, get-remove, get-empty}
use deepkeel.Budgets.Ledger.{
  BudgetRequest, BudgetDecision, Usage, BudgetLedger, effective_limit, usage_of, amount_in,
  projected, exceeds, decide, decided, consume_new, consume, restored, restore, clear, remember,
  DecisionKey,
}

unfoldable pub used_at : BudgetLedger → String → String → ℕ
used_at self run_id metric = amount_in (usage_of self run_id) metric

abbrev is_none : Option BudgetDecision → Bool
is_none none = true
is_none (some decision) = false

-- whether a request is charged: it was not decided before, and its limit admits it
unfoldable pub charged : BudgetRequest → BudgetLedger → Bool
charged request self =
    is_none (decided self request)
    && not (
        exceeds (projected request (used_at self request.run_id request.metric))
          (effective_limit request.limit))

amount_in-put :
    (usage : Usage) (metric m : String) (n : ℕ)
    → amount_in (put usage metric n) m ≡ (if metric == m then n else amount_in usage m)
unfolding amount_in
amount_in-put usage metric m n =
    rw get-put (elim (Bool-cases (metric == m)) [ inl e ↦ rw e refl | inr e ↦ rw e refl ])

pub used_at-written :
    (self : BudgetLedger) (run_id r m : String) (usage : Usage)
    (decisions : Dict DecisionKey BudgetDecision)
    → used_at (record { usage = put self.usage run_id usage; decisions = decisions }) r m
      ≡ (if run_id == r then amount_in usage m else used_at self r m)
unfolding used_at usage_of
used_at-written self run_id r m usage decisions =
    rw get-put (elim (Bool-cases (run_id == r)) [ inl e ↦ rw e refl | inr e ↦ rw e refl ])

decide-allowed :
    (request : BudgetRequest) (used : ℕ)
    → (decide request used).allowed
      ≡ not (exceeds (projected request used) (effective_limit request.limit))
unfolding decide
decide-allowed request used =
    elim (Bool-cases (exceeds (projected request used) (effective_limit request.limit))) [
      | inl e ↦ rw e refl
      | inr e ↦ rw e refl
    ]

used_at-consume_new :
    (request : BudgetRequest) (self : BudgetLedger) (r m : String)
    → used_at (consume_new request self).1 r m ≡ (
        if not (
            exceeds
              (projected request (used_at self request.run_id request.metric))
              (effective_limit request.limit))
          && (request.run_id == r)
          && (request.metric == m)
        then projected request (used_at self request.run_id request.metric)
        else used_at self r m)
unfolding consume_new used_at
used_at-consume_new request self r m =
    let used : ℕ = amount_in (usage_of self request.run_id) request.metric in
    let after : Usage =
      put (usage_of self request.run_id) request.metric (projected request used) in
    let usage : Usage =
      if (decide request used).allowed then after else usage_of self request.run_id in
    let written =
      used_at-written self request.run_id r m usage
        (remember request (decide request used) self.decisions) in
    ground (
      arith,
      written,
      decide-allowed request used,
      amount_in-put (usage_of self request.run_id) request.metric m (projected request used),
      eq_iff request.run_id r,
    )

-- the amount after a request is the projected one where it is charged, and else stays
pub used_at-consume :
    (request : BudgetRequest) (self : BudgetLedger) (r m : String)
    → used_at (consume request self).1 r m ≡ (
        if charged request self && (request.run_id == r) && (request.metric == m)
        then projected request (used_at self request.run_id request.metric)
        else used_at self r m)
unfolding consume charged
used_at-consume request self r m = elim (Option-cases (decided self request)) [
  | inl e ↦ rw e (used_at-consume_new request self r m)
  | inr (decision, e) ↦ rw e refl
]

pub used_at-restore :
    (run_id : String) (items : List (String × ℤ)) (self : BudgetLedger) (r m : String)
    → used_at (restore run_id items self) r m ≡ (
        if run_id == r
        then amount_in (restored items (usage_of self run_id)) m
        else used_at self r m)
unfolding restore
used_at-restore run_id items self r m =
    used_at-written self run_id r m (restored items (usage_of self run_id)) self.decisions

pub used_at-clear :
    (run_id : String) (self : BudgetLedger) (r m : String)
    → used_at (clear run_id self) r m ≡ (if run_id == r then 0 else used_at self r m)
unfolding clear used_at usage_of amount_in
used_at-clear run_id self r m =
    rw get-remove
      (elim (Bool-cases (run_id == r)) [ inl e ↦ rw (e, get-empty) refl | inr e ↦ rw e refl ])

-- the items of a `restore` never lower an amount, and raise none above a bound of their own
pub restored-grows :
    (items : List (String × ℤ)) (usage : Usage) (m : String)
    → amount_in usage m ≤ amount_in (restored items usage) m
unfolding restored
restored-grows [] usage m = omega arith
restored-grows ((metric, value) ∷ items) usage m =
    let n : ℕ = max (amount_in usage metric) (clip value) in
    let same : (metric == m) ≡ true → amount_in usage metric ≡ amount_in usage m =
      λ e. ap (amount_in usage) (eq_of_beq e) in
    ground (
      arith,
      restored-grows items (put usage metric n) m,
      amount_in-put usage metric m n,
      eq_iff metric m,
    )

pub restored-bounded :
    (items : List (String × ℤ)) (usage : Usage) (m : String) (bound : ℕ)
    → All (λ (item : String × ℤ). item.0 ≡ m → clip item.1 ≤ bound) items
    → amount_in usage m ≤ bound
    → amount_in (restored items usage) m ≤ bound
unfolding restored
restored-bounded [] usage m bound fit h = h
restored-bounded ((metric, value) ∷ items) usage m bound (fit, fits) h =
    let n : ℕ = max (amount_in usage metric) (clip value) in
    restored-bounded items (put usage metric n) m bound fits
      (ground (arith, amount_in-put usage metric m n, eq_iff metric m, fit, h))

-- what callers ask of the ledger
pub data Operation : Type 0 where
  consumes : BudgetRequest → Operation
  restores : String → List (String × ℤ) → Operation
  clears : String → Operation

unfoldable pub perform : BudgetLedger → Operation → BudgetLedger
perform self (consumes request) = (consume request self).1
perform self (restores run_id items) = restore run_id items self
perform self (clears run_id) = clear run_id self

unfoldable pub serve : BudgetLedger → List Operation → BudgetLedger
serve self [] = self
serve self (operation ∷ rest) = serve (perform self operation) rest

-- the run of an operation
abbrev pub run_of : Operation → String
run_of (consumes request) = request.run_id
run_of (restores run_id items) = run_id
run_of (clears run_id) = run_id

-- ===== src/Budgets/Decisions.antt =====
-- A request under an operation id is decided once, and a preview says what the decision will be.
use deepkeel.Base.{
  ℕ, ◌≡◌, ◌≢◌, refl, sym, ap, ◌∙◌, inl, inr, true, false, Bool-cases, none, some, Option-cases,
  List, [], ◌∷◌, All, arith, ◌==◌, string_eq, pair_eq, eq_of_beq, beq_refl, beq_ne,
}
use deepkeel.Base.Dict.{get, get-put, get-filter_keys}
use deepkeel.Budgets.Ledger.{
  BudgetRequest, BudgetDecision, BudgetLedger, DecisionKey, effective_limit, usage_of, amount_in,
  projected, exceeds, decide, decided, consume, consume_new, decision_key, remember, restore, clear,
  snapshot, preview_budget,
}
use deepkeel.Budgets.Effects.{
  used_at, charged, used_at-consume, Operation, consumes, restores, clears, perform, serve,
}

get-remember :
    (self : BudgetLedger) (request : BudgetRequest) (new : BudgetDecision) (key : DecisionKey)
    (decision : BudgetDecision)
    → decided self request ≡ none
    → get self.decisions key ≡ some decision
    → get (remember request new self.decisions) key ≡ some decision
unfolding decided
get-remember self request new key decision free h = elim (Bool-cases (request.operation_id == "")) [
  | inl e ↦ rw e h
  | inr e ↦
      rw (e, get-put)
        (elim (Bool-cases (decision_key request == key)) [
          | inl b ↦
              let clash : decision_key request ≡ key = eq_of_beq b in
              absurd (ground (arith, e, free, h, clash))
          | inr b ↦ rw b h
        ])
]

get-consume_other :
    (self : BudgetLedger) (request : BudgetRequest) (key : DecisionKey) (decision : BudgetDecision)
    → get self.decisions key ≡ some decision
    → get (consume request self).1.decisions key ≡ some decision
unfolding consume consume_new
get-consume_other self request key decision h =
    let used : ℕ = amount_in (usage_of self request.run_id) request.metric in
    elim (Option-cases (decided self request)) [
      | inl e ↦ rw e (get-remember self request (decide request used) key decision e h)
      | inr (d, e) ↦ rw e h
    ]

decided-named :
    (self : BudgetLedger) (request : BudgetRequest)
    → request.operation_id ≢ ""
    → decided self request ≡ get self.decisions (decision_key request)
unfolding decided
decided-named self request named = rw (beq_ne named) refl

-- a decision that is kept
get-perform :
    (self : BudgetLedger) (operation : Operation) (key : DecisionKey) (decision : BudgetDecision)
    → operation ≢ clears key.0
    → get self.decisions key ≡ some decision
    → get (perform self operation).decisions key ≡ some decision
unfolding perform consume consume_new restore clear
get-perform self (consumes request) key decision other h =
    get-consume_other self request key decision h
get-perform self (restores r items) key decision other h = h
get-perform self (clears r) key decision other h =
    rw get-filter_keys (rw (beq_ne (λ (e : key.0 ≡ r). other (ap clears (sym e)))) h)

get-serve :
    (self : BudgetLedger) (operations : List Operation) (key : DecisionKey)
    (decision : BudgetDecision)
    → All (λ (operation : Operation). operation ≢ clears key.0) operations
    → get self.decisions key ≡ some decision
    → get (serve self operations).decisions key ≡ some decision
unfolding serve
get-serve self [] key decision others h = h
get-serve self (operation ∷ rest) key decision (other, others) h =
    get-serve (perform self operation) rest key decision others
      (get-perform self operation key decision other h)

get-consume :
    (self : BudgetLedger) (request : BudgetRequest)
    → request.operation_id ≢ ""
    → get (consume request self).1.decisions (decision_key request) ≡ some (consume request self).0
unfolding consume consume_new
get-consume self request named =
    let key : DecisionKey = decision_key request in
    let unnamed : (request.operation_id == "") ≡ false = beq_ne named in
    let same : (key == key) ≡ true = beq_refl key in
    elim (Option-cases (decided self request)) [
      | inl e ↦ rw (e, unnamed, get-put, same) refl
      | inr (d, e) ↦ rw e (sym (decided-named self request named) ∙ e)
    ]

-- A request is charged at most once. After a request with an operation id was decided, and after any
-- operations that do not clear its run, a request under the same run, metric and operation id gets the
-- same decision, whatever else it says, and changes nothing in the ledger.
pub consume_once :
    (self : BudgetLedger) (request again : BudgetRequest) (operations : List Operation)
    → request.operation_id ≢ ""
    → decision_key again ≡ decision_key request
    → All (λ (operation : Operation). operation ≢ clears request.run_id) operations
    → let later : BudgetLedger = serve (consume request self).1 operations in
      consume again later ≡ ((consume request self).0, later)
unfolding consume
consume_once self request again operations named same others =
    let later : BudgetLedger = serve (consume request self).1 operations in
    let kept : get later.decisions (decision_key request) ≡ some (consume request self).0 =
      get-serve (consume request self).1 operations (decision_key request) (consume request self).0
        others (get-consume self request named) in
    let known : decided later again ≡ some (consume request self).0 =
      decided-named later again
        (λ (e : again.operation_id ≡ ""). named (sym (ap (λ (k : DecisionKey). k.1.1) same) ∙ e))
      ∙ ap (get later.decisions) same
      ∙ kept in
    rw known refl

-- A preview is right. For a request that was not decided before, the preview of the run's snapshot
-- has the same verdict, amounts and limit as the decision that the ledger then makes, and the amount
-- that it shows as used is what the ledger then holds.
pub preview_agrees :
    (self : BudgetLedger) (request : BudgetRequest)
    → decided self request ≡ none
    → let preview = preview_budget (snapshot request.run_id self) request in
      let decision = (consume request self).0 in
      (preview.allowed ≡ decision.allowed)
      × (preview.used ≡ decision.used)
      × (preview.requested ≡ decision.requested)
      × (preview.remaining ≡ decision.remaining)
      × (preview.limit ≡ decision.limit)
      × (used_at (consume request self).1 request.run_id request.metric ≡ preview.used)
unfolding consume consume_new decide preview_budget snapshot used_at charged
preview_agrees self request free =
    let used : ℕ = amount_in (usage_of self request.run_id) request.metric in
    let effect = used_at-consume request self request.run_id request.metric in
    let here : (request.run_id == request.run_id) ≡ true = beq_refl request.run_id in
    let this : (request.metric == request.metric) ≡ true = beq_refl request.metric in
    elim (Bool-cases (exceeds (projected request used) (effective_limit request.limit))) [
      | inl e ↦ rw (free, e) (refl, refl, refl, refl, refl, ground (arith, effect, e))
      | inr e ↦
          rw (free, e) (refl, refl, refl, refl, refl, ground (arith, effect, e, here, this, free))
    ]

-- ===== src/Budgets/Examples.antt =====
-- Tests of the budget ledger, and each of its theorems at a concrete input.
use deepkeel.Base.{
  ℕ, ◌≤◌, String, ◌≡◌, ◌≢◌, refl, Bool, true, false, some, List, [], ◌∷◌, arith, string_eq, pair_eq,
  ne_of_beq, ap,
}
use deepkeel.Base.Int.{pos}
use deepkeel.Base.Dict.{get, put, remove, empty, filter_keys}
use deepkeel.Budgets.Ledger.{
  BudgetRequest, BudgetLedger, new_ledger, consume, consume_new, restore, clear, restored, decided,
  decide, projected, usage_of, amount_in, snapshot, preview_budget,
}
use deepkeel.Budgets.Effects.{used_at, Operation, consumes, restores, clears, serve, perform}
use deepkeel.Budgets.Limits.{serve-within, serve-others}
use deepkeel.Budgets.Decisions.{consume_once, preview_agrees}

-- `used_at`, after operations and with all that they call open
computes : BudgetLedger → List Operation → String → String → ℕ
unfolding serve perform consume consume_new restore restored clear decided decide projected usage_of
    amount_in used_at get put remove empty filter_keys
computes ledger operations run_id metric = used_at (serve ledger operations) run_id metric

abbrev request_of : String → String → ℕ → BudgetRequest
request_of run_id operation_id amount = record {
  run_id = run_id;
  metric = "tool_calls";
  amount = pos amount;
  limit = some (pos 5);
  operation_id = operation_id;
  aggregation = "sum";
}

abbrev spending : List Operation
spending =
    consumes (request_of "run" "a" 3)
    ∷ consumes (request_of "run" "a" 3)
    ∷ consumes (request_of "run" "b" 3)
    ∷ restores "run" (("tool_calls", pos 4) ∷ [])
    ∷ consumes (request_of "run" "" 1)
    ∷ []

-- the repeat of `a` is not charged, `b` is over the limit, and the restored amount is the greater one
spent : computes new_ledger spending "run" "tool_calls" ≡ 5
unfolding computes
spent = refl

is_consumes : Operation → Bool
is_consumes (clears run_id) = false
is_consumes (consumes request) = true
is_consumes (restores run_id items) = true

no_clear :
    (operation : Operation) (run_id : String)
    → is_consumes operation ≡ true
    → operation ≢ clears run_id
unfolding is_consumes
no_clear operation run_id h e = absurd (ground (arith, h, ap is_consumes e))

serve-within_example : used_at (serve new_ledger spending) "run" "tool_calls" ≤ 5
unfolding computes
serve-within_example =
    serve-within new_ledger spending "run" "tool_calls" 5
      (
        λ r m. (5, refl, omega arith),
        (
          λ r m. (5, refl, omega arith),
          (
            λ r m. (5, refl, omega arith),
            (λ r. (λ m. omega arith, tt), (λ r m. (5, refl, omega arith), tt)),
          ),
        ),
      )
      (omega arith)

serve-others_example :
    used_at
      (serve
        (serve new_ledger spending)
        (clears "other" ∷ consumes (request_of "other" "a" 2) ∷ []))
      "run"
      "tool_calls"
    ≡ used_at (serve new_ledger spending) "run" "tool_calls"
serve-others_example =
    serve-others (serve new_ledger spending)
      (clears "other" ∷ consumes (request_of "other" "a" 2) ∷ []) "run" "tool_calls"
      (ne_of_beq refl, (ne_of_beq refl, tt))

consume_once_example :
    let later : BudgetLedger =
      serve
        (consume (request_of "run" "a" 3) new_ledger).1
        (consumes (request_of "run" "b" 1) ∷ []) in
    consume (request_of "run" "a" 4) later
    ≡ ((consume (request_of "run" "a" 3) new_ledger).0, later)
unfolding is_consumes
consume_once_example =
    consume_once new_ledger (request_of "run" "a" 3) (request_of "run" "a" 4)
      (consumes (request_of "run" "b" 1) ∷ []) (ne_of_beq refl) refl
      (no_clear (consumes (request_of "run" "b" 1)) "run" refl, tt)

preview_agrees_example :
    let preview = preview_budget (snapshot "run" new_ledger) (request_of "run" "a" 3) in
    let decision = (consume (request_of "run" "a" 3) new_ledger).0 in
    (preview.allowed ≡ decision.allowed)
    × (preview.used ≡ decision.used)
    × (preview.requested ≡ decision.requested)
    × (preview.remaining ≡ decision.remaining)
    × (preview.limit ≡ decision.limit)
    × (used_at (consume (request_of "run" "a" 3) new_ledger).1 "run" "tool_calls" ≡ preview.used)
unfolding computes
preview_agrees_example = preview_agrees new_ledger (request_of "run" "a" 3) refl

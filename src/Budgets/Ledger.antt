-- ===== src/Budgets/Ledger.antt =====
-- `InMemoryBudgetLedger` and `preview_budget`. An amount is a whole multiple of a unit that the
-- caller chooses. What is used is never negative: `consume` takes max(0, amount), and `restore` the
-- greater of a value and what was used.
use deepkeel.Base.{
  ℕ, ◌+◌, ◌-◌, max, String, Bool, true, false, not, Option, none, some, List, [], ◌∷◌,
  if◌then◌else◌, ◌==◌, string_eq, pair_eq, ltb,
}
use deepkeel.Base.Int.{ℤ, pos, clip, leb_ℤ}
use deepkeel.Base.Dict.{Dict, empty, get, put, remove, filter_keys}

-- BudgetRequest, less the metadata, which the ledger does not read
pub record BudgetRequest : Type 0 where
  pub run_id : String
  pub metric : String
  pub amount : ℤ
  pub limit : Option ℤ
  pub operation_id : String
  pub aggregation : String

pub data Reason : Type 0 where
  budget_exceeded : String → Reason
  budget_reserved : Reason
  budget_available : Reason

pub record BudgetDecision : Type 0 where
  pub allowed : Bool
  pub metric : String
  pub requested : ℕ
  pub used : ℕ
  pub remaining : Option ℕ
  pub limit : Option ℕ
  pub reason : Reason

abbrev pub Usage : Type 0
Usage = Dict String ℕ

-- BudgetSnapshot
pub record BudgetSnapshot : Type 0 where
  pub run_id : String
  pub usage : Usage

abbrev pub DecisionKey : Type 0
DecisionKey = String × (String × String)

-- InMemoryBudgetLedger
pub record BudgetLedger : Type 0 where
  pub usage : Dict String Usage
  pub decisions : Dict DecisionKey BudgetDecision

abbrev pub new_ledger : BudgetLedger
new_ledger = record { usage = empty; decisions = empty }

-- None if request.limit is None or request.limit <= 0 else request.limit
abbrev pub effective_limit : Option ℤ → Option ℕ
effective_limit none = none
effective_limit (some limit) = if leb_ℤ limit (pos 0) then none else some (clip limit)

abbrev pub or_empty : Option Usage → Usage
or_empty none = empty
or_empty (some usage) = usage

-- self._usage.get(run_id) or {}, and what setdefault returns
unfoldable pub usage_of : BudgetLedger → String → Usage
usage_of self run_id = or_empty (get self.usage run_id)

abbrev pub or_zero : Option ℕ → ℕ
or_zero none = 0
or_zero (some amount) = amount

-- usage.get(metric) or 0.0
unfoldable pub amount_in : Usage → String → ℕ
amount_in usage metric = or_zero (get usage metric)

-- what the request would bring the metric to
unfoldable pub projected : BudgetRequest → ℕ → ℕ
projected request used =
    if request.aggregation == "max"
    then max used (clip request.amount)
    else used + clip request.amount

-- limit is not None and projected > limit
abbrev pub exceeds : ℕ → Option ℕ → Bool
exceeds amount none = false
exceeds amount (some limit) = ltb limit amount

-- None if limit is None else max(0, limit - used)
abbrev pub left_of : Option ℕ → ℕ → Option ℕ
left_of none used = none
left_of (some limit) used = some (limit - used)

-- the decision on a request of which `used` was used before
unfoldable pub decide : BudgetRequest → ℕ → BudgetDecision
unfolding projected
decide request used =
    let limit = effective_limit request.limit in
    let after = projected request used in
    if exceeds after limit
    then record {
      allowed = false;
      metric = request.metric;
      requested = clip request.amount;
      used = used;
      remaining = left_of limit used;
      limit = limit;
      reason = budget_exceeded request.metric;
    }
    else record {
      allowed = true;
      metric = request.metric;
      requested = clip request.amount;
      used = after;
      remaining = left_of limit after;
      limit = limit;
      reason = budget_reserved;
    }

abbrev pub decision_key : BudgetRequest → DecisionKey
decision_key request = (request.run_id, (request.metric, request.operation_id))

-- `self._decisions[decision_key] = decision`, if the request has an operation id
abbrev pub remember :
    BudgetRequest
    → BudgetDecision
    → Dict DecisionKey BudgetDecision
    → Dict DecisionKey BudgetDecision
remember request decision decisions =
    if request.operation_id == "" then decisions else put decisions (decision_key request) decision

-- request.operation_id and decision_key in self._decisions
unfoldable pub decided : BudgetLedger → BudgetRequest → Option BudgetDecision
decided self request =
    if request.operation_id == "" then none else get self.decisions (decision_key request)

-- a request that was not decided before
unfoldable pub consume_new : BudgetRequest → BudgetLedger → BudgetDecision × BudgetLedger
unfolding decide projected usage_of amount_in
consume_new request self =
    let run_usage = usage_of self request.run_id in
    let used = amount_in run_usage request.metric in
    let decision = decide request used in
    let usage =
      if decision.allowed
      then put run_usage request.metric (projected request used)
      else run_usage in
    (
      decision,
      record {
        usage = put self.usage request.run_id usage;
        decisions = remember request decision self.decisions;
      },
    )

abbrev pub if_decided :
    Option BudgetDecision
    → BudgetLedger
    → BudgetDecision × BudgetLedger
    → BudgetDecision × BudgetLedger
if_decided (some decision) self rest = (decision, self)
if_decided none self rest = rest

unfoldable pub consume : BudgetRequest → BudgetLedger → BudgetDecision × BudgetLedger
unfolding decided consume_new
consume request self = if_decided (decided self request) self (consume_new request self)

unfoldable pub snapshot : String → BudgetLedger → BudgetSnapshot
unfolding usage_of
snapshot run_id self = record { run_id = run_id; usage = usage_of self run_id }

-- the loop of `restore`
unfoldable pub restored : List (String × ℤ) → Usage → Usage
unfolding amount_in
restored [] current = current
restored ((metric, value) ∷ items) current =
    restored items (put current metric (max (amount_in current metric) (clip value)))

unfoldable pub restore : String → List (String × ℤ) → BudgetLedger → BudgetLedger
unfolding restored usage_of
restore run_id items self = record self {
  usage = put self.usage run_id (restored items (usage_of self run_id));
}

abbrev pub is_of_other : String → DecisionKey → Bool
is_of_other run_id key = not (key.0 == run_id)

unfoldable pub clear : String → BudgetLedger → BudgetLedger
clear run_id self = record {
  usage = remove self.usage run_id;
  decisions = filter_keys (is_of_other run_id) self.decisions;
}

-- preview_budget
unfoldable pub preview_budget : BudgetSnapshot → BudgetRequest → BudgetDecision
unfolding projected amount_in
preview_budget snapshot request =
    let limit = effective_limit request.limit in
    let used = amount_in snapshot.usage request.metric in
    let after = projected request used in
    let allowed = not (exceeds after limit) in
    record {
      allowed = allowed;
      metric = request.metric;
      requested = clip request.amount;
      used = if allowed then after else used;
      remaining = left_of limit (if allowed then after else used);
      limit = limit;
      reason = if allowed then budget_available else budget_exceeded request.metric;
    }

-- ===== src/ModelHealth/Examples.antt =====
-- Tests of the breaker, and each of its theorems at a concrete input.
use deepkeel.Base.{
  ◌≤◌, ◌<◌, true, false, none, some, List, [], ◌∷◌, string_eq, pair_eq, ◌≡◌, refl, arith, ne_of_beq,
}
use deepkeel.Base.Int.{pos}
use deepkeel.Base.Dict.{get, put, empty}
use deepkeel.Base.Text.{strip}
use deepkeel.ModelHealth.Store.{
  HealthStore, Failure, new_health_store, health_key, item_at, is_available, snapshot,
  record_success, record_failure, failed,
}
use deepkeel.ModelHealth.Breaker.{
  Report, succeeds, fails, looks, perform, serve, failures_of, opens_at_threshold,
}
use deepkeel.ModelHealth.Circuit.{open_until_its_time}

abbrev timeout_failure : Failure
timeout_failure = record { category = "timeout"; immediate = false; retry_after = pos 0 }

abbrev quota_failure : Failure
quota_failure = record { category = "quota"; immediate = true; retry_after = pos 9000000 }

abbrev store_of_three : HealthStore
store_of_three = new_health_store (pos 3) (pos 2000000)

-- `serve`, with what it and a look call open
computes : HealthStore → List Report → HealthStore
unfolding serve perform record_success record_failure failed snapshot item_at health_key strip get
    put empty failures_of
computes = serve

-- A failure that is not immediate, of a call that was under way, closes a circuit that an immediate
-- failure has opened.
closed_by_failure :
    ((item_at
        (computes store_of_three (fails "p" "m" quota_failure 10 ∷ []))
        ("p", "m")).opened_until
      ≡ some 9000010)
    × ((item_at
          (computes store_of_three
            (fails "p" "m" quota_failure 10 ∷ fails "p" "m" timeout_failure 20 ∷ []))
          ("p", "m")).opened_until
        ≡ none)
unfolding computes
closed_by_failure = (refl, refl)

abbrev two_failures : List Report
two_failures =
    fails "p" "m" timeout_failure 5
    ∷ looks "p" "m" 6
    ∷ succeeds "other" "m" 7
    ∷ fails " p " "m" timeout_failure 8
    ∷ []

opens_at_threshold_example :
    let after = serve (record_success "p" "m" 1 store_of_three).1 two_failures in
    let last = (record_failure "p" "m" timeout_failure 10 after).0 in
    (is_available (snapshot "p" "m" 10 after).0 10 ≡ true)
    × (last.consecutive_failures ≡ 3)
    × (last.opened_until ≡ some 2000010)
unfolding computes
opens_at_threshold_example =
    opens_at_threshold store_of_three "p" "m" 1 two_failures timeout_failure 10
      ((λ e. refl), (tt, (ne_of_beq refl, ((λ e. refl), tt)))) (omega arith)

open_until_its_time_example :
    let after =
      serve
        (record_failure "p" "m" quota_failure 10 store_of_three).1
        (looks "p" "m" 20 ∷ succeeds "other" "m" 21 ∷ []) in
    let found = (snapshot "p" "m" 9000010 after).0 in
    (9000010 < 9000010
      → (found ≡ (record_failure "p" "m" quota_failure 10 store_of_three).0)
        × (is_available found 9000010 ≡ false))
    × (9000010 ≤ 9000010 → (found.consecutive_failures ≡ 0) × (is_available found 9000010 ≡ true))
unfolding computes
open_until_its_time_example =
    open_until_its_time store_of_three "p" "m" quota_failure 10 9000010
      (looks "p" "m" 20 ∷ succeeds "other" "m" 21 ∷ []) 9000010 refl
      ((λ e. omega arith), (ne_of_beq refl, tt))

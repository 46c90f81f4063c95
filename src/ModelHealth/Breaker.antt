-- ===== src/ModelHealth/Breaker.antt =====
-- When the breaker opens and closes.
use deepkeel.Base.{
  ℕ, suc, ◌+◌, ◌<◌, max, String, true, false, ◌||◌, Option, none, some, List, [], ◌∷◌, All, ◌==◌,
  string_eq, pair_eq, leb, if◌then◌else◌, ◌≡◌, ◌≢◌, refl, sym, ap, subst, ◌∙◌, inl, inr, Bool-cases,
  arith, beq_refl, beq_ne, eq_of_beq, ne_of_beq,
}
use deepkeel.Base.Int.{clip}
use deepkeel.Base.Dict.{put, get-put}
use deepkeel.ModelHealth.Store.{
  HealthKey, ModelHealthSnapshot, HealthStore, Failure, health_key, item_at, is_available,
  has_expired, snapshot, record_success, failed, record_failure,
}

-- what callers report and ask
pub data Report : Type 0 where
  succeeds : String → String → ℕ → Report
  fails : String → String → Failure → ℕ → Report
  looks : String → String → ℕ → Report

abbrev pub key_of : Report → HealthKey
key_of (succeeds provider model now) = health_key provider model
key_of (fails provider model failure now) = health_key provider model
key_of (looks provider model now) = health_key provider model

unfoldable pub perform : HealthStore → Report → HealthStore
perform self (succeeds provider model now) = (record_success provider model now self).1
perform self (fails provider model failure now) = (record_failure provider model failure now self).1
perform self (looks provider model now) = (snapshot provider model now self).1

pub item_at-put :
    (self : HealthStore) (key k : HealthKey) (item : ModelHealthSnapshot)
    → item_at (record self { items = put self.items key item }) k
      ≡ (if key == k then item else item_at self k)
unfolding item_at
item_at-put self key k item =
    rw get-put (elim (Bool-cases (key == k)) [ inl e ↦ rw e refl | inr e ↦ rw e refl ])

-- a look at a binding that has no expired circuit changes nothing
pub snapshot-quiet :
    (self : HealthStore) (provider model : String) (now : ℕ)
    → has_expired (item_at self (health_key provider model)).opened_until now ≡ false
    → snapshot provider model now self ≡ (item_at self (health_key provider model), self)
unfolding snapshot
snapshot-quiet self provider model now h = rw h refl

pub snapshot-other :
    (self : HealthStore) (provider model : String) (now : ℕ) (key : HealthKey)
    → health_key provider model ≢ key
    → item_at (snapshot provider model now self).1 key ≡ item_at self key
unfolding snapshot
snapshot-other self provider model now key other =
    elim (Bool-cases (has_expired (item_at self (health_key provider model)).opened_until now)) [
      | inl e ↦ rw e (rw (item_at-put, beq_ne other) refl)
      | inr e ↦ rw e refl
    ]

snapshot-settings :
    (self : HealthStore) (provider model : String) (now : ℕ)
    → ((snapshot provider model now self).1.failure_threshold ≡ self.failure_threshold)
      × ((snapshot provider model now self).1.cooldown ≡ self.cooldown)
unfolding snapshot
snapshot-settings self provider model now =
    elim (Bool-cases (has_expired (item_at self (health_key provider model)).opened_until now)) [
      | inl e ↦ rw e (refl, refl)
      | inr e ↦ rw e (refl, refl)
    ]

perform-settings :
    (self : HealthStore) (report : Report)
    → ((perform self report).failure_threshold ≡ self.failure_threshold)
      × ((perform self report).cooldown ≡ self.cooldown)
unfolding perform record_success record_failure
perform-settings self (succeeds provider model now) = (refl, refl)
perform-settings self (fails provider model failure now) = (refl, refl)
perform-settings self (looks provider model now) = snapshot-settings self provider model now

-- A report that does not end a binding's streak of failures: it does not succeed for it, and a failure
-- of it is not an immediate one.
abbrev pub IsQuiet : HealthKey → Report → Type 0
IsQuiet key (succeeds provider model now) = health_key provider model ≢ key
IsQuiet key (fails provider model failure now) =
    health_key provider model ≡ key → failure.immediate ≡ false
IsQuiet key (looks provider model now) = Unit

-- how many failures of a binding there are among reports
unfoldable pub failures_of : HealthKey → List Report → ℕ
failures_of key [] = 0
failures_of key (succeeds provider model now ∷ rest) = failures_of key rest
failures_of key (fails provider model failure now ∷ rest) =
    let others = failures_of key rest in
    if health_key provider model == key then suc others else others
failures_of key (looks provider model now ∷ rest) = failures_of key rest

unfoldable pub serve : HealthStore → List Report → HealthStore
serve self [] = self
serve self (report ∷ rest) = serve (perform self report) rest

-- the circuit of a binding is closed, after a number of failures
record IsClosed (self : HealthStore) (key : HealthKey) (n : ℕ) : Type 0 where
  pub failures : (item_at self key).consecutive_failures ≡ n
  pub closed : (item_at self key).opened_until ≡ none

IsClosed-of_same :
    {self self' : HealthStore} {key : HealthKey} {n : ℕ}
    → item_at self' key ≡ item_at self key
    → IsClosed self key n
    → IsClosed self' key n
IsClosed-of_same e c = record { failures = rw e c.failures; closed = rw e c.closed }

look-IsClosed :
    (self : HealthStore) (provider model : String) (now n : ℕ) (key : HealthKey)
    → IsClosed self key n
    → IsClosed (snapshot provider model now self).1 key n
look-IsClosed self provider model now n key c =
    elim (Bool-cases (health_key provider model == key)) [
      | inl e ↦
          let same : health_key provider model ≡ key = eq_of_beq e in
          let quiet : has_expired (item_at self (health_key provider model)).opened_until now
              ≡ false =
            rw (same, c.closed) refl in
          rw (snapshot-quiet self provider model now quiet) c
      | inr e ↦ IsClosed-of_same (snapshot-other self provider model now key (ne_of_beq e)) c
    ]

-- until when a failure opens the circuit, by the settings and how many there are
abbrev opening : ℕ → ℕ → Failure → ℕ → ℕ → Option ℕ
opening threshold cooldown failure now n =
    if failure.immediate || leb threshold n
    then some (now + max cooldown (clip failure.retry_after))
    else none

-- the snapshot after a failure of a binding whose circuit was closed
failed-closed :
    (self : HealthStore) (key : HealthKey) (failure : Failure) (now n : ℕ)
    → IsClosed self key n
    → ((failed key failure now self).consecutive_failures ≡ suc n)
      × ((failed key failure now self).opened_until ≡ (
          if failure.immediate || leb self.failure_threshold (suc n)
          then some (now + max self.cooldown (clip failure.retry_after))
          else none))
unfolding failed
failed-closed self key failure now n c =
    let count : (item_at self key).consecutive_failures + 1 ≡ suc n = omega (arith, c.failures) in
    (count, rw count refl)

fail-IsClosed :
    (self : HealthStore) (provider model : String) (failure : Failure) (now n : ℕ) (key : HealthKey)
    → (health_key provider model ≡ key → failure.immediate ≡ false)
    → IsClosed self key n
    → ((health_key provider model == key) ≡ true → suc n < self.failure_threshold)
    → IsClosed
        (record_failure provider model failure now self).1
        key
        (if health_key provider model == key then suc n else n)
unfolding record_failure
fail-IsClosed self provider model failure now n key calm c below =
    elim (Bool-cases (health_key provider model == key)) [
      | inl e ↦
          let same : health_key provider model ≡ key = eq_of_beq e in
          let (failures, opened) = failed-closed self key failure now n c in
          let low : leb self.failure_threshold (suc n) ≡ false = ground (arith, below e) in
          let quiet : failure.immediate ≡ false = calm same in
          rw e (record {
            failures = rw (item_at-put, e) (rw same failures);
            closed = rw (item_at-put, e) (rw same (ground (arith, opened, low, quiet)));
          })
      | inr e ↦ rw e (IsClosed-of_same (rw (item_at-put, e) refl) c)
    ]

perform-IsClosed :
    (self : HealthStore) (report : Report) (rest : List Report) (n : ℕ) (key : HealthKey)
    → IsQuiet key report
    → IsClosed self key n
    → n + failures_of key (report ∷ rest) < self.failure_threshold
    → (m : ℕ) × IsClosed (perform self report) key m
      × (m + failures_of key rest ≡ n + failures_of key (report ∷ rest))
unfolding perform record_success failures_of
perform-IsClosed self (succeeds provider model now) rest n key quiet c below =
    (n, IsClosed-of_same (rw (item_at-put, beq_ne quiet) refl) c, refl)
perform-IsClosed self (looks provider model now) rest n key quiet c below =
    (n, look-IsClosed self provider model now n key c, refl)
perform-IsClosed self (fails provider model failure now) rest n key quiet c below = (
  if health_key provider model == key then suc n else n,
  fail-IsClosed self provider model failure now n key quiet c (λ own. ground (arith, own, below)),
  ground arith,
)

no_failures : (n : ℕ) (key : HealthKey) → n + failures_of key [] ≡ n
unfolding failures_of
no_failures n key = omega arith

serve-IsClosed :
    (self : HealthStore) (reports : List Report) (n : ℕ) (key : HealthKey)
    → All (IsQuiet key) reports
    → IsClosed self key n
    → n + failures_of key reports < self.failure_threshold
    → IsClosed (serve self reports) key (n + failures_of key reports)
      × ((serve self reports).failure_threshold ≡ self.failure_threshold)
      × ((serve self reports).cooldown ≡ self.cooldown)
unfolding serve
serve-IsClosed self [] n key quiet c below =
    let none_more : n + failures_of key [] ≡ n = no_failures n key in (rw none_more c, refl, refl)
serve-IsClosed self (report ∷ rest) n key (quiet, others) c below =
    let (threshold, cooldown) = perform-settings self report in
    let (m, c', count) = perform-IsClosed self report rest n key quiet c below in
    let (closed, threshold', cooldown') =
      serve-IsClosed (perform self report) rest m key others c'
        (omega (arith, count, threshold, below)) in
    (rw (sym count) closed, threshold' ∙ threshold, cooldown' ∙ cooldown)

-- The breaker opens at the threshold and not before. After a success of a binding, and after any
-- reports in which it does not succeed and has fewer failures than the threshold, none of them
-- immediate, and in which callers look at it at any times and anything happens to other bindings: its
-- circuit is still closed at any time; and the next failure is counted as one more, and opens the
-- circuit exactly where it is immediate or makes the threshold, for the cooldown or for the time that
-- the provider asks for, if that is longer.
pub opens_at_threshold :
    (self : HealthStore) (provider model : String) (start : ℕ) (reports : List Report)
    (failure : Failure) (now : ℕ)
    → All (IsQuiet (health_key provider model)) reports
    → failures_of (health_key provider model) reports < self.failure_threshold
    → let after = serve (record_success provider model start self).1 reports in
      let count = failures_of (health_key provider model) reports in
      let last = (record_failure provider model failure now after).0 in
      (is_available (snapshot provider model now after).0 now ≡ true)
      × (last.consecutive_failures ≡ suc count)
      × (last.opened_until ≡ (
          if failure.immediate || leb self.failure_threshold (suc count)
          then some (now + max self.cooldown (clip failure.retry_after))
          else none))
unfolding record_success record_failure
opens_at_threshold self provider model start reports failure now quiet below =
    let key : HealthKey = health_key provider model in
    let here : (key == key) ≡ true = beq_refl key in
    let first : HealthStore = (record_success provider model start self).1 in
    let fresh : IsClosed first key 0 = record {
      failures = rw (item_at-put, here) refl;
      closed = rw (item_at-put, here) refl;
    } in
    let (closed, threshold, cooldown) =
      serve-IsClosed first reports 0 key quiet fresh (omega (arith, below)) in
    let after : HealthStore = serve first reports in
    let count : 0 + failures_of key reports ≡ failures_of key reports = omega arith in
    let closed_now : IsClosed after key (failures_of key reports) =
      subst (IsClosed after key) count closed in
    let count_now : ℕ = suc (failures_of key reports) in
    let same_threshold : after.failure_threshold ≡ self.failure_threshold = threshold in
    let same_cooldown : after.cooldown ≡ self.cooldown = cooldown in
    let (counted, opened) =
      failed-closed after key failure now (failures_of key reports) closed_now in
    let quiet_now : has_expired (item_at after key).opened_until now ≡ false =
      rw closed_now.closed refl in
    (
      rw (snapshot-quiet after provider model now quiet_now) (rw closed_now.closed refl),
      counted,
      opened
          ∙ ap (λ t. opening t after.cooldown failure now count_now) same_threshold
          ∙ ap (λ c. opening self.failure_threshold c failure now count_now) same_cooldown,
    )

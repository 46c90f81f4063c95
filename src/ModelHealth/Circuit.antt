-- ===== src/ModelHealth/Circuit.antt =====
-- How long an open circuit stays open.
use deepkeel.Base.{
  ℕ, ◌≤◌, ◌<◌, String, true, false, some, List, [], ◌∷◌, All, ◌==◌, string_eq, pair_eq, leb, ◌≡◌,
  ◌≢◌, refl, ◌∙◌, inl, inr, Bool-cases, arith, beq_refl, beq_ne, eq_of_beq, ne_of_beq,
}
use deepkeel.ModelHealth.Store.{
  HealthKey, HealthStore, Failure, health_key, item_at, is_available, has_expired, snapshot,
  record_success, failed, record_failure,
}
use deepkeel.ModelHealth.Breaker.{
  Report, succeeds, fails, looks, perform, serve, item_at-put, snapshot-quiet, snapshot-other,
}

-- A report that is about another binding, or a look at this one before a time
abbrev pub IsBefore : HealthKey → ℕ → Report → Type 0
IsBefore key until (succeeds provider model now) = health_key provider model ≢ key
IsBefore key until (fails provider model failure now) = health_key provider model ≢ key
IsBefore key until (looks provider model now) = health_key provider model ≡ key → now < until

look-kept :
    (self : HealthStore) (provider model : String) (now until : ℕ) (key : HealthKey)
    → (health_key provider model ≡ key → now < until)
    → (item_at self key).opened_until ≡ some until
    → item_at (snapshot provider model now self).1 key ≡ item_at self key
look-kept self provider model now until key early opened =
    elim (Bool-cases (health_key provider model == key)) [
      | inl e ↦
          let same : health_key provider model ≡ key = eq_of_beq e in
          let late : leb until now ≡ false = ground (arith, early same) in
          let quiet : has_expired (item_at self (health_key provider model)).opened_until now
              ≡ false =
            rw (same, opened) late in
          rw (snapshot-quiet self provider model now quiet) refl
      | inr e ↦ snapshot-other self provider model now key (ne_of_beq e)
    ]

perform-kept :
    (self : HealthStore) (report : Report) (until : ℕ) (key : HealthKey)
    → IsBefore key until report
    → (item_at self key).opened_until ≡ some until
    → item_at (perform self report) key ≡ item_at self key
unfolding perform record_success record_failure
perform-kept self (succeeds provider model now) until key other opened =
    rw (item_at-put, beq_ne other) refl
perform-kept self (fails provider model failure now) until key other opened =
    rw (item_at-put, beq_ne other) refl
perform-kept self (looks provider model now) until key early opened =
    look-kept self provider model now until key early opened

serve-kept :
    (self : HealthStore) (reports : List Report) (until : ℕ) (key : HealthKey)
    → All (IsBefore key until) reports
    → (item_at self key).opened_until ≡ some until
    → item_at (serve self reports) key ≡ item_at self key
unfolding serve
serve-kept self [] until key before opened = refl
serve-kept self (report ∷ rest) until key (first, before) opened =
    let kept : item_at (perform self report) key ≡ item_at self key =
      perform-kept self report until key first opened in
    serve-kept (perform self report) rest until key before (rw kept opened) ∙ kept

snapshot-opened :
    (self : HealthStore) (provider model : String) (now until : ℕ)
    → (item_at self (health_key provider model)).opened_until ≡ some until
    → (now < until
        → ((snapshot provider model now self).0 ≡ item_at self (health_key provider model))
          × (is_available (snapshot provider model now self).0 now ≡ false))
      × (until ≤ now
          → ((snapshot provider model now self).0.consecutive_failures ≡ 0)
            × (is_available (snapshot provider model now self).0 now ≡ true))
unfolding snapshot
snapshot-opened self provider model now until opened = (
  λ early.
      let late : leb until now ≡ false = ground (arith, early) in
      rw (opened, late) (refl, rw opened late),
  λ over. let late : leb until now ≡ true = ground (arith, over) in rw (opened, late) (refl, refl),
)

-- An open circuit stays open until its time and not longer. Where a failure of a binding has opened its
-- circuit until some time, then after any reports on other bindings and any looks at this one before
-- that time: a look before that time finds it as the failure left it, and not available; and a look
-- from that time on finds it available, with no failures counted.
pub open_until_its_time :
    (self : HealthStore) (provider model : String) (failure : Failure) (start until : ℕ)
    (reports : List Report) (now : ℕ)
    → (record_failure provider model failure start self).0.opened_until ≡ some until
    → All (IsBefore (health_key provider model) until) reports
    → let after = serve (record_failure provider model failure start self).1 reports in
      let found = (snapshot provider model now after).0 in
      (now < until
        → (found ≡ (record_failure provider model failure start self).0)
          × (is_available found now ≡ false))
      × (until ≤ now → (found.consecutive_failures ≡ 0) × (is_available found now ≡ true))
unfolding record_failure
open_until_its_time self provider model failure start until reports now opened before =
    let key : HealthKey = health_key provider model in
    let here : (key == key) ≡ true = beq_refl key in
    let left : HealthStore = (record_failure provider model failure start self).1 in
    let recorded : item_at left key ≡ failed key failure start self = rw (item_at-put, here) refl in
    let opened_left : (item_at left key).opened_until ≡ some until = rw recorded opened in
    let kept : item_at (serve left reports) key ≡ item_at left key =
      serve-kept left reports until key before opened_left in
    let opened_now : (item_at (serve left reports) key).opened_until ≡ some until =
      rw kept opened_left in
    let (early, late) = snapshot-opened (serve left reports) provider model now until opened_now in
    (λ h. ((early h).0 ∙ kept ∙ recorded, (early h).1), late)

-- ===== src/ModelHealth/Store.antt =====
-- `InMemoryModelHealthStore`. Times and lengths of time are microseconds; the clock is an argument.
use deepkeel.Base.{
  ℕ, ◌+◌, max, String, Bool, true, false, ◌||◌, Option, none, some, string_eq, pair_eq, leb,
  if◌then◌else◌,
}
use deepkeel.Base.Int.{ℤ, clip}
use deepkeel.Base.Dict.{Dict, empty, get, put}
use deepkeel.Base.Text.{strip, or_else}

abbrev pub HealthKey : Type 0
HealthKey = String × String

pub record ModelHealthSnapshot : Type 0 where
  pub provider_id : String
  pub model_id : String
  pub consecutive_failures : ℕ
  pub opened_until : Option ℕ
  pub last_failure_category : String
  pub last_failure_at : Option ℕ
  pub updated_at : Option ℕ

-- InMemoryModelHealthStore
pub record HealthStore : Type 0 where
  pub failure_threshold : ℕ
  pub cooldown : ℕ
  pub items : Dict HealthKey ModelHealthSnapshot

-- __init__: at least one failure, and at least a second
abbrev pub new_health_store : ℤ → ℤ → HealthStore
new_health_store failure_threshold cooldown = record {
  failure_threshold = max 1 (clip failure_threshold);
  cooldown = max 1000000 (clip cooldown);
  items = empty;
}

-- _health_key
unfoldable pub health_key : String → String → HealthKey
health_key provider_id model_id = (
  or_else (strip (or_else provider_id "unknown-provider")) "unknown-provider",
  or_else (strip (or_else model_id "unknown-model")) "unknown-model",
)

-- ModelHealthSnapshot(*key, updated_at=…)
abbrev pub healthy : HealthKey → Option ℕ → ModelHealthSnapshot
healthy key updated_at = record {
  provider_id = key.0;
  model_id = key.1;
  consecutive_failures = 0;
  opened_until = none;
  last_failure_category = "";
  last_failure_at = none;
  updated_at = updated_at;
}

abbrev pub or_healthy : HealthKey → Option ModelHealthSnapshot → ModelHealthSnapshot
or_healthy key none = healthy key none
or_healthy key (some current) = current

-- self._items.get(key) or ModelHealthSnapshot(*key)
unfoldable pub item_at : HealthStore → HealthKey → ModelHealthSnapshot
item_at self key = or_healthy key (get self.items key)

-- opened_until is not None and opened_until <= now
abbrev pub has_expired : Option ℕ → ℕ → Bool
has_expired none now = false
has_expired (some until) now = leb until now

-- opened_until is None or opened_until <= now
abbrev pub is_open_to : Option ℕ → ℕ → Bool
is_open_to none now = true
is_open_to (some until) now = leb until now

-- ModelHealthSnapshot.is_available
abbrev pub is_available : ModelHealthSnapshot → ℕ → Bool
is_available self now = is_open_to self.opened_until now

unfoldable pub snapshot : String → String → ℕ → HealthStore → ModelHealthSnapshot × HealthStore
unfolding item_at
snapshot provider_id model_id now self =
    let key = health_key provider_id model_id in
    let current = item_at self key in
    let closed = record current {
      consecutive_failures = 0;
      opened_until = none;
      updated_at = some now;
    } in
    if has_expired current.opened_until now
    then (closed, record self { items = put self.items key closed })
    else (current, self)

unfoldable pub record_success :
    String → String → ℕ → HealthStore → ModelHealthSnapshot × HealthStore
record_success provider_id model_id now self =
    let key = health_key provider_id model_id in
    let current = healthy key (some now) in
    (current, record self { items = put self.items key current })

-- The arguments of a failure: its category, whether it is `immediate`, and what the provider asks for
pub record Failure : Type 0 where
  pub category : String
  pub immediate : Bool
  pub retry_after : ℤ

-- the snapshot after a failure
unfoldable pub failed : HealthKey → Failure → ℕ → HealthStore → ModelHealthSnapshot
unfolding item_at
failed key failure now self =
    let failures = (item_at self key).consecutive_failures + 1 in
    let should_open = failure.immediate || leb self.failure_threshold failures in
    record {
      provider_id = key.0;
      model_id = key.1;
      consecutive_failures = failures;
      opened_until =
          if should_open then some (now + max self.cooldown (clip failure.retry_after)) else none;
      last_failure_category = or_else failure.category "provider_error";
      last_failure_at = some now;
      updated_at = some now;
    }

unfoldable pub record_failure :
    String → String → Failure → ℕ → HealthStore → ModelHealthSnapshot × HealthStore
unfolding failed
record_failure provider_id model_id failure now self =
    let key = health_key provider_id model_id in
    let current = failed key failure now self in
    (current, record self { items = put self.items key current })

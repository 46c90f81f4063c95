-- ===== src/StateStore/Status.antt =====
-- The statuses of a run, as state_store.py names and normalizes them.
use deepkeel.Base.{
  String, Bool, false, ◌≡◌, refl, if◌then◌else◌, ◌==◌, string_eq, Bool-cases, inl, inr, List, [],
  ◌∷◌, contains,
}
use deepkeel.Base.Text.{strip, lower, or_else, lower-strip_again}

-- TERMINAL_RUN_STATUSES
abbrev pub terminal_run_statuses : List String
terminal_run_statuses = "completed" ∷ "failed" ∷ "canceled" ∷ []

-- RUN_SETTLED_EVENT
abbrev pub run_settled_event : String
run_settled_event = "run.settled"

unfoldable pub is_terminal : String → Bool
is_terminal status = contains terminal_run_statuses status

unfoldable pub normalize_runtime_status : String → String
normalize_runtime_status status =
    let normalized = lower (strip (or_else status "preparing")) in
    if normalized == "cancelled" then "canceled" else normalized

pub normalize-preparing : normalize_runtime_status "preparing" ≡ "preparing"
unfolding normalize_runtime_status strip lower
normalize-preparing = refl

lower-strip-preparing : lower (strip "preparing") ≡ "preparing"
unfolding strip lower
lower-strip-preparing = refl

lower-strip-or_else :
    (s : String)
    → lower (strip s) ≡ s
    → lower (strip (or_else s "preparing")) ≡ or_else s "preparing"
lower-strip-or_else String.[] h = lower-strip-preparing
lower-strip-or_else (String.◌∷◌ c s) h = h

ne_cancelled-or_else :
    (n : String) → (n == "cancelled") ≡ false → (or_else n "preparing" == "cancelled") ≡ false
ne_cancelled-or_else String.[] h = refl
ne_cancelled-or_else (String.◌∷◌ c n) h = h

-- Normalizing again changes a blank status only: it stands for "preparing".
pub normalize-normalize :
    (s : String)
    → normalize_runtime_status (normalize_runtime_status s)
      ≡ or_else (normalize_runtime_status s) "preparing"
unfolding normalize_runtime_status
normalize-normalize s =
    let n = lower (strip (or_else s "preparing")) in
    let fixed : lower (strip n) ≡ n = lower-strip_again (or_else s "preparing") in
    elim (Bool-cases (n == "cancelled")) [
      | inl e ↦ rw e (unfold strip lower in refl)
      | inr e ↦ rw (e, lower-strip-or_else n fixed, ne_cancelled-or_else n e)
    ]

-- A blank status stands for "preparing" also as far as the end of a run goes.
pub is_terminal-or_else : (s : String) → is_terminal (or_else s "preparing") ≡ is_terminal s
unfolding is_terminal
is_terminal-or_else String.[] = refl
is_terminal-or_else (String.◌∷◌ c s) = refl

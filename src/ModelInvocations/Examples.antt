-- ===== src/ModelInvocations/Examples.antt =====
-- Tests of the invocation store, and each of its theorems at a concrete input.
use deepkeel.Base.{
  ℕ, String, ◌≡◌, ◌≢◌, refl, some, ok, err, List, [], ◌∷◌, string_eq, nat_eq, ne_of_beq,
}
use deepkeel.Base.Int.{pos}
use deepkeel.Base.Dict.{get, put, empty}
use deepkeel.ModelInvocations.Store.{
  ModelInvocationEnvelope, ModelInvocationRecord, acquired, replay, in_progress, uncertain, Records,
  claim, claim_of, uncertain_claim, complete, fail, settle, settled_record, new_record, take_text,
  already_settled,
}
use deepkeel.ModelInvocations.Histories.{Operation, claims, fails, serve, perform}
use deepkeel.ModelInvocations.Once.{acquired_once, holder_settles}

abbrev envelope_of : String → ModelInvocationEnvelope String
envelope_of request = record {
  invocation_id = "i";
  run_id = "run";
  tenant_id = "";
  user_id = "local-device";
  namespace = "default";
  thread_id = "thread";
  turn_id = "turn";
  step_index = pos 0;
  attempt_index = pos 1;
  retry_kind = "primary";
  provider_id = "";
  model_id = "";
  model_role = "";
  router_id = "";
  route_reason = "";
  estimated_input_tokens = pos 0;
  request = request;
  created_at = 0;
}

abbrev print_of : String → String
print_of request = request

abbrev nothing_claimed : Records String ℕ
nothing_claimed = empty

-- `serve`, with all that it calls open
computes : Records String ℕ → List (Operation String ℕ) → Records String ℕ
unfolding serve perform claim complete fail settle settled_record new_record take_text get put empty
computes = serve print_of

abbrev claimed_store : Records String ℕ
claimed_store = put nothing_claimed "i" (new_record 10 "t" (pos 5000000) (envelope_of "ask"))

-- a second claim waits until the first expires, and then does not know
second_claims :
    (claim print_of 20 "u" (envelope_of "ask") (pos 1) claimed_store
      ≡ ok (claim_of "i" in_progress, claimed_store))
    × (claim print_of 5000010 "u" (envelope_of "ask") (pos 1) claimed_store
        ≡ ok (uncertain_claim "i", claimed_store))
unfolding computes
second_claims = (refl, refl)

acquired_once_example : uncertain ≢ acquired
unfolding computes
acquired_once_example =
    acquired_once print_of nothing_claimed 10 "t" (envelope_of "ask") (pos 5000000)
      (fails 12 "i" "u" "timeout" "late" ∷ []) 5000010 "u" (envelope_of "ask") (pos 1) refl refl
      refl refl

holder_settles_example :
    (settled : ModelInvocationRecord String ℕ) × (done : Records String ℕ) × (complete 9000000 "i"
        "t" 7
        (serve print_of claimed_store
          (claims 11 "u" (envelope_of "ask") (pos 1) ∷ fails 12 "i" "u" "" "" ∷ []))
      ≡ ok (settled, done))
    × (let later = serve print_of done (fails 9000001 "i" "t" "timeout" "late" ∷ []) in
        (claim print_of 9000002 "v" (envelope_of "ask") (pos 1) later
          ≡ ok (record (claim_of "i" replay) { result = some 7 }, later))
        × (complete 9000002 "i" "v" 8 later ≡ err already_settled))
unfolding computes
holder_settles_example =
    holder_settles print_of nothing_claimed 10 "t" (envelope_of "ask") (pos 5000000)
      (claims 11 "u" (envelope_of "ask") (pos 1) ∷ fails 12 "i" "u" "" "" ∷ [])
      (fails 9000001 "i" "t" "timeout" "late" ∷ []) 7 8 9000000 9000002 "v" (envelope_of "ask")
      (pos 1) refl refl (ne_of_beq refl) (tt, ((λ e. ne_of_beq refl), tt)) refl refl
      (ne_of_beq refl)

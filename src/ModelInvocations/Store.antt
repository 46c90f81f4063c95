-- ===== src/ModelInvocations/Store.antt =====
-- `InMemoryModelInvocationStore` and `InMemoryModelInvocationRecorder`. Requests and model turns are
-- type parameters; `fingerprint` stands for `request_fingerprint`, the SHA-256 of a request's JSON. The
-- clock and the new claim token (a uuid) are arguments; times are microseconds.

use deepkeel.Base.{
  ℕ, zero, suc, ◌+◌, max, String, Bool, true, false, not, ◌||◌, Option, none, some, Result, ok, err,
  if◌then◌else◌, Eq, ◌==◌, string_eq, ltb,
}
use deepkeel.Base.Int.{ℤ, clip}
use deepkeel.Base.Dict.{Dict, get, put}

-- ModelInvocationConflict, by its message; and the recorder's ValueError
pub data InvocationError : Type 0 where
  id_reused : InvocationError
  unknown_invocation : InvocationError
  already_settled : InvocationError
  claim_token_changed : InvocationError

-- ModelInvocationEnvelope
pub record ModelInvocationEnvelope (Request : Type 0) : Type 0 where
  pub invocation_id : String
  pub run_id : String
  pub tenant_id : String
  pub user_id : String
  pub namespace : String
  pub thread_id : String
  pub turn_id : String
  pub step_index : ℤ
  pub attempt_index : ℤ
  pub retry_kind : String
  pub provider_id : String
  pub model_id : String
  pub model_role : String
  pub router_id : String
  pub route_reason : String
  pub estimated_input_tokens : ℤ
  pub request : Request
  pub created_at : ℕ

-- the `status` of a record
pub data InvocationStatus : Type 0 where
  running : InvocationStatus
  completed : InvocationStatus
  failed : InvocationStatus

-- the `outcome` of a claim
pub data ClaimOutcome : Type 0 where
  replay : ClaimOutcome
  has_failed : ClaimOutcome
  in_progress : ClaimOutcome
  uncertain : ClaimOutcome
  acquired : ClaimOutcome

-- ModelInvocationClaim
pub record ModelInvocationClaim (Turn : Type 0) : Type 0 where
  pub invocation_id : String
  pub outcome : ClaimOutcome
  pub claim_token : String
  pub result : Option Turn
  pub failure_type : String
  pub failure_message : String

-- ModelInvocationRecord
pub record ModelInvocationRecord (Request Turn : Type 0) : Type 0 where
  pub envelope : ModelInvocationEnvelope Request
  pub status : InvocationStatus
  pub claim_token : String
  pub claim_expires_at : Option ℕ
  pub result : Option Turn
  pub failure_type : String
  pub failure_message : String
  pub updated_at : ℕ

abbrev pub Records : Type 0 → Type 0 → Type 0
Records Request Turn = Dict String (ModelInvocationRecord Request Turn)

-- text[:n]
unfoldable pub take_text : ℕ → String → String
take_text zero text = String.[]
take_text (suc n) String.[] = String.[]
take_text (suc n) (String.◌∷◌ c text) = String.◌∷◌ c (take_text n text)

-- claim_expires_at is None or claim_expires_at > now
abbrev pub is_current : Option ℕ → ℕ → Bool
is_current none now = true
is_current (some until) now = ltb now until

module _ {Turn : Type 0} where
  -- ModelInvocationClaim(invocation_id=…, outcome=…), with the defaults of the other fields
  abbrev pub claim_of : String → ClaimOutcome → ModelInvocationClaim Turn
  claim_of invocation_id outcome = record {
    invocation_id = invocation_id;
    outcome = outcome;
    claim_token = "";
    result = none;
    failure_type = "";
    failure_message = "";
  }

  abbrev pub uncertain_claim : String → ModelInvocationClaim Turn
  uncertain_claim invocation_id = record (claim_of invocation_id uncertain) {
    failure_type = "claim_expired";
    failure_message = "the previous provider invocation expired without a durable result";
  }

  abbrev pub unsettled_claim : String → Option ℕ → ℕ → ModelInvocationClaim Turn
  unsettled_claim invocation_id expires_at now =
      if is_current expires_at now
      then claim_of invocation_id in_progress
      else uncertain_claim invocation_id

module _ {Request Turn : Type 0} where
  -- the claim of an invocation that has a record
  abbrev pub claim_again :
      ModelInvocationRecord Request Turn
      → InvocationStatus
      → Option Turn
      → String
      → ℕ
      → ModelInvocationClaim Turn
  claim_again found completed (some result) invocation_id now =
      record (claim_of invocation_id replay) { result = some result }
  claim_again found completed none invocation_id now =
      unsettled_claim invocation_id found.claim_expires_at now
  claim_again found failed result invocation_id now = record (claim_of invocation_id has_failed) {
    failure_type = found.failure_type;
    failure_message = found.failure_message;
  }
  claim_again found running result invocation_id now =
      unsettled_claim invocation_id found.claim_expires_at now

  unfoldable pub new_record :
      ℕ → String → ℤ → ModelInvocationEnvelope Request → ModelInvocationRecord Request Turn
  new_record now token lease envelope = record {
    envelope = envelope;
    status = running;
    claim_token = token;
    claim_expires_at = some (now + max 1000000 (clip lease));
    result = none;
    failure_type = "";
    failure_message = "";
    updated_at = now;
  }

  abbrev pub claim_found :
      (Request → String)
      → ℕ
      → String
      → ModelInvocationEnvelope Request
      → ℤ
      → Records Request Turn
      → Option (ModelInvocationRecord Request Turn)
      → Result InvocationError (ModelInvocationClaim Turn × Records Request Turn)
  claim_found fingerprint now token envelope lease self none = ok (
    record (claim_of envelope.invocation_id acquired) { claim_token = token },
    put self envelope.invocation_id (new_record now token lease envelope),
  )
  claim_found fingerprint now token envelope lease self (some found) =
      if not (fingerprint found.envelope.request == fingerprint envelope.request)
      then err id_reused
      else ok (claim_again found found.status found.result envelope.invocation_id now, self)

  unfoldable pub claim :
      (Request → String)
      → ℕ
      → String
      → ModelInvocationEnvelope Request
      → ℤ
      → Records Request Turn
      → Result InvocationError (ModelInvocationClaim Turn × Records Request Turn)
  claim fingerprint now token envelope lease self =
      claim_found fingerprint now token envelope lease self (get self envelope.invocation_id)

module _ {Turn : Type 0} ⦃same : Eq Turn⦄ where
  -- record.result is not None and record.result == result
  abbrev pub equal_results : Option Turn → Option Turn → Bool
  equal_results none result = false
  equal_results (some kept) none = false
  equal_results (some kept) (some result) = kept == result

  -- same_result, of the new status and result and the old ones
  abbrev pub is_repeat : InvocationStatus → Option Turn → InvocationStatus → Option Turn → Bool
  is_repeat completed result completed kept = equal_results kept result
  is_repeat failed result failed kept = true
  is_repeat completed result failed kept = false
  is_repeat completed result running kept = false
  is_repeat failed result completed kept = false
  is_repeat failed result running kept = false
  is_repeat running result status kept = false

-- record.status in {"completed", "failed"}
abbrev pub is_settled : InvocationStatus → Bool
is_settled completed = true
is_settled failed = true
is_settled running = false

module _ {Request Turn : Type 0} ⦃same : Eq Turn⦄ where
  unfoldable pub settled_record :
      ℕ
      → InvocationStatus
      → Option Turn
      → String
      → String
      → ModelInvocationRecord Request Turn
      → ModelInvocationRecord Request Turn
  settled_record now status result failure_type failure_message found = record found {
    status = status;
    claim_token = "";
    claim_expires_at = none;
    result = result;
    failure_type = failure_type;
    failure_message = take_text 500 failure_message;
    updated_at = now;
  }

  abbrev pub settle_found :
      ℕ
      → String
      → String
      → InvocationStatus
      → Option Turn
      → String
      → String
      → Records Request Turn
      → Option (ModelInvocationRecord Request Turn)
      → Result InvocationError (ModelInvocationRecord Request Turn × Records Request Turn)
  settle_found now invocation_id token status result failure_type failure_message self none =
      err unknown_invocation
  settle_found now invocation_id token status result failure_type failure_message self
        (some found) =
      let settled = settled_record now status result failure_type failure_message found in
      if is_settled found.status
      then (if is_repeat status result found.status found.result
          then ok (found, self)
          else err already_settled)
      else if token == "" || not (token == found.claim_token)
      then err claim_token_changed
      else ok (settled, put self invocation_id settled)

  -- _settle
  unfoldable pub settle :
      ℕ
      → String
      → String
      → InvocationStatus
      → Option Turn
      → String
      → String
      → Records Request Turn
      → Result InvocationError (ModelInvocationRecord Request Turn × Records Request Turn)
  settle now invocation_id token status result failure_type failure_message self =
      settle_found now invocation_id token status result failure_type failure_message self
        (get self invocation_id)

  unfoldable pub complete :
      ℕ
      → String
      → String
      → Turn
      → Records Request Turn
      → Result InvocationError (ModelInvocationRecord Request Turn × Records Request Turn)
  unfolding settle
  complete now invocation_id token result self =
      settle now invocation_id token completed (some result) "" "" self

  unfoldable pub fail :
      ℕ
      → String
      → String
      → String
      → String
      → Records Request Turn
      → Result InvocationError (ModelInvocationRecord Request Turn × Records Request Turn)
  unfolding settle
  fail now invocation_id token failure_type failure_message self =
      settle now invocation_id token failed none failure_type failure_message self

module _ {Request Turn : Type 0} where
  unfoldable pub get_record :
      String → Records Request Turn → Option (ModelInvocationRecord Request Turn)
  get_record invocation_id self = get self invocation_id

module _ {Request : Type 0} where
  -- whether the recorder refuses an envelope, by what it has under the id
  abbrev pub is_other_request :
      (Request → String)
      → Option (ModelInvocationEnvelope Request)
      → ModelInvocationEnvelope Request
      → Bool
  is_other_request fingerprint none envelope = false
  is_other_request fingerprint (some existing) envelope =
      not (fingerprint existing.request == fingerprint envelope.request)

  -- InMemoryModelInvocationRecorder.record
  unfoldable pub record_envelope :
      (Request → String)
      → ModelInvocationEnvelope Request
      → Dict String (ModelInvocationEnvelope Request)
      → Result InvocationError (Dict String (ModelInvocationEnvelope Request))
  record_envelope fingerprint envelope self =
      if is_other_request fingerprint (get self envelope.invocation_id) envelope
      then err id_reused
      else ok (put self envelope.invocation_id envelope)

  unfoldable pub get_envelope :
      String
      → Dict String (ModelInvocationEnvelope Request)
      → Option (ModelInvocationEnvelope Request)
  get_envelope invocation_id self = get self invocation_id

-- ===== src/ModelInvocations/Once.antt =====
-- An invocation is run by one worker, and its outcome is the same for all.
use deepkeel.Base.{
  ℕ, String, ◌≡◌, ◌≢◌, refl, sym, true, false, not, ◌||◌, Bool-cases, inl, inr, Option, none, some,
  Option-cases, ok, err, List, [], ◌∷◌, All, Eq, ◌==◌, string_eq, arith, beq_refl, beq_ne, eq_iff,
}
use deepkeel.Base.Int.{ℤ}
use deepkeel.Base.Dict.{get, put, get-put}
use deepkeel.ModelInvocations.Store.{
  ModelInvocationEnvelope, ModelInvocationRecord, ModelInvocationClaim, acquired, replay,
  InvocationStatus, Records, running, completed, failed, is_settled, is_repeat, settled_record,
  claim, claim_of, claim_again, unsettled_claim, is_current, new_record, settle, complete, fail,
  already_settled,
}
use deepkeel.ModelInvocations.Histories.{
  Operation, claims, completes, fails, kept, perform, serve, serve-kept, IsForeign,
}

unsettled-outcome :
    (Turn : Type 0) (id : String) (until : Option ℕ) (now : ℕ)
    → (unsettled_claim {Turn = Turn} id until now).outcome ≢ acquired
unsettled-outcome Turn id until now e = elim (Bool-cases (is_current until now)) [
  | inl b ↦ ground (arith, e, b)
  | inr b ↦ ground (arith, e, b)
]

module _ {Request Turn : Type 0} ⦃same : Eq Turn⦄ (fingerprint : Request → String) where
  claim_again-outcome :
      (found : ModelInvocationRecord Request Turn) (status : InvocationStatus)
      (result : Option Turn) (id : String) (now : ℕ)
      → (claim_again found status result id now).outcome ≢ acquired
  claim_again-outcome found completed (some result) id now e = ground (arith, e)
  claim_again-outcome found completed none id now e =
      unsettled-outcome Turn id found.claim_expires_at now e
  claim_again-outcome found failed result id now e = ground (arith, e)
  claim_again-outcome found running result id now e =
      unsettled-outcome Turn id found.claim_expires_at now e

  -- a claim that acquires finds no record and writes one; any other writes nothing
  claim-ok :
      (self : Records Request Turn) (now : ℕ) (token : String)
      (envelope : ModelInvocationEnvelope Request) (lease : ℤ) {c : ModelInvocationClaim Turn}
      {self' : Records Request Turn}
      → claim fingerprint now token envelope lease self ≡ ok (c, self')
      → c.outcome ≡ acquired
      → (get self envelope.invocation_id ≡ none)
        × (c.claim_token ≡ token)
        × (self' ≡ put self envelope.invocation_id (new_record now token lease envelope))
  unfolding claim
  claim-ok self now token envelope lease {c} {self'} h got =
      elim (Option-cases (get self envelope.invocation_id)) [
        | inl e ↦ (e, ground (arith, h, e), ground (arith, h, e))
        | inr (found, e) ↦
            let other : c.outcome ≢ acquired =
              let is_again : c
                  ≡ claim_again found found.status found.result envelope.invocation_id now =
                ground (arith, h, e) in
              rw is_again
                (claim_again-outcome found found.status found.result envelope.invocation_id now) in
            absurd (other got)
      ]

  still_found :
      (self : Records Request Turn) (key id : String) (new : ModelInvocationRecord Request Turn)
      → get self id ≢ none
      → get (put self key new) id ≢ none
  still_found self key id new h e = elim (Bool-cases (key == id)) [
    | inl b ↦ ground (arith, e, b, get-put self key id new)
    | inr b ↦ h (ground (arith, e, b, get-put self key id new))
  ]

  claim-found :
      (self : Records Request Turn) (now : ℕ) (token : String)
      (envelope : ModelInvocationEnvelope Request) (lease : ℤ) (id : String)
      → get self id ≢ none
      → get (kept self (claim fingerprint now token envelope lease self)) id ≢ none
  unfolding claim
  claim-found self now token envelope lease id h =
      elim (Option-cases (get self envelope.invocation_id)) [
        | inl e ↦
            rw e
              (still_found self envelope.invocation_id id (new_record now token lease envelope) h)
        | inr (found, e) ↦
            elim (Bool-cases (fingerprint found.envelope.request == fingerprint envelope.request)) [
              | inl b ↦ rw (e, b) h
              | inr b ↦ rw (e, b) h
            ]
      ]

  settle-found :
      (self : Records Request Turn) (now : ℕ) (id' token : String) (status : InvocationStatus)
      (result : Option Turn) (failure_type message id : String)
      → get self id ≢ none
      → get (kept self (settle now id' token status result failure_type message self)) id ≢ none
  unfolding settle
  settle-found self now id' token status result failure_type message id h =
      elim (Option-cases (get self id')) [
        | inl e ↦ rw e h
        | inr (found, e) ↦ elim (Bool-cases (is_settled found.status)) [
          | inl a ↦ elim (Bool-cases (is_repeat status result found.status found.result)) [
            | inl b ↦ rw (e, a, b) h
            | inr b ↦ rw (e, a, b) h
          ]
          | inr a ↦ elim (Bool-cases (token == "" || not (token == found.claim_token))) [
            | inl b ↦ rw (e, a, b) h
            | inr b ↦
                rw (e, a, b)
                  (still_found self id' id
                    (settled_record now status result failure_type message found) h)
          ]
        ]
      ]

  serve-found :
      (self : Records Request Turn) (operations : List (Operation Request Turn)) (id : String)
      → get self id ≢ none
      → get (serve fingerprint self operations) id ≢ none
  unfolding serve perform complete fail
  serve-found self [] id h = h
  serve-found self (claims now token envelope lease ∷ rest) id h =
      serve-found (kept self (claim fingerprint now token envelope lease self)) rest id
        (claim-found self now token envelope lease id h)
  serve-found self (completes now id' token result ∷ rest) id h =
      serve-found (kept self (settle now id' token completed (some result) "" "" self)) rest id
        (settle-found self now id' token completed (some result) "" "" id h)
  serve-found self (fails now id' token failure_type message ∷ rest) id h =
      serve-found (kept self (settle now id' token failed none failure_type message self)) rest id
        (settle-found self now id' token failed none failure_type message id h)

  -- An invocation is acquired at most once. After a claim has acquired an invocation, and after any
  -- claims and settlements by any workers, expiries of claims included, no claim of the same invocation
  -- acquires it: the provider is not called a second time.
  pub acquired_once :
      (self : Records Request Turn) (now : ℕ) (token : String)
      (envelope : ModelInvocationEnvelope Request) (lease : ℤ) {c : ModelInvocationClaim Turn}
      {self' : Records Request Turn} (operations : List (Operation Request Turn)) (now' : ℕ)
      (token' : String) (envelope' : ModelInvocationEnvelope Request) (lease' : ℤ)
      {c' : ModelInvocationClaim Turn} {later : Records Request Turn}
      → claim fingerprint now token envelope lease self ≡ ok (c, self')
      → c.outcome ≡ acquired
      → envelope'.invocation_id ≡ envelope.invocation_id
      → claim fingerprint now' token' envelope' lease' (serve fingerprint self' operations)
        ≡ ok (c', later)
      → c'.outcome ≢ acquired
  acquired_once self now token envelope lease {c} {self'} operations now' token' envelope' lease' h
        got same_id h' got' =
      let (free, shown, written) = claim-ok self now token envelope lease h got in
      let present : get self' envelope'.invocation_id ≢ none = λ e. ground (
        arith,
        e,
        written,
        get-put self envelope.invocation_id envelope'.invocation_id
            (new_record now token lease envelope),
        eq_iff envelope.invocation_id envelope'.invocation_id,
        same_id,
      ) in
      serve-found self' operations envelope'.invocation_id present
        (claim-ok (serve fingerprint self' operations) now' token' envelope' lease' h' got').0

  -- the record that a settlement under the claim's token leaves
  settle-own :
      (self : Records Request Turn) (now : ℕ) (id token : String) (status : InvocationStatus)
      (result : Option Turn) (failure_type message : String)
      (found : ModelInvocationRecord Request Turn)
      → get self id ≡ some found
      → is_settled found.status ≡ false
      → token ≡ found.claim_token
      → token ≢ ""
      → let settled = settled_record now status result failure_type message found in
        settle now id token status result failure_type message self
        ≡ ok (settled, put self id settled)
  unfolding settle
  settle-own self now id token status result failure_type message found e on shown named =
      let shown' : (token == found.claim_token) ≡ true =
        ground (arith, eq_iff token found.claim_token, shown) in
      rw (e, on, beq_ne named, shown') refl

  claim-replays :
      (self : Records Request Turn) (now : ℕ) (token : String)
      (envelope : ModelInvocationEnvelope Request) (lease : ℤ)
      (found : ModelInvocationRecord Request Turn) (result : Turn)
      → get self envelope.invocation_id ≡ some found
      → fingerprint found.envelope.request ≡ fingerprint envelope.request
      → found.status ≡ completed
      → found.result ≡ some result
      → claim fingerprint now token envelope lease self
        ≡ ok (record (claim_of envelope.invocation_id replay) { result = some result }, self)
  unfolding claim
  claim-replays self now token envelope lease found result e print done kept_result =
      let print' : (fingerprint found.envelope.request == fingerprint envelope.request) ≡ true =
        ground (
          arith,
          eq_iff (fingerprint found.envelope.request) (fingerprint envelope.request),
          print,
        ) in
      rw (e, print', done, kept_result) refl

  complete-other :
      (self : Records Request Turn) (now : ℕ) (id token : String)
      (found : ModelInvocationRecord Request Turn) (result other : Turn)
      → get self id ≡ some found
      → found.status ≡ completed
      → found.result ≡ some result
      → other ≢ result
      → complete now id token other self ≡ err already_settled
  unfolding complete settle
  complete-other self now id token found result other e done kept_result differs =
      let differs' : (result == other) ≡ false =
        beq_ne (λ (same_turn : result ≡ other). differs (sym same_turn)) in
      rw (e, done, kept_result, differs') refl

  -- The outcome of an invocation is settled once, for all. A worker whose claim acquired an invocation
  -- under a token that is not empty can complete it, after any calls that do not settle it under that
  -- token, however late; and after any further calls, a claim of the invocation with the same request
  -- gets the worker's result as a replay, and completing it with another result, under any token, fails.
  pub holder_settles :
      (self : Records Request Turn) (now : ℕ) (token : String)
      (envelope : ModelInvocationEnvelope Request) (lease : ℤ) {c : ModelInvocationClaim Turn}
      {self' : Records Request Turn} (before after : List (Operation Request Turn))
      (result other : Turn) (at now' : ℕ) (token' : String)
      (envelope' : ModelInvocationEnvelope Request) (lease' : ℤ)
      → claim fingerprint now token envelope lease self ≡ ok (c, self')
      → c.outcome ≡ acquired
      → token ≢ ""
      → All (IsForeign envelope.invocation_id token) before
      → envelope'.invocation_id ≡ envelope.invocation_id
      → fingerprint envelope'.request ≡ fingerprint envelope.request
      → other ≢ result
      → (settled : ModelInvocationRecord Request Turn) × (done : Records Request Turn) × (complete
            at envelope.invocation_id c.claim_token result
            (serve fingerprint self' before)
          ≡ ok (settled, done))
        × (let later = serve fingerprint done after in
            (claim fingerprint now' token' envelope' lease' later
              ≡ ok (
                record (claim_of envelope'.invocation_id replay) { result = some result },
                later,
              ))
            × (complete now' envelope.invocation_id token' other later ≡ err already_settled))
  unfolding complete new_record settled_record
  holder_settles self now token envelope lease {c} {self'} before after result other at now' token'
        envelope' lease' h got named foreign same_id print differs =
      let id : String = envelope.invocation_id in
      let here : (id == id) ≡ true = beq_refl id in
      let (free, shown, written) = claim-ok self now token envelope lease h got in
      let first : ModelInvocationRecord Request Turn = new_record now token lease envelope in
      let claimed : get self' id ≡ some first = rw written (rw get-put (rw here refl)) in
      let held : get (serve fingerprint self' before) id ≡ some first =
        serve-kept fingerprint self' before id claimed (λ on. foreign) in
      let settled : ModelInvocationRecord Request Turn =
        settled_record at completed (some result) "" "" first in
      let done : Records Request Turn = put (serve fingerprint self' before) id settled in
      let written_done : get done id ≡ some settled = rw get-put (rw here refl) in
      let kept_done : get (serve fingerprint done after) id ≡ some settled =
        serve-kept fingerprint done after id written_done (λ off. absurd (ground (arith, off))) in
      (
        settled,
        done,
        rw shown (
            settle-own (serve fingerprint self' before) at id token completed (some result) "" ""
              first held refl refl named),
        (
          claim-replays (serve fingerprint done after) now' token' envelope' lease' settled result
              (rw same_id kept_done) (sym print) refl refl,
          complete-other (serve fingerprint done after) now' id token' settled result other
              kept_done refl refl differs,
        ),
      )

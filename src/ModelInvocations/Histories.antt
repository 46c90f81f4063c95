-- ===== src/ModelInvocations/Histories.antt =====
-- What a store of invocations goes through, and what stays.
use deepkeel.Base.{
  ℕ, String, ◌≡◌, ◌≢◌, ap, ◌∙◌, false, not, ◌||◌, Bool-cases, inl, inr, Option, none, some,
  Option-cases, Result, ok, err, List, [], ◌∷◌, All, Eq, ◌==◌, string_eq, arith, eq_of_beq,
}
use deepkeel.Base.Int.{ℤ}
use deepkeel.Base.Dict.{get, put, get-put}
use deepkeel.ModelInvocations.Store.{
  InvocationError, ModelInvocationEnvelope, ModelInvocationRecord, InvocationStatus, Records,
  completed, failed, is_settled, is_repeat, settled_record, claim, settle, complete, fail,
}

-- what workers ask of the store
pub data Operation (Request Turn : Type 0) : Type 0 where
  claims : ℕ → String → ModelInvocationEnvelope Request → ℤ → Operation Request Turn
  completes : ℕ → String → String → Turn → Operation Request Turn
  fails : ℕ → String → String → String → String → Operation Request Turn

module _ {Request Turn Value : Type 0} where
  -- the store after a call, which writes nothing where it raises
  abbrev pub kept :
      Records Request Turn
      → Result InvocationError (Value × Records Request Turn)
      → Records Request Turn
  kept self (ok p) = p.1
  kept self (err e) = self

module _ {Request Turn : Type 0} where
  -- a call that does not settle an invocation under a token
  abbrev pub IsForeign : String → String → Operation Request Turn → Type 0
  IsForeign id token (claims now token' envelope lease) = Unit
  IsForeign id token (completes now id' token' result) = id' ≡ id → token' ≢ token
  IsForeign id token (fails now id' token' failure_type message) = id' ≡ id → token' ≢ token

module _ {Request Turn : Type 0} ⦃same : Eq Turn⦄ (fingerprint : Request → String) where
  unfoldable pub perform : Records Request Turn → Operation Request Turn → Records Request Turn
  perform self (claims now token envelope lease) =
      kept self (claim fingerprint now token envelope lease self)
  perform self (completes now id token result) = kept self (complete now id token result self)
  perform self (fails now id token failure_type message) =
      kept self (fail now id token failure_type message self)

  unfoldable pub serve : Records Request Turn → List (Operation Request Turn) → Records Request Turn
  serve self [] = self
  serve self (operation ∷ rest) = serve (perform self operation) rest

  -- a claim changes no record that is there
  claim-kept :
      (self : Records Request Turn) (now : ℕ) (token : String)
      (envelope : ModelInvocationEnvelope Request) (lease : ℤ) (id : String)
      {found : ModelInvocationRecord Request Turn}
      → get self id ≡ some found
      → get (kept self (claim fingerprint now token envelope lease self)) id ≡ some found
  unfolding claim
  claim-kept self now token envelope lease id h =
      elim (Option-cases (get self envelope.invocation_id)) [
        | inl e ↦ rw e (
            rw get-put (elim (Bool-cases (envelope.invocation_id == id)) [
              | inl b ↦ absurd (cc (e, h, ap (get self) (eq_of_beq b)))
              | inr b ↦ rw b h
            ]))
        | inr (other, e) ↦
            elim (Bool-cases (fingerprint other.envelope.request == fingerprint envelope.request)) [
              | inl b ↦ rw (e, b) h
              | inr b ↦ rw (e, b) h
            ]
      ]

  settled_elsewhere :
      (self : Records Request Turn) (id' id token : String)
      (other : ModelInvocationRecord Request Turn) {found : ModelInvocationRecord Request Turn}
      → get self id' ≡ some other
      → get self id ≡ some found
      → token ≡ other.claim_token
      → (settled : ModelInvocationRecord Request Turn) → is_settled other.status ≡ false
      → (is_settled found.status ≡ false → id' ≡ id → token ≢ found.claim_token)
      → get (put self id' settled) id ≡ some found
  settled_elsewhere self id' id token other {found} e h shown settled on foreign =
      rw get-put (elim (Bool-cases (id' == id)) [
        | inl b ↦
            let here : id' ≡ id = eq_of_beq b in
            let one : other ≡ found = ground (arith, e, h, ap (get self) here) in
            absurd (
              foreign (rw (← one) on) here
                (shown ∙ ap (λ (r : ModelInvocationRecord Request Turn). r.claim_token) one))
        | inr b ↦ rw b h
      ])

  -- a settlement leaves a settled record, and changes another record only under its own token
  settle-kept :
      (self : Records Request Turn) (now : ℕ) (id' token : String) (status : InvocationStatus)
      (result : Option Turn) (failure_type message : String) (id : String)
      {found : ModelInvocationRecord Request Turn}
      → get self id ≡ some found
      → (is_settled found.status ≡ false → id' ≡ id → token ≢ found.claim_token)
      → get (kept self (settle now id' token status result failure_type message self)) id
        ≡ some found
  unfolding settle
  settle-kept self now id' token status result failure_type message id {found} h foreign =
      elim (Option-cases (get self id')) [
        | inl e ↦ rw e h
        | inr (other, e) ↦ elim (Bool-cases (is_settled other.status)) [
          | inl settled ↦ elim (Bool-cases (is_repeat status result other.status other.result)) [
            | inl b ↦ rw (e, settled, b) h
            | inr b ↦ rw (e, settled, b) h
          ]
          | inr running_on ↦ elim (Bool-cases (token == "" || not (token == other.claim_token))) [
            | inl b ↦ rw (e, running_on, b) h
            | inr b ↦
                let shown : token ≡ other.claim_token = eq_of_beq (ground (arith, b)) in
                rw (e, running_on, b)
                  (settled_elsewhere self id' id token other e h shown
                    (settled_record now status result failure_type message other) running_on
                    foreign)
          ]
        ]
      ]

  perform-kept :
      (self : Records Request Turn) (operation : Operation Request Turn) (id : String)
      {found : ModelInvocationRecord Request Turn}
      → get self id ≡ some found
      → (is_settled found.status ≡ false → IsForeign id found.claim_token operation)
      → get (perform self operation) id ≡ some found
  unfolding perform complete fail
  perform-kept self (claims now token envelope lease) id h foreign =
      claim-kept self now token envelope lease id h
  perform-kept self (completes now id' token result) id h foreign =
      settle-kept self now id' token completed (some result) "" "" id h foreign
  perform-kept self (fails now id' token failure_type message) id h foreign =
      settle-kept self now id' token failed none failure_type message id h foreign

  pub serve-kept :
      (self : Records Request Turn) (operations : List (Operation Request Turn)) (id : String)
      {found : ModelInvocationRecord Request Turn}
      → get self id ≡ some found
      → (is_settled found.status ≡ false → All (IsForeign id found.claim_token) operations)
      → get (serve self operations) id ≡ some found
  unfolding serve
  serve-kept self [] id h foreign = h
  serve-kept self (operation ∷ rest) id h foreign =
      serve-kept (perform self operation) rest id
        (perform-kept self operation id h (λ on. (foreign on).0)) (λ on. (foreign on).1)

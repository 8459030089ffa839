-- ===== src/Approvals/Verify.antt =====
-- What a verified token shows, and that an issued token verifies (approvals.py).
use openmuse.Common.{
  ℕ, ◌≡◌, refl, Bool, true, false, Option, none, some, [], ◌∷◌, Text, mem_text, Outcome, ok, err,
  arith, Option-cases, inl, inr, text_eq→eq,
}
use openmuse.Common.Json.{Json, Fields, get, json_eq}
use openmuse.Models.{Action}
use openmuse.Runtime.{Runtime}
use openmuse.Approvals.{
  ApprovalAuthority, or_null, payload, compare_digest, decode, is_expired, check_payload, checked,
  settle, verify_token, verify,
}

module _ (r : Runtime) where
  -- What `verify` has established when it returns `True`.
  pub record Accepted (a : ApprovalAuthority) (action : Action) (token : Text) (now : ℕ)
      : Type 0 where
    pub raw : Text
    pub sig : Text
    pub fields : Fields
    pub decoded : decode r token ≡ some (raw, sig, Json.obj fields)
    pub bound : json_eq (Json.obj fields) (payload action (or_null (get "exp" fields))) ≡ true
    pub unexpired : is_expired r fields now ≡ some false
    pub signed : sig ≡ r.hmac a.secret raw
    pub fresh : mem_text token a.used ≡ false

  check_payload-some :
      (action : Action) (now : ℕ) (raw sig : Text) (p : Json) (raw' sig' : Text)
      → check_payload r action now (raw, sig, p) ≡ some (raw', sig')
      → (fields : Fields) × (p ≡ Json.obj fields)
        × (raw ≡ raw')
        × (sig ≡ sig')
        × (is_expired r fields now ≡ some false)
        × (json_eq (Json.obj fields) (payload action (or_null (get "exp" fields))) ≡ true)
  unfolding check_payload
  check_payload-some action now raw sig (Json.obj fields) raw' sig' h =
      (fields, refl, ground arith, ground arith, ground arith, ground arith)
  check_payload-some action now raw sig _ raw' sig' h = cc

  compare_digest-true : (s t : Text) → compare_digest s t ≡ ok true → s ≡ t
  unfolding compare_digest
  compare_digest-true s t h = ground (arith, text_eq→eq s t)

  settle-true :
      (a : ApprovalAuthority) (token : Text) (o : Outcome Bool)
      → (settle r a token o).0 ≡ ok true
      → (o ≡ ok true)
        × (mem_text token a.used ≡ false)
        × ((settle r a token o).1 ≡ record a { used = token ∷ a.used })
  unfolding settle
  settle-true a token (ok true) h = (refl, ground arith, ground arith)
  settle-true a token (ok false) h = cc
  settle-true a token (err e) h = cc

  checked-some :
      (action : Action) (token : Text) (now : ℕ) (raw sig : Text)
      → checked r action token now ≡ some (raw, sig)
      → (fields : Fields) × (decode r token ≡ some (raw, sig, Json.obj fields))
        × (is_expired r fields now ≡ some false)
        × (json_eq (Json.obj fields) (payload action (or_null (get "exp" fields))) ≡ true)
  unfolding checked
  checked-some action token now raw sig h = elim (Option-cases (decode r token)) [
    | inl e ↦ absurd (cc e)
    | inr ((raw', sig', p), e) ↦
        let (fields, ep, er, es, ex, eb) =
          check_payload-some action now raw' sig' p raw sig (ground (arith, e)) in
        (fields, cc, ex, eb)
  ]

  verify_token-true :
      (a : ApprovalAuthority) (action : Action) (token : Text) (now : ℕ)
      → (verify_token r a action token now).0 ≡ ok true
      → (raw : Text) × (sig : Text) × (checked r action token now ≡ some (raw, sig))
        × ((settle r a token (compare_digest sig (r.hmac a.secret raw))).0 ≡ ok true)
        × (verify_token r a action token now
            ≡ settle r a token (compare_digest sig (r.hmac a.secret raw)))
  unfolding verify_token
  verify_token-true a action token now h = elim (Option-cases (checked r action token now)) [
    | inl e ↦ absurd (ground (arith, e))
    | inr ((raw, sig), e) ↦ (raw, sig, e, ground (arith, e), ground (arith, e))
  ]

  verify_token_sound :
      (a : ApprovalAuthority) (action : Action) (token : Text) (now : ℕ)
      → (verify_token r a action token now).0 ≡ ok true
      → Accepted a action token now
        × ((verify_token r a action token now).1 ≡ record a { used = token ∷ a.used })
  verify_token_sound a action token now h =
      let (raw, sig, ec, et, es) = verify_token-true a action token now h in
      let (fields, ed, ex, eb) = checked-some action token now raw sig ec in
      let (digest, fresh, after) =
        settle-true a token (compare_digest sig (r.hmac a.secret raw)) et in
      (
        record {
          raw = raw;
          sig = sig;
          fields = fields;
          decoded = ed;
          bound = eb;
          unexpired = ex;
          signed = compare_digest-true sig (r.hmac a.secret raw) digest;
          fresh = fresh;
        },
        cc (es, after),
      )

  -- A token that `verify` accepts was given, decodes to the action's own payload, has not expired,
  -- carries the authority's signature over its bytes and was not used; afterwards it is.
  pub verify_sound :
      (a : ApprovalAuthority) (action : Action) (given : Option Text) (now : ℕ)
      → (verify r a action given now).0 ≡ ok true
      → (token : Text) × (given ≡ some token)
        × Accepted a action token now
        × ((verify r a action given now).1 ≡ record a { used = token ∷ a.used })
  unfolding verify
  verify_sound a action none now h = cc
  verify_sound a action (some []) now h = cc
  verify_sound a action (some (c ∷ t)) now h =
      let (acc, after) = verify_token_sound a action (c ∷ t) now h in (c ∷ t, refl, acc, after)

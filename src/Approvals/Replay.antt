-- ===== src/Approvals/Replay.antt =====
-- A token has other spellings: `bytes.fromhex` skips white space, and `used` holds texts (approvals.py).
use openmuse.Common.{
  ℕ, ◌≡◌, Bool, true, false, some, [], ◌∷◌, Text, text_eq, mem_text, Outcome, ok, arith, Bool-cases,
  inl, inr, text_eq→eq, from_hex-blank, split_once, length, ap, Option-cases,
}
use openmuse.Models.{Action}
use openmuse.Runtime.{Runtime}
use openmuse.Approvals.{
  ApprovalAuthority, compare_digest, decode, checked, settle, verify_token, verify,
}
use openmuse.Approvals.Verify.{verify_sound}

not-longer : (t : Text) → text_eq t (32 ∷ t) ≡ false
not-longer t = elim (Bool-cases (text_eq t (32 ∷ t))) [
  | inl e ↦ absurd (omega (arith, ap length (text_eq→eq t (32 ∷ t) e)))
  | inr e ↦ e
]

module _ (r : Runtime) where
  decode-blank : (t : Text) → decode r (32 ∷ t) ≡ decode r t
  unfolding decode split_once
  decode-blank t = elim (Option-cases (split_once 46 t)) [
    | inl e ↦ ground (arith, e)
    | inr ((h, sig), e) ↦ ground (arith, e, from_hex-blank h)
  ]

  checked-blank :
      (action : Action) (t : Text) (now : ℕ)
      → checked r action (32 ∷ t) now ≡ checked r action t now
  unfolding checked
  checked-blank action t now = ground (arith, decode-blank t)

  settle-fresh :
      (a b : ApprovalAuthority) (t u : Text) (o : Outcome Bool)
      → (settle r a t o).0 ≡ ok true
      → mem_text u b.used ≡ false
      → (settle r b u o).0 ≡ ok true
  unfolding settle
  settle-fresh a b t u (ok true) h fresh = ground arith
  settle-fresh a b t u (ok false) h fresh = cc
  settle-fresh a b t u (Outcome.err e) h fresh = cc

  verify_token-blank :
      (a b : ApprovalAuthority) (action : Action) (t : Text) (now : ℕ)
      → (verify_token r a action t now).0 ≡ ok true
      → b.secret ≡ a.secret
      → mem_text (32 ∷ t) b.used ≡ false
      → (verify_token r b action (32 ∷ t) now).0 ≡ ok true
  unfolding verify_token
  verify_token-blank a b action t now h same fresh = elim (Option-cases (checked r action t now)) [
    | inl e ↦ absurd (ground (arith, e))
    | inr ((raw, sig), e) ↦
        let digest = compare_digest sig (r.hmac a.secret raw) in
        ground (arith, e, checked-blank action t now, settle-fresh a b t (32 ∷ t) digest)
  ]

  verify-is-token :
      (a : ApprovalAuthority) (action : Action) (token : Text) (now : ℕ)
      → (verify r a action (some token) now).0 ≡ ok true
      → (verify_token r a action token now).0 ≡ ok true
  unfolding verify
  verify-is-token a action [] now h = cc
  verify-is-token a action (c ∷ t) now h = h

  -- An approval that was consumed is accepted once more, for the same action at the same time, when
  -- its token comes with a blank in front that was not seen before.
  pub verify-respelled :
      (a : ApprovalAuthority) (action : Action) (token : Text) (now : ℕ)
      → (verify r a action (some token) now).0 ≡ ok true
      → mem_text (32 ∷ token) a.used ≡ false
      → let a' = (verify r a action (some token) now).1 in
        (verify r a' action (some (32 ∷ token)) now).0 ≡ ok true
  verify-respelled a action token now h fresh =
      let (t, e, acc, after) = verify_sound r a action (some token) now h in
      let same : t ≡ token = ground (arith, e) in
      let a' : ApprovalAuthority = (verify r a action (some token) now).1 in
      let secret : a'.secret ≡ a.secret = ap (λ (s : ApprovalAuthority). s.secret) after in
      let used : a'.used ≡ t ∷ a.used = ap (λ (s : ApprovalAuthority). s.used) after in
      unfold verify mem_text in
      verify_token-blank a a' action token now (verify-is-token a action token now h) secret
        (rw (used, same) (ground (arith, not-longer token)))

-- ===== src/Approvals/Issue.antt =====
-- An issued token verifies until the second at which it expires (approvals.py).
use openmuse.Common.{
  ℕ, ◌<◌, ◌≡◌, refl, true, false, none, some, [], ◌∷◌, ◌++◌, ℤ, pos, ◌+ℤ◌, leb_ℤ, Text, mem_text,
  hex, All, ok, arith, Option-cases, inl, inr, eqb_ℤ→eq, eqb_ℤ-refl, ◌∙◌, if◌then◌else◌,
  text_eq_refl, from_hex-hex, split_once-hex,
}
use openmuse.Common.Json.{Json, Fields, get, json_eq, number, size}
use openmuse.Models.{Action}
use openmuse.Runtime.{Runtime, RoundTrips, AsciiDigests}
use openmuse.Approvals.{
  ApprovalAuthority, payload, is_ascii, compare_digest, to_int, issue, decode, is_expired,
  check_payload, checked, settle, verify_token, verify,
}

pub compare_digest_refl : (s : Text) → All (λ c. c < 128) s → compare_digest s s ≡ ok true
unfolding compare_digest
compare_digest_refl s h = ground (arith, text_eq_refl s, ascii s h)
  where
    ascii : (t : Text) → All (λ c. c < 128) t → is_ascii t ≡ true
    ascii [] h = refl
    ascii (c ∷ t) h = ground (arith, ascii t h.1)

json_eq_num :
    (x : Json) (e : ℤ) → json_eq x (Json.num e) ≡ true → (number x ≡ some e) × (json_eq x x ≡ true)
unfolding json_eq
json_eq_num (Json.num n) e h = (ground (arith, eqb_ℤ→eq n e), eqb_ℤ-refl n)
json_eq_num (Json.bool true) e h = (ground (arith, eqb_ℤ→eq (pos 1) e), refl)
json_eq_num (Json.bool false) e h = (ground (arith, eqb_ℤ→eq (pos 0) e), refl)
json_eq_num _ e h = cc

payload_read :
    (p : Json) (action : Action) (e : ℤ)
    → json_eq p (payload action (Json.num e)) ≡ true
    → (fields : Fields) × (x : Json) × (p ≡ Json.obj fields)
      × (get "exp" fields ≡ some x)
      × (json_eq x (Json.num e) ≡ true)
      × (json_eq p (payload action x) ≡ true)
payload_read (Json.obj fields) action e h = elim (Option-cases (get "exp" fields)) [
  | inl missing ↦ absurd (unfold json_eq in ground (arith, missing))
  | inr (x, found) ↦
      let same : json_eq x (Json.num e) ≡ true = unfold json_eq in ground (arith, found) in
      (
        fields,
        x,
        refl,
        found,
        same,
        unfold json_eq size in ground (arith, found, json_eq_num x e same),
      )
]
payload_read _ action e h = unfold json_eq in cc

module _ (r : Runtime) where
  to_int-number : (x : Json) (e : ℤ) → number x ≡ some e → to_int r x ≡ some e
  unfolding to_int
  to_int-number (Json.num n) e h = h
  to_int-number (Json.bool true) e h = h
  to_int-number (Json.bool false) e h = h
  to_int-number _ e h = cc

  verify-nonempty :
      (a : ApprovalAuthority) (action : Action) (xs ys : Text) (c now : ℕ)
      → verify r a action (some (xs ++ c ∷ ys)) now ≡ verify_token r a action (xs ++ c ∷ ys) now
  unfolding verify
  verify-nonempty a action [] ys c now = refl
  verify-nonempty a action (x ∷ xs) ys c now = refl

  module _ (a : ApprovalAuthority) (action : Action) (ttl : ℤ) (start now : ℕ)
      (written : RoundTrips r (payload action (Json.num (pos start +ℤ ttl)))) where
    abbrev token : Text
    token = issue r a action ttl start

    abbrev raw : Text
    raw = r.dumps (payload action (Json.num (pos start +ℤ ttl)))

    decode-issue : decode r token ≡ some (raw, r.hmac a.secret raw, written.read)
    unfolding decode issue
    decode-issue = ground (
      arith,
      split_once-hex raw (r.hmac a.secret raw) written.bytes,
      from_hex-hex raw written.bytes,
      written.reads,
    )

    checked-issue :
        checked r action token now
        ≡ (if leb_ℤ (pos start +ℤ ttl) (pos now) then none else some (raw, r.hmac a.secret raw))
    unfolding checked check_payload is_expired
    checked-issue =
        let (fields, x, is_obj, found, same, bound) =
          payload_read written.read action (pos start +ℤ ttl) written.same in
        ground (
          arith,
          decode-issue,
          is_obj,
          found,
          bound,
          to_int-number x (pos start +ℤ ttl) (json_eq_num x (pos start +ℤ ttl) same).0,
        )

    -- Within its life an unused token is accepted and marked as used; from the second of its expiry
    -- on it is refused.
    pub verify-issue :
        AsciiDigests r
        → mem_text token a.used ≡ false
        → verify r a action (some token) now ≡ (
            if leb_ℤ (pos start +ℤ ttl) (pos now)
            then (ok false, a)
            else (ok true, record a { used = token ∷ a.used }))
    unfolding verify_token settle issue
    verify-issue ascii fresh =
        verify-nonempty a action (hex raw) (r.hmac a.secret raw) 46 now
        ∙ ground
            (arith, checked-issue, compare_digest_refl (r.hmac a.secret raw) (ascii a.secret raw))

-- ===== src/Approvals.antt =====
-- src/openmuse/approvals.py: one-time tokens that bind an action, its arguments and an expiry. The
-- clock's reading is an argument, in whole seconds. `verify` runs under the authority's lock where
-- it consumes a token, so calls are a sequence.
pub mod Verify
pub mod Issue
pub mod SingleUse
pub mod Replay
mod Tests
use openmuse.Common.{
  ℕ, Bool, true, false, not, ◌&&◌, ◌||◌, Option, none, some, List, [], ◌∷◌, ◌++◌, ltb,
  if◌then◌else◌, ℤ, pos, ◌+ℤ◌, leb_ℤ, Text, text_eq, mem_text, hex, from_hex, split_once, all,
  Outcome, ok, err, type_error,
}
use openmuse.Common.Json.{Json, Fields, field, end, get, json_eq}
use openmuse.Models.{Action}
use openmuse.Runtime.{Runtime}

pub record ApprovalAuthority : Type 0 where
  pub secret : Text
  pub used : List Text

-- `p.get("exp")`, where a missing key is `None`
abbrev pub or_null : Option Json → Json
or_null none = Json.null
or_null (some v) = v

-- The JSON object that a token carries, and the one that `verify` expects.
abbrev pub payload : Action → Json → Json
payload action exp = Json.obj (
    field "id" (Json.str action.id) (
      field "tool" (Json.str action.tool)
        (field "arguments" (Json.obj action.arguments) (field "exp" exp end))))

-- `hmac.compare_digest` on two texts raises on one that is not ASCII.
abbrev pub is_ascii : Text → Bool
is_ascii = all (λ c. ltb c 128)

unfoldable pub compare_digest : Text → Text → Outcome Bool
compare_digest a b =
    if is_ascii a && is_ascii b
    then ok (text_eq a b)
    else err (type_error "comparing strings with non-ASCII characters is not supported")

module _ (r : Runtime) where
  -- `int(v)`, where it raises neither TypeError nor ValueError
  unfoldable pub to_int : Json → Option ℤ
  to_int (Json.num n) = some n
  to_int (Json.bool true) = some (pos 1)
  to_int (Json.bool false) = some (pos 0)
  to_int (Json.str s) = r.int_text s
  to_int _ = none

  unfoldable pub issue : ApprovalAuthority → Action → ℤ → ℕ → Text
  issue a action ttl_seconds now =
      let raw = r.dumps (payload action (Json.num (pos now +ℤ ttl_seconds))) in
      hex raw ++ 46 ∷ r.hmac a.secret raw

  -- `raw_hex, sig = token.split(".", 1)`, `bytes.fromhex` and `json.loads`
  unfoldable pub decode : Text → Option (Text × Text × Json)
  decode token = elim (split_once 46 token) [
    | none ↦ none
    | some (raw_hex, sig) ↦ elim (from_hex raw_hex) [
      | none ↦ none
      | some raw ↦ elim (r.loads raw) [ none ↦ none | some p ↦ some (raw, sig, p) ]
    ]
  ]

  -- `int(p["exp"]) <= int(time.time())`, or `none` where that raises
  unfoldable pub is_expired : Fields → ℕ → Option Bool
  is_expired p now = elim (get "exp" p) [
    | none ↦ none
    | some exp ↦ elim (to_int exp) [ none ↦ none | some e ↦ some (leb_ℤ e (pos now)) ]
  ]

  -- The payload's checks before the signature: `none` where one of them returns `False`.
  unfoldable pub check_payload : Action → ℕ → Text × Text × Json → Option (Text × Text)
  check_payload action now (raw, sig, Json.obj fields) = elim (is_expired fields now) [
    | none ↦ none
    | some expired ↦
        if expired || not (json_eq (Json.obj fields) (payload action (or_null (get "exp" fields))))
        then none
        else some (raw, sig)
  ]
  check_payload action now (raw, sig, _) = none

  unfoldable pub checked : Action → Text → ℕ → Option (Text × Text)
  checked action token now = elim (decode token) [
    | none ↦ none
    | some parts ↦ check_payload action now parts
  ]

  -- `with self._lock`: a used token is refused, a fresh one is marked.
  unfoldable pub consume : ApprovalAuthority → Text → Bool × ApprovalAuthority
  consume a token =
      if mem_text token a.used then (false, a) else (true, record a { used = token ∷ a.used })

  unfoldable pub settle : ApprovalAuthority → Text → Outcome Bool → Outcome Bool × ApprovalAuthority
  unfolding consume
  settle a token (ok true) = (ok (consume a token).0, (consume a token).1)
  settle a token (ok false) = (ok false, a)
  settle a token (err e) = (err e, a)

  unfoldable pub verify_token :
      ApprovalAuthority → Action → Text → ℕ → Outcome Bool × ApprovalAuthority
  verify_token a action token now = elim (checked action token now) [
    | none ↦ (ok false, a)
    | some (raw, sig) ↦ settle a token (compare_digest sig (r.hmac a.secret raw))
  ]

  unfoldable pub verify :
      ApprovalAuthority → Action → Option Text → ℕ → Outcome Bool × ApprovalAuthority
  verify a action none now = (ok false, a)
  verify a action (some []) now = (ok false, a)
  verify a action (some (c ∷ t)) now = verify_token a action (c ∷ t) now

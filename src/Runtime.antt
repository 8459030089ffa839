-- ===== src/Runtime.antt =====
-- What the program takes from Python's hashlib, hmac and json, as one parameter. A digest is its
-- hexadecimal text; a text that is hashed is its bytes.
use openmuse.Common.{String, ◌≡◌, true, Option, some, ◌<◌, Text, All, IsBytes, ℤ}
use openmuse.Common.Json.{Json, json_eq}

pub record Runtime : Type 0 where
  -- `hashlib.sha256(b).hexdigest()`
  pub sha256 : Text → Text
  -- `hmac.new(key, message, hashlib.sha256).hexdigest()`
  pub hmac : Text → Text → Text
  -- `json.dumps` with sorted keys, as bytes, and `json.loads`
  pub dumps : Json → Text
  pub loads : Text → Option Json
  -- a text that the program computed, as a value of JSON
  pub as_string : Text → String
  -- `int(text)`, where it raises no ValueError
  pub int_text : String → Option ℤ

-- Documented behaviour of `json`: what was written is read back, up to the order of the keys.
pub record RoundTrips (r : Runtime) (v : Json) : Type 0 where
  pub read : Json
  pub reads : r.loads (r.dumps v) ≡ some read
  pub same : json_eq read v ≡ true
  pub bytes : IsBytes (r.dumps v)

-- Documented behaviour of `hexdigest`: its text is ASCII.
abbrev pub AsciiDigests : Runtime → Type 0
AsciiDigests r = (key message : Text) → All (λ c. c < 128) (r.hmac key message)

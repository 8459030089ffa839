-- ===== src/Audit.antt =====
-- src/openmuse/audit.py: the chained audit log, its append and its verification. The file is its
-- complete lines, each without its newline, and what stands after the last newline. A text of JSON
-- that `json.dumps` writes has no raw newline and no raw carriage return, so a record is one line; a
-- carriage return in a line that something else has written, which also ends a line where the file is
-- read as text, is left out. The retry after a Windows sharing violation, the locks and the key stores
-- are outside; the key that an append has resolved is an argument, and so is the lookup of keys.
mod Tests
pub mod Tail
pub mod Bytes
pub mod Line
pub mod Scan
pub mod Append
pub mod Keyed
use openmuse.Common.{
  ℕ, suc, ◌+◌, String, codes, Text, ◌≡◌, Bool, true, false, not, ◌&&◌, ◌||◌, Option, none, some,
  List, [], ◌∷◌, ◌++◌, ◌==◌, if◌then◌else◌, mem, any, is_some, Outcome, ok, err, Exception,
  value_error, type_error, key_error, os_error, runtime_error, timeout_error, grant_error,
  scope_denied, broker_error, audit_key_error, master_key_error, other, message, ◌>>=◌, ◌>>◌,
  raise_if, or_raise,
}
use openmuse.Common.Json.{Json, Items, Fields, field, end, get, put, drop_key, has_key}
use openmuse.Approvals.{compare_digest}

-- What the log takes from hashlib, hmac, json and str: hexadecimal digests, `_canonical`, the text of
-- a line, its reading, and `str.lower`.
pub record Codec : Type 0 where
  pub sha256 : Text → String
  pub hmac : Text → Text → String
  pub canonical : Json → Text
  pub dumps : Json → Text
  pub loads : Text → Option Json
  pub lower : String → String

abbrev pub zero_hash : String
zero_hash = "0000000000000000000000000000000000000000000000000000000000000000"

abbrev pub sensitive : List String
sensitive = "password" ∷ "token" ∷ "secret" ∷ "authorization" ∷ "api_key" ∷ "cookie" ∷ []

abbrev pub keyed_algorithm : String
keyed_algorithm = "hmac-sha256"

-- `_RESERVED_RECORD_FIELDS.intersection(record)`
unfoldable pub has_reserved : Fields → Bool
has_reserved record_fields =
    has_key "hash" record_fields
    || has_key "previous_hash" record_fields
    || has_key "chain" record_fields
    || has_key "key_id" record_fields

pub record AuditFile : Type 0 where
  pub lines : List Text
  pub rest : Text

unfoldable pub last : List Text → Option Text
last [] = none
last (x ∷ xs) = elim (last xs) [ none ↦ some x | some y ↦ some y ]

abbrev pub is_blank : Text → Bool
is_blank [] = true
is_blank (c ∷ t) = false

module _ (c : Codec) where
  unfoldable mutual
    pub redact : Json → Json
    redact (Json.obj fs) = Json.obj (redact_fields fs)
    redact (Json.arr xs) = Json.arr (redact_items xs)
    redact Json.null = Json.null
    redact (Json.bool b) = Json.bool b
    redact (Json.num n) = Json.num n
    redact (Json.str s) = Json.str s

    pub redact_items : Items → Items
    redact_items Items.nil = Items.nil
    redact_items (Items.item x xs) = Items.item (redact x) (redact_items xs)

    pub redact_fields : Fields → Fields
    redact_fields end = end
    redact_fields (field k v fs) =
        field k (if mem (c.lower k) sensitive then Json.str "[REDACTED]" else redact v)
          (redact_fields fs)

  -- The hash of an object that is a record.
  abbrev pub string_hash : Option Json → Outcome String
  string_hash (some (Json.str s)) = ok s
  string_hash _ = err (type_error "invalid audit tail")

  abbrev pub tail_hash : Option Json → Outcome String
  tail_hash none = err (value_error "invalid JSON")
  tail_hash (some (Json.obj fs)) = string_hash (get "hash" fs)
  tail_hash (some _) = err (type_error "invalid audit tail")

  -- `last["hash"] if last else zero_hash`, for what `_last_record` gives
  unfoldable pub last_hash : AuditFile → Outcome String
  last_hash f =
      if is_blank f.rest
      then elim (last f.lines) [ none ↦ ok zero_hash | some l ↦ tail_hash (c.loads l) ]
      else err (value_error "audit log ends with incomplete record")

  -- The record with its link, and with its key's id where it is keyed, before its hash is set.
  unfoldable pub linked_record : Fields → String → Option (String × Text) → Fields
  linked_record fields previous none =
      put "previous_hash" (Json.str previous) (redact_fields fields)
  linked_record fields previous (some (key_id, key)) = put "key_id" (Json.str key_id) (
      put "chain" (Json.str keyed_algorithm)
        (put "previous_hash" (Json.str previous) (redact_fields fields)))

  unfoldable pub record_hash : Fields → Option (String × Text) → String
  record_hash clean none = c.sha256 (c.canonical (Json.obj clean))
  record_hash clean (some (key_id, key)) = c.hmac key (c.canonical (Json.obj clean))

  abbrev pub sealed : Fields → Option (String × Text) → Json
  sealed clean keys = Json.obj (put "hash" (Json.str (record_hash clean keys)) clean)

  -- `_append_once`
  unfoldable pub append_once : AuditFile → Fields → Option (String × Text) → Outcome AuditFile
  append_once f fields keys = do
    previous ← last_hash f
    ok (record f {
      lines = f.lines ++ c.dumps (sealed (linked_record fields previous keys) keys) ∷ [];
    })

  -- `AuditLog.append`; `keys` is what `_keys()` gives, or `none` for a legacy log
  unfoldable pub append : AuditFile → Fields → Outcome (Option (String × Text)) → Outcome AuditFile
  append f fields keys = do
    raise_if (has_reserved fields) (value_error "audit record must not set reserved field(s)")
    k ← keys
    append_once f fields k

-- `previous` and `seen_keyed` of the loop.
pub record Link : Type 0 where
  pub previous : String
  pub seen_keyed : Bool

-- What the loop's body does with one line: it goes on, returns `False` with a message, or raises.
pub data LineResult : Type 0 where
  linked : Link → LineResult
  refused : String → LineResult
  raised : Exception → LineResult

-- `except AuditKeyError` and `except (OSError, KeyError, ValueError, TypeError)`, with subclasses
abbrev pub caught : Exception → Bool
caught (runtime_error m) = false
caught (master_key_error m) = false
caught (other n m) = false
caught _ = true

abbrev pub is_string : Option Json → String → Bool
is_string (some (Json.str t)) s = t == s
is_string _ s = false

module _ (c : Codec) (resolve : String → Outcome (Option Text)) (require_keyed : Bool) where
  abbrev pub compared : Outcome Bool → String → Bool → LineResult
  compared (ok true) claimed keyed = linked (record { previous = claimed; seen_keyed = keyed })
  compared (ok false) claimed keyed = refused "record hash does not match"
  compared (err e) claimed keyed = raised e

  -- `hmac_compare(actual, claimed)`, then the next link
  unfoldable pub finish : String → Json → Bool → LineResult
  finish actual (Json.str claimed) keyed =
      compared (compare_digest (codes actual) (codes claimed)) claimed keyed
  finish actual _ keyed = raised (type_error "unsupported operand types(s) or combination of types")

  abbrev pub check_resolved : Outcome (Option Text) → Fields → Json → LineResult
  check_resolved (err e) fields claimed = raised e
  check_resolved (ok none) fields claimed = refused "unknown audit key id"
  check_resolved (ok (some key)) fields claimed =
      finish (c.hmac key (c.canonical (Json.obj fields))) claimed true

  unfoldable pub check_keyed : Option Json → Fields → Json → LineResult
  check_keyed (some (Json.str key_id)) fields claimed =
      check_resolved (resolve key_id) fields claimed
  check_keyed _ fields claimed = refused "keyed record is missing its key id"

  unfoldable pub check_unkeyed : Link → Fields → Json → LineResult
  check_unkeyed link fields claimed =
      if require_keyed
      then refused "record is not keyed"
      else if link.seen_keyed
      then refused "unkeyed record after keyed records"
      else finish (c.sha256 (c.canonical (Json.obj fields))) claimed false

  -- The algorithm of a record whose hash is taken out.
  unfoldable pub check_algorithm : Link → Option Json → Fields → Json → LineResult
  check_algorithm link none fields claimed = check_unkeyed link fields claimed
  check_algorithm link (some Json.null) fields claimed = check_unkeyed link fields claimed
  check_algorithm link (some (Json.str a)) fields claimed =
      if a == keyed_algorithm
      then check_keyed (get "key_id" fields) fields claimed
      else refused "unknown chain algorithm"
  check_algorithm link (some _) fields claimed = refused "unknown chain algorithm"

  unfoldable pub check_link : Link → Fields → Json → LineResult
  check_link link fields claimed =
      if is_string (get "previous_hash" fields) link.previous
      then check_algorithm link (get "chain" fields) fields claimed
      else refused "previous hash does not match"

  abbrev pub check_record : Link → Option Json → LineResult
  check_record link none = raised (value_error "invalid JSON")
  check_record link (some (Json.obj fs)) = elim (get "hash" fs) [
    | none ↦ raised (key_error "hash")
    | some claimed ↦ check_link link (drop_key "hash" fs) claimed
  ]
  check_record link (some _) = refused "audit record must be an object"

  -- The loop's body for one line.
  unfoldable pub check_line : Link → Text → LineResult
  check_line link line = check_record link (c.loads line)

  abbrev pub verdict : ℕ → Exception → Outcome (Bool × ℕ × Option String)
  verdict count e = if caught e then ok (false, count, some (message e)) else err e

  -- The loop, with the number of lines before.
  unfoldable pub check_lines : Link → ℕ → List Text → Outcome (Bool × ℕ × Option String)
  check_lines link count [] = ok (true, count, none)
  check_lines link count (l ∷ ls) = elim (check_line link l) [
    | refused m ↦ ok (false, count + 1, some m)
    | raised e ↦ verdict (count + 1) e
    | linked next ↦ check_lines next (count + 1) ls
  ]

  abbrev pub all_lines : AuditFile → List Text
  all_lines f = f.lines ++ (if is_blank f.rest then [] else f.rest ∷ [])

  -- `verify_chain`, on a file that opens or does not
  unfoldable pub verify_chain : Outcome AuditFile → Outcome (Bool × ℕ × Option String)
  verify_chain (err e) = verdict 0 e
  verify_chain (ok f) =
      check_lines (record { previous = zero_hash; seen_keyed = false }) 0 (all_lines f)

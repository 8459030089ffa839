-- ===== src/Keyring.antt =====
-- src/openmuse/audit.py: KeyringAuditKeys, the keys of the audit chain in the OS credential store. The
-- store has one slot for the pointer, one for each key by its id, and one for the old document; they
-- are different services, and the store gives back what was set. Base64 and JSON are parameters, and a
-- fresh key is an argument.
pub mod Rotation
pub mod Document
mod Tests
use openmuse.Common.{
  ℕ, String, codes, Text, ◌≡◌, Bool, true, false, not, ◌&&◌, ◌||◌, Option, none, some, List, [],
  ◌∷◌, ◌==◌, leb, eqb, if◌then◌else◌, length, all, Dict, lookup, insert, contains, Outcome, ok, err,
  audit_key_error, type_error, ◌>>=◌, ◌>>◌, raise_if, or_raise,
}
use openmuse.Common.Json.{Json, Fields, field, end, get}

pub record Store : Type 0 where
  pub pointer : Option String
  pub slots : Dict String
  pub legacy : Option String

-- `encode` is URL-safe Base64 and `b64decode` its inverse, which gives nothing where it raises.
pub record KeyCodec : Type 0 where
  pub encode : Text → String
  pub b64decode : String → Option Text
  pub fingerprint : Text → String
  pub loads : String → Option Json

abbrev pub corrupt : {A : Type 0} → Outcome A
corrupt = err (audit_key_error "audit key store is corrupt")

abbrev pub is_hex : ℕ → Bool
is_hex c = (leb 48 c && leb c 57) || (leb 97 c && leb c 102)

unfoldable pub valid_key_id : String → Bool
valid_key_id key_id = eqb (length (codes key_id)) 16 && all is_hex (codes key_id)

module _ (c : KeyCodec) where
  abbrev pub sized : Option Text → Option Text
  sized none = none
  sized (some key) = if eqb (length key) 32 then some key else none

  -- `_decode_key`, which raises ValueError where this gives nothing
  unfoldable pub decode_key : String → Option Text
  decode_key raw = sized (c.b64decode raw)

  abbrev pub cons_key : String → Option Text → Option (Dict Text) → Option (Dict Text)
  cons_key id (some key) (some keys) = some ((id, key) ∷ keys)
  cons_key id _ _ = none

  -- `{kid: _decode_key(raw) for kid, raw in doc["keys"].items()}`
  unfoldable pub decode_all : Fields → Option (Dict Text)
  decode_all end = some []
  decode_all (field id (Json.str raw) fs) = cons_key id (decode_key raw) (decode_all fs)
  decode_all (field id _ fs) = none

  abbrev pub LegacyDoc : Type 0
  LegacyDoc = Option String × Dict Text

  -- The check of `doc.get("current")`.
  unfoldable pub with_current : Option Json → Dict Text → Outcome LegacyDoc
  with_current none keys = ok (none, keys)
  with_current (some Json.null) keys = ok (none, keys)
  with_current (some (Json.str id)) keys =
      if contains id keys
      then ok (some id, keys)
      else err (audit_key_error "audit key store current key is missing")
  with_current (some (Json.arr xs)) keys = err (type_error "unhashable type: 'list'")
  with_current (some (Json.obj fs)) keys = err (type_error "unhashable type: 'dict'")
  with_current (some _) keys = err (audit_key_error "audit key store current key is missing")

  abbrev pub decoded : Option (Dict Text) → Option Json → Outcome LegacyDoc
  decoded none current = corrupt
  decoded (some keys) current = with_current current keys

  abbrev pub keys_of : Option Json → Option Json → Outcome LegacyDoc
  keys_of (some (Json.obj ks)) current = decoded (decode_all ks) current
  keys_of _ current = corrupt

  unfoldable pub read_document : Option Json → Outcome LegacyDoc
  read_document (some (Json.obj fs)) = keys_of (get "keys" fs) (get "current" fs)
  read_document _ = corrupt

  -- `_legacy_doc`
  unfoldable pub legacy_doc : Store → Outcome (Option LegacyDoc)
  legacy_doc s = elim s.legacy [
    | none ↦ ok none
    | some raw ↦ do doc ← read_document (c.loads raw); ok (some doc)
  ]

  -- `_read_split_key`
  unfoldable pub read_split_key : Store → String → Outcome (Option Text)
  read_split_key s key_id = elim (lookup key_id s.slots) [
    | none ↦ ok none
    | some raw ↦ elim (decode_key raw) [ none ↦ corrupt | some key ↦ ok (some key) ]
  ]

  abbrev pub in_legacy : Option LegacyDoc → String → Option Text
  in_legacy none key_id = none
  in_legacy (some (current, keys)) key_id = lookup key_id keys

  -- The rest of `resolve`, where the key has no slot of its own; its last read is of the same store.
  abbrev pub resolve_legacy : Store → String → Outcome (Option Text)
  resolve_legacy s key_id = do
    legacy ← legacy_doc s
    elim (in_legacy legacy key_id) [ none ↦ read_split_key s key_id | some key ↦ ok (some key) ]

  abbrev pub or_legacy : Option Text → Store → String → Outcome (Option Text)
  or_legacy (some key) s key_id = ok (some key)
  or_legacy none s key_id = resolve_legacy s key_id

  unfoldable pub resolve : Store → String → Outcome (Option Text)
  resolve s key_id =
      if valid_key_id key_id
      then (do found ← read_split_key s key_id; or_legacy found s key_id)
      else ok none

  unfoldable pub write_key : Store → String → Text → Store
  write_key s key_id key = record s { slots = insert key_id (c.encode key) s.slots }

  unfoldable pub write_pointer : Store → String → Store
  write_pointer s key_id = record s { pointer = some key_id }

  -- `_converge`
  unfoldable pub converge : Store → Outcome (String × Text)
  converge s = do
    pointer ←
        or_raise s.pointer
          (audit_key_error "credential store did not persist the audit chain key pointer")
    found ← resolve s pointer
    key ←
        or_raise found
          (audit_key_error "audit chain current key is missing from the credential store")
    ok (pointer, key)

  unfoldable pub write_keys : Store → Dict Text → Store
  write_keys s [] = s
  write_keys s ((id, key) ∷ keys) = write_keys (write_key s id key) keys

  -- `_migrate_legacy`; `deletes` says whether the backend deletes the old document.
  unfoldable pub migrate_legacy : Store → Option String → Dict Text → Bool → Store
  migrate_legacy s current keys deletes =
      let s' = write_keys s keys in
      let s'' : Store = elim current [ none ↦ s' | some id ↦ write_pointer s' id ] in
      if deletes then record s'' { legacy = none } else s''

  -- `rotate`, and the creation of the first key: write, move the pointer, read again.
  unfoldable pub rotate : Store → Text → Outcome (String × Text) × Store
  rotate s fresh =
      let s' = write_pointer (write_key s (c.fingerprint fresh) fresh) (c.fingerprint fresh) in
      (converge s', s')

  abbrev pub migrated : Option String → Store → Text → Outcome (String × Text) × Store
  migrated none s fresh = rotate s fresh
  migrated (some id) s fresh = (converge s, s)

  abbrev pub first_use :
      Outcome (Option LegacyDoc) → Store → Text → Bool → Outcome (String × Text) × Store
  first_use (err e) s fresh deletes = (err e, s)
  first_use (ok none) s fresh deletes = rotate s fresh
  first_use (ok (some (id, keys))) s fresh deletes =
      migrated id (migrate_legacy s id keys deletes) fresh

  unfoldable pub current : Store → Text → Bool → Outcome (String × Text) × Store
  current s fresh deletes = elim s.pointer [
    | none ↦ first_use (legacy_doc s) s fresh deletes
    | some id ↦ (converge s, s)
  ]

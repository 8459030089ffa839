-- ===== src/Keyring/Document.antt =====
-- src/openmuse/audit.py: `_DocKeyStore` and FileAuditKeys, the keys of the audit chain in one file. The
-- file is its text and whether others than its owner may use it. A call holds the lock of the store, so
-- the calls of several processes follow each other; only `current` may meet a file that another writer
-- has made since it read. It is the store on POSIX, on a volume with hard links; failures of the file
-- system are left out.
pub mod Sizes
pub mod Kept
mod Tests
use openmuse.Common.{
  String, Text, Bool, true, false, Option, none, some, List, [], ◌∷◌, if◌then◌else◌, Dict, lookup,
  insert, Outcome, ok, err, audit_key_error, key_error, ◌>>=◌, or_raise,
}
use openmuse.Common.Json.{Json, Fields, field, end}
use openmuse.Keyring.{KeyCodec, LegacyDoc, read_document}

pub record KeyFile (S : Type 0) : Type 0 where
  pub text : Option S
  pub is_loose : Bool

-- `json.dumps` into texts `S`, `json.loads`, and the order that `sort_keys` gives a dict.
pub record Writer (S : Type 0) : Type 0 where
  pub dumps : Json → S
  pub loads : S → Option Json
  pub sorted : Dict String → Dict String

unfoldable pub fields_of : Dict String → Fields
fields_of [] = end
fields_of ((id, raw) ∷ d) = field id (Json.str raw) (fields_of d)

abbrev pub name_of : Option String → Json
name_of none = Json.null
name_of (some id) = Json.str id

module _ {S : Type 0} (c : KeyCodec) (w : Writer S) where
  unfoldable pub encode_all : Dict Text → Dict String
  encode_all [] = []
  encode_all ((id, key) ∷ keys) = (id, c.encode key) ∷ encode_all keys

  abbrev pub document_of : LegacyDoc c → Json
  document_of (current, keys) = Json.obj (
      field "current" (name_of current)
        (field "keys" (Json.obj (fields_of (w.sorted (encode_all keys)))) end))

  -- `_check_permissions` and `_read_text`
  unfoldable pub read_text : KeyFile S → Outcome (Option S)
  read_text f = elim f.text [
    | none ↦ ok none
    | some raw ↦
        if f.is_loose
        then err (audit_key_error "audit key file must be owner-only (0600)")
        else ok (some raw)
  ]

  abbrev pub loaded : Option S → Outcome (LegacyDoc c)
  loaded none = ok (none, [])
  loaded (some raw) = read_document c (w.loads raw)

  unfoldable pub load : KeyFile S → Outcome (LegacyDoc c)
  load f = read_text f >>= loaded

  -- `_save`, which is not `exclusive`
  unfoldable pub save : LegacyDoc c → KeyFile S
  save doc = record { text = some (w.dumps (document_of doc)); is_loose = false }

  -- `doc["current"], doc["keys"][doc["current"]]`
  abbrev pub chosen : LegacyDoc c → Outcome (String × Text)
  chosen (none, keys) = err (key_error "None")
  chosen (some id, keys) = do key ← or_raise (lookup id keys) (key_error id); ok (id, key)

  abbrev pub with_fresh : Text → LegacyDoc c → LegacyDoc c
  with_fresh fresh (current, keys) =
      (some (c.fingerprint fresh), insert (c.fingerprint fresh) fresh keys)

  -- `_save` with `exclusive`: a file that is there by now is read instead.
  abbrev pub create : LegacyDoc c → KeyFile S → Option S → Outcome (String × Text) × KeyFile S
  create doc now none = (chosen doc, save doc)
  create doc now (some raw) = (load now >>= chosen, now)

  abbrev pub current_of :
      Outcome (LegacyDoc c) → Text → KeyFile S → Outcome (String × Text) × KeyFile S
  current_of (err e) fresh now = (err e, now)
  current_of (ok (none, keys)) fresh now = create (with_fresh fresh (none, keys)) now now.text
  current_of (ok (some id, keys)) fresh now = (chosen (some id, keys), now)

  -- `current`, of the file that it reads and the file that is there when it writes
  unfoldable pub current : KeyFile S → KeyFile S → Text → Outcome (String × Text) × KeyFile S
  current read now fresh = current_of (load read) fresh now

  abbrev pub rotate_of :
      Outcome (LegacyDoc c) → Text → KeyFile S → Outcome (String × Text) × KeyFile S
  rotate_of (err e) fresh f = (err e, f)
  rotate_of (ok doc) fresh f = (ok (c.fingerprint fresh, fresh), save (with_fresh fresh doc))

  unfoldable pub rotate : KeyFile S → Text → Outcome (String × Text) × KeyFile S
  rotate f fresh = rotate_of (load f) fresh f

  unfoldable pub resolve : KeyFile S → String → Outcome (Option Text)
  resolve f key_id = do doc ← load f; ok (lookup key_id doc.1)

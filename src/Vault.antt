-- ===== src/Vault.antt =====
-- src/openmuse/secrets.py, src/openmuse/broker.py: secrets under two layers of AES-GCM, and the tools
-- that receive them. The cipher and UTF-8 are parameters; fresh keys and nonces are arguments. The
-- consumer of a secret acts on a world `W`; the file is its records, by name.
pub mod Access
mod Tests
use openmuse.Common.{
  ℕ, String, Text, ◌≡◌, Bool, true, false, not, ◌&&◌, ◌||◌, Option, none, some, List, [], ◌∷◌, ◌==◌,
  if◌then◌else◌, Dict, lookup, insert, erase, keys, hex, from_hex, Outcome, ok, err, Exception,
  value_error, key_error, broker_error, other, ◌>>=◌, ◌>>◌, raise_if, or_raise,
}
use openmuse.Common.Json.{Json, Fields, field, end, get, has_key}
use openmuse.Core.{AuditSink}

-- `AESGCM(key).encrypt(nonce, data, aad)` and `decrypt`, and `str.encode` and `bytes.decode`
pub record Cipher : Type 0 where
  pub encrypt : Text → Text → Text → Text → Text
  pub decrypt : Text → Text → Text → Text → Option Text
  pub utf8 : String → Text
  pub decode : Text → Option String

pub record Sealed : Type 0 where
  pub wrap_nonce : Text
  pub wrapped_key : Text
  pub data_nonce : Text
  pub ciphertext : Text

pub record SecretVault : Type 0 where
  pub master_key : Text
  pub records : Dict Sealed

-- What `put` draws: the data key and the two nonces.
pub record Fresh : Type 0 where
  pub dek : Text
  pub wrap_nonce : Text
  pub data_nonce : Text

module _ (c : Cipher) where
  unfoldable pub seal : Text → String → String → Fresh → Sealed
  seal master_key name value f = record {
    wrap_nonce = hex f.wrap_nonce;
    wrapped_key = hex (c.encrypt master_key f.wrap_nonce f.dek (c.utf8 name));
    data_nonce = hex f.data_nonce;
    ciphertext = hex (c.encrypt f.dek f.data_nonce (c.utf8 value) (c.utf8 name));
  }

  unfoldable pub put : SecretVault → String → String → Fresh → SecretVault
  put v name value f = record v { records = insert name (seal v.master_key name value f) v.records }

  unfoldable pub delete : SecretVault → String → SecretVault
  delete v name = record v { records = erase name v.records }

  abbrev pub not_hex : Option Text → Outcome Text
  not_hex o = or_raise o (value_error "non-hexadecimal number found in fromhex() arg")

  abbrev pub invalid_tag : Option Text → Outcome Text
  invalid_tag o = or_raise o (other "InvalidTag" "")

  -- The plaintext of a record.
  unfoldable pub open_sealed : Text → String → Sealed → Outcome String
  open_sealed master_key name s = do
    wrap_nonce ← not_hex (from_hex s.wrap_nonce)
    wrapped ← not_hex (from_hex s.wrapped_key)
    dek ← invalid_tag (c.decrypt master_key wrap_nonce wrapped (c.utf8 name))
    data_nonce ← not_hex (from_hex s.data_nonce)
    ciphertext ← not_hex (from_hex s.ciphertext)
    plaintext ← invalid_tag (c.decrypt dek data_nonce ciphertext (c.utf8 name))
    or_raise (c.decode plaintext) (value_error "invalid utf-8")

  unfoldable pub reveal : SecretVault → String → Outcome String
  reveal v name = do
    s ← or_raise (lookup name v.records) (key_error name)
    open_sealed v.master_key name s

  abbrev pub give_to :
      {A W : Type 0} → (String → W → Outcome A × W) → Outcome String → W → Outcome A × W
  give_to consumer (ok plaintext) w = consumer plaintext w
  give_to consumer (err e) w = (err e, w)

  -- `use`, which passes the plaintext to its consumer
  unfoldable pub use_secret :
      {A W : Type 0} → SecretVault → String → (String → W → Outcome A × W) → W → Outcome A × W
  use_secret v name consumer w = give_to consumer (reveal v name) w

-- A tool that consumes a secret.
pub record SecretTool (W : Type 0) : Type 0 where
  pub name : String
  pub secret_name : String
  pub properties : Fields
  pub run_with_secret : String → Fields → W → Outcome String × W

-- `_BrokeredTool.__init__`: whether the tool may be wrapped
unfoldable pub broker : {W : Type 0} → SecretTool W → Outcome (SecretTool W)
broker t = do
  raise_if (has_key "secret" t.properties || has_key t.secret_name t.properties)
      (broker_error "secret arguments are forbidden in tool schemas")
  ok t

abbrev pub access_record : {W : Type 0} → SecretTool W → String → Fields
access_record t at = field "event" (Json.str "secret_access") (
    field "tool" (Json.str t.name)
      (field "secret_name" (Json.str t.secret_name) (field "at" (Json.str at) end)))

module _ (c : Cipher) (sink : AuditSink) {W : Type 0} where
  abbrev pub logged : Outcome (Unit {0}) × sink.Log → String → W → Outcome String × (W × sink.Log)
  logged (ok u, l) output w = (ok output, (w, l))
  logged (err e, l) output w = (err e, (w, l))

  -- The access record, once the tool has returned.
  abbrev pub record_access :
      SecretTool W → String → Outcome String × W → sink.Log → Outcome String × (W × sink.Log)
  record_access t at (err e, w) l = (err e, (w, l))
  record_access t at (ok output, w) l = logged (sink.append l (access_record t at)) output w

  -- `_BrokeredTool.run`, with an audit log
  unfoldable pub run :
      SecretTool W → SecretVault → Fields → String → W × sink.Log → Outcome String × (W × sink.Log)
  run t v kwargs at (w, l) =
      if has_key "secret" kwargs || has_key t.secret_name kwargs
      then (err (broker_error "secrets never arrive as action arguments"), (w, l))
      else record_access t at (use_secret c v t.secret_name (λ s. t.run_with_secret s kwargs) w) l

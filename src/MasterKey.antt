-- ===== src/MasterKey.antt =====
-- src/openmuse/keyring_keys.py: the vault's master key in the OS credential store. A backend is its
-- class, or a chain of backends; the store is one slot, which may keep or lose what is set. Base64 is
-- a parameter, and the fresh key an argument.
pub mod Stable
mod Tests
use openmuse.Common.{
  ℕ, String, Text, ◌≡◌, Bool, true, false, not, ◌&&◌, ◌||◌, Option, none, some, List, [], ◌∷◌, ◌==◌,
  ltb, eqb, if◌then◌else◌, length, Outcome, ok, err, master_key_error, ◌>>=◌, ◌>>◌, raise_if,
  or_raise,
}

-- A backend's module and class, and the backends of a chain.
mutual
  pub data Backend : Type 0 where
    backend : String → String → Chain → Backend

  pub data Chain : Type 0 where
    nothing : Chain
    chained : Backend → Chain → Chain

-- `_OS_STORE_BACKENDS`
abbrev pub is_listed : String → String → Bool
is_listed module_name name =
    (module_name == "keyring.backends.Windows" && name == "WinVaultKeyring")
    || (module_name == "keyring.backends.macOS" && name == "Keyring")
    || (module_name == "keyring.backends.SecretService" && name == "Keyring")
    || (module_name == "keyring.backends.libsecret" && name == "Keyring")
    || (module_name == "keyring.backends.kwallet" && name == "DBusKeyring")

unfoldable mutual
  -- `_is_os_store`
  pub is_os_store : Backend → Bool
  is_os_store (backend module_name name chain) = is_listed module_name name || is_os_chain chain

  -- A chain that is not empty, all of whose members are OS stores.
  pub is_os_chain : Chain → Bool
  is_os_chain nothing = false
  is_os_chain (chained b rest) = is_os_store b && are_os_stores rest

  pub are_os_stores : Chain → Bool
  are_os_stores nothing = true
  are_os_stores (chained b rest) = is_os_store b && are_os_stores rest

-- `system_credential_store`, where keyring is installed: its backend and whether its priority is
-- positive
unfoldable pub system_credential_store : Backend → Bool → Outcome Backend
system_credential_store b is_positive = do
  raise_if (not is_positive || not (is_os_store b))
      (master_key_error "no usable OS credential-store backend is available")
  ok b

-- `urlsafe_b64encode`, and `urlsafe_b64decode`, which may raise.
pub record Base64 : Type 0 where
  pub encode : Text → String
  pub decode : String → Option Text

module _ (b : Base64) where
  -- What the slot holds as a key of 256 bits.
  unfoldable pub decode_master : String → Outcome Text
  decode_master encoded = do
    key ←
        or_raise (b.decode encoded)
          (master_key_error "credential store contains an invalid master key")
    raise_if (not (eqb (length key) 32))
        (master_key_error "credential store master key must be 256 bits")
    ok key

  abbrev pub read_back : Option String → Outcome Text
  read_back none = err (master_key_error "credential store did not persist the master key")
  read_back (some encoded) = decode_master encoded

  -- `load_or_create`; `persist` is what the store holds after it was given a text.
  unfoldable pub load_or_create :
      (String → Option String) → Option String → Text → Outcome Text × Option String
  load_or_create persist (some encoded) fresh = (decode_master encoded, some encoded)
  load_or_create persist none fresh =
      (read_back (persist (b.encode fresh)), persist (b.encode fresh))

-- ===== src/MasterKey/Stable.antt =====
-- That the master key does not change, and which backends are trusted (keyring_keys.py).
use openmuse.Common.{
  String, Text, ◌≡◌, inl, inr, Bool, true, Option, none, some, length, arith, ok, Option-cases,
  Bool-cases,
}
use openmuse.MasterKey.{
  Backend, backend, Chain, nothing, chained, is_listed, is_os_store, is_os_chain, are_os_stores,
  system_credential_store, Base64, decode_master, load_or_create,
}

-- Every backend that a chain may fall through to is one of the listed classes.
mutual
  pub data IsTrusted : Backend → Type 0 where
    listed : (m n : String) (chain : Chain) → is_listed m n ≡ true → IsTrusted (backend m n chain)
    members :
        (m n : String) (b : Backend) (rest : Chain)
        → IsTrusted b
        → AreTrusted rest
        → IsTrusted (backend m n (chained b rest))

  pub data AreTrusted : Chain → Type 0 where
    no_more : AreTrusted nothing
    one_more :
        (b : Backend) (rest : Chain) → IsTrusted b → AreTrusted rest → AreTrusted (chained b rest)

mutual
  unfolding is_os_store is_os_chain are_os_stores

  os_store-IsTrusted : (b : Backend) → is_os_store b ≡ true → IsTrusted b
  os_store-IsTrusted (backend m n nothing) h = IsTrusted.listed m n nothing (ground (arith, h))
  os_store-IsTrusted (backend m n (chained b rest)) h = elim (Bool-cases (is_listed m n)) [
    | inl yes_ ↦ IsTrusted.listed m n (chained b rest) yes_
    | inr no_ ↦
        IsTrusted.members m n b rest (os_store-IsTrusted b (ground (arith, h, no_)))
          (os_stores-AreTrusted rest (ground (arith, h, no_)))
  ]

  os_stores-AreTrusted : (c : Chain) → are_os_stores c ≡ true → AreTrusted c
  os_stores-AreTrusted nothing h = AreTrusted.no_more
  os_stores-AreTrusted (chained b rest) h =
      AreTrusted.one_more b rest (os_store-IsTrusted b (ground (arith, h)))
        (os_stores-AreTrusted rest (ground (arith, h)))

-- The store that is used has a positive priority, and it is a listed class, or a chain that is not
-- empty of such stores.
pub system_credential_store-IsTrusted :
    (b b' : Backend) (is_positive : Bool)
    → system_credential_store b is_positive ≡ ok b'
    → (b' ≡ b) × (is_positive ≡ true) × IsTrusted b
unfolding system_credential_store
system_credential_store-IsTrusted b b' is_positive h =
    (ground (arith, h), ground (arith, h), os_store-IsTrusted b (ground (arith, h)))

module _ (b : Base64) where
  decode_master-length : (s : String) (key : Text) → decode_master b s ≡ ok key → length key ≡ 32
  unfolding decode_master
  decode_master-length s key h = elim (Option-cases (b.decode s)) [
    | inl e ↦ absurd (ground (arith, h, e))
    | inr (k, e) ↦ ground (arith, h, e)
  ]

  -- A key that is returned has 256 bits, and every later call, with whatever fresh key, returns the
  -- same one: the first key is never replaced.
  pub load_or_create-stable :
      (persist : String → Option String) (slot : Option String) (fresh fresh' key : Text)
      → (load_or_create b persist slot fresh).0 ≡ ok key
      → (length key ≡ 32)
        × ((load_or_create b persist (load_or_create b persist slot fresh).1 fresh').0 ≡ ok key)
  unfolding load_or_create
  load_or_create-stable persist (some encoded) fresh fresh' key h =
      (decode_master-length encoded key h, h)
  load_or_create-stable persist none fresh fresh' key h =
      elim (Option-cases (persist (b.encode fresh))) [
        | inl e ↦ absurd (ground (arith, h, e))
        | inr (s, e) ↦ rw e (decode_master-length s key (rw e at h), rw e at h)
      ]

-- ===== src/Vault/Access.antt =====
-- What comes back out of the vault, and what the log shows of it (secrets.py, broker.py).
use openmuse.Common.{
  String, Text, ◌≡◌, ◌⊎◌, inl, inr, refl, false, ◌||◌, some, [], ◌∷◌, ◌++◌, ◌==◌, eq_iff,
  if◌then◌else◌, arith, lookup-insert, from_hex-hex, IsBytes, Outcome, ok, err, Exception,
  Bool-cases, Outcome-cases, sym,
}
use openmuse.Common.Json.{Fields, has_key}
use openmuse.Core.{AuditSink}
use openmuse.Vault.{
  Cipher, SecretVault, Fresh, seal, put, open_sealed, reveal, use_secret, SecretTool, access_record,
  run, record_access,
}

module _ (c : Cipher) where
  -- Documented behaviour of AES-GCM and UTF-8 on these inputs, and that they are bytes.
  pub record IsReversible (master_key : Text) (name value : String) (f : Fresh) : Type 0 where
    pub wrap :
        c.decrypt master_key f.wrap_nonce
          (c.encrypt master_key f.wrap_nonce f.dek (c.utf8 name))
          (c.utf8 name)
        ≡ some f.dek
    pub sealed :
        c.decrypt f.dek f.data_nonce
          (c.encrypt f.dek f.data_nonce (c.utf8 value) (c.utf8 name))
          (c.utf8 name)
        ≡ some (c.utf8 value)
    pub text : c.decode (c.utf8 value) ≡ some value
    pub wrap_bytes : IsBytes f.wrap_nonce
    pub data_bytes : IsBytes f.data_nonce
    pub key_bytes : IsBytes (c.encrypt master_key f.wrap_nonce f.dek (c.utf8 name))
    pub cipher_bytes : IsBytes (c.encrypt f.dek f.data_nonce (c.utf8 value) (c.utf8 name))

  open_sealed-seal :
      (master_key : Text) (name value : String) (f : Fresh)
      → IsReversible master_key name value f
      → open_sealed c master_key name (seal c master_key name value f) ≡ ok value
  unfolding open_sealed seal
  open_sealed-seal master_key name value f r =
      let e1 = from_hex-hex f.wrap_nonce r.wrap_bytes in
      let e2 = from_hex-hex (c.encrypt master_key f.wrap_nonce f.dek (c.utf8 name)) r.key_bytes in
      let e3 = from_hex-hex f.data_nonce r.data_bytes in
      let e4 =
        from_hex-hex (c.encrypt f.dek f.data_nonce (c.utf8 value) (c.utf8 name)) r.cipher_bytes in
      ground (arith, e1, e2, e3, e4, r.wrap, r.sealed, r.text)

  -- A secret that was put is what its consumers receive, and every other secret is as it was.
  pub reveal-put :
      (v : SecretVault) (name name' value : String) (f : Fresh)
      → IsReversible v.master_key name value f
      → reveal c (put c v name value f) name'
        ≡ (if name == name' then ok value else reveal c v name')
  unfolding reveal put
  reveal-put v name name' value f r = elim (Bool-cases (name == name')) [
    | inr differs ↦
        ground
          (arith, differs, lookup-insert name name' (seal c v.master_key name value f) v.records)
    | inl same ↦
        let is_name = (eq_iff name name').0 same in
        rw same (
          rw (sym is_name) (
            ground (
              arith,
              lookup-insert name name (seal c v.master_key name value f) v.records,
              eq_iff name name,
              open_sealed-seal v.master_key name value f r,
            )))
  ]

module _ (c : Cipher) (sink : AuditSink) {W : Type 0} where
  -- What a run of a brokered tool did: nothing, with an error; or the tool received the secret of its
  -- own name and raised, and the log shows nothing; or it returned, and the log has at most one
  -- record more, which is made of names and a time only.
  pub data Did (t : SecretTool W) (v : SecretVault) (kwargs : Fields) (at : String) (w w' : W)
      (l l' : sink.Log) : Type 0 where
    nothing : w' ≡ w → l' ≡ l → Did t v kwargs at w w' l l'
    raised :
        (secret : String) (e : Exception)
        → reveal c v t.secret_name ≡ ok secret
        → t.run_with_secret secret kwargs w ≡ (err e, w')
        → l' ≡ l
        → Did t v kwargs at w w' l l'
    returned :
        (secret output : String)
        → reveal c v t.secret_name ≡ ok secret
        → t.run_with_secret secret kwargs w ≡ (ok output, w')
        → (sink.records l' ≡ sink.records l)
          ⊎ (sink.records l' ≡ sink.records l ++ sink.redact (access_record t at) ∷ [])
        → Did t v kwargs at w w' l l'

  returned-Did :
      (t : SecretTool W) (v : SecretVault) (kwargs : Fields) (at : String) (w w' : W) (l : sink.Log)
      (secret output : String)
      → reveal c v t.secret_name ≡ ok secret
      → t.run_with_secret secret kwargs w ≡ (ok output, w')
      → let r = record_access c sink t at (ok output, w') l in Did t v kwargs at w r.1.0 l r.1.1
  returned-Did t v kwargs at w w' l secret output revealed did =
      let f = access_record t at in
      elim (Outcome-cases (sink.append l f).0) [
        | inl (u, e) ↦
            let is_w : (record_access c sink t at (ok output, w') l).1 ≡ (w', (sink.append l f).1) =
              ground (arith, e) in
            rw is_w (Did.returned secret output revealed did (inr (sink.appended l f e)))
        | inr (x, e) ↦
            let is_w : (record_access c sink t at (ok output, w') l).1 ≡ (w', (sink.append l f).1) =
              ground (arith, e) in
            rw is_w (Did.returned secret output revealed did (sink.refused l f x e))
      ]

  used-Did :
      (t : SecretTool W) (v : SecretVault) (kwargs : Fields) (at : String) (w : W) (l : sink.Log)
      → let r =
          record_access c sink t at
            (use_secret c v t.secret_name (λ s. t.run_with_secret s kwargs) w)
            l in
        Did t v kwargs at w r.1.0 l r.1.1
  unfolding use_secret
  used-Did t v kwargs at w l = elim (Outcome-cases (reveal c v t.secret_name)) [
    | inr (x, e) ↦ rw e (Did.nothing refl refl)
    | inl (secret, e) ↦ rw e (by_run secret (t.run_with_secret secret kwargs w) e refl)
  ]
    where
      by_run :
          (secret : String) (o : Outcome String × W)
          → reveal c v t.secret_name ≡ ok secret
          → t.run_with_secret secret kwargs w ≡ o
          → let r = record_access c sink t at o l in Did t v kwargs at w r.1.0 l r.1.1
      by_run secret (ok output, w') e did = returned-Did t v kwargs at w w' l secret output e did
      by_run secret (err x, w') e did = Did.raised secret x e did refl

  -- A brokered tool runs on the secret of its own name or not at all, never with a secret among its
  -- arguments, and the log gains at most the record of the access, which does not depend on the secret.
  pub run-Did :
      (t : SecretTool W) (v : SecretVault) (kwargs : Fields) (at : String) (w : W) (l : sink.Log)
      → Did t v kwargs at w
          (run c sink t v kwargs at (w, l)).1.0
          l
          (run c sink t v kwargs at (w, l)).1.1
        × ((has_key "secret" kwargs || has_key t.secret_name kwargs) ≡ false
            ⊎ ((run c sink t v kwargs at (w, l)).1 ≡ (w, l)))
  unfolding run
  run-Did t v kwargs at w l =
      elim (Bool-cases (has_key "secret" kwargs || has_key t.secret_name kwargs)) [
        | inl forbidden ↦ rw forbidden (Did.nothing refl refl, inr refl)
        | inr clean ↦ rw clean (used-Did t v kwargs at w l, inl refl)
      ]

-- ===== src/OAuth/Tokens.antt =====
-- Which token a caller is given, and what is kept where something fails (google_oauth.py).
use openmuse.Common.{
  err_not_ok, ◌==◌, if◌then◌else◌, String, ◌≡◌, ◌⊎◌, inl, inr, refl, sym, ◌∙◌, true, false, Option,
  none, some, [], ◌∷◌, ℤ, pos, ◌+ℤ◌, ltb_ℤ, subset, lookup, lookup-erase, Outcome, ok, err,
  Exception, value_error, arith, Bool-cases, Option-cases, Outcome-cases,
}
use openmuse.Common.Json.{Json, Fields, get, has_key}
use openmuse.Vault.{Cipher, SecretVault, Fresh, delete, reveal}
use openmuse.Vault.Access.{IsReversible}
use openmuse.OAuth.{
  Endpoint, Platform, GoogleOAuthManager, OAuthTokens, nonempty_text, checked_payload, save_payload,
  tokens_of, unavailable, load, exchange_form, answered, exchange_code, refresh_form, access_of,
  access_token, deleted, revoke_and_delete,
}
use openmuse.OAuth.Stored.{
  IsReadable, fields_of, IsGood, scopes_for, KeepsElements, load-save_payload,
}

gone :
    (c : Cipher) (name key : String) (v : SecretVault)
    → lookup name (delete c v key).records ≡ (if key == name then none else lookup name v.records)
unfolding delete
gone c name key v = lookup-erase key name v.records

module _ {N : Type 0} (p : Platform N) (m : GoogleOAuthManager) where
  -- After the exchange of a code for a good answer, the access token of the answer is given out, with
  -- no call of the provider and nothing stored, until a minute before its life ends.
  pub access_token-exchange_code :
      (v : SecretVault) (code access refresh : String) (verifier : Option String) (payload : Fields)
      (life now now' later : ℤ) (fresh fresh' : Fresh) (n n' n'' : N)
      → p.transport Endpoint.token (exchange_form p m code verifier) n ≡ (ok payload, n')
      → IsGood p m payload none access refresh life
      → KeepsElements p m
      → IsReadable p m (fields_of p m access refresh (now +ℤ life) (scopes_for p m payload))
      → IsReversible p.cipher v.master_key m.record_name
          (p.dumps (Json.obj (fields_of p m access refresh (now +ℤ life) (scopes_for p m payload))))
          fresh
      → ltb_ℤ (now' +ℤ pos 60) (now +ℤ life) ≡ true
      → (v' : SecretVault) × (exchange_code p m v code verifier now fresh n ≡ (ok tt, (v', n')))
        × (access_token p m v' now' later fresh' n'' ≡ (ok access, (v', n'')))
  unfolding exchange_code access_token
  access_token-exchange_code v code access refresh verifier payload life now now' later fresh fresh'
        n n' n'' answers good keeps readable reversible early =
      let (v', stores, loads) =
        load-save_payload p m v payload true none access refresh life now fresh good (inr refl)
          keeps readable reversible in
      (v', rw (answers, stores) refl, rw (loads, early) refl)

  -- How a call of `access_token` ends, for each thing that its steps may give.
  pub data Gave (v : SecretVault) (now later : ℤ) (fresh : Fresh) (n : N)
      : Outcome String → SecretVault → N → Type 0 where
    broken :
        (e : Exception)
        → load p m v ≡ err e
        → {o : Outcome String} {v' : SecretVault} {n' : N} → o ≡ err e
        → v' ≡ v
        → n' ≡ n
        → Gave v now later fresh n o v' n'
    cached :
        (t : OAuthTokens)
        → load p m v ≡ ok t
        → ltb_ℤ (now +ℤ pos 60) t.expires_at ≡ true
        → {o : Outcome String} {v' : SecretVault} {n' : N} → o ≡ ok t.access_token
        → v' ≡ v
        → n' ≡ n
        → Gave v now later fresh n o v' n'
    unanswered :
        (t : OAuthTokens) (e : Exception)
        → load p m v ≡ ok t
        → ltb_ℤ (now +ℤ pos 60) t.expires_at ≡ false
        → {o : Outcome String} {v' : SecretVault} {n' : N}
        → p.transport Endpoint.token (refresh_form p m t.refresh_token) n ≡ (err e, n')
        → o ≡ err e
        → v' ≡ v
        → Gave v now later fresh n o v' n'
    refused :
        (t : OAuthTokens) (payload : Fields) (e : Exception)
        → load p m v ≡ ok t
        → ltb_ℤ (now +ℤ pos 60) t.expires_at ≡ false
        → {o : Outcome String} {v' : SecretVault} {n' : N}
        → p.transport Endpoint.token (refresh_form p m t.refresh_token) n ≡ (ok payload, n')
        → save_payload p m v payload false (some t.refresh_token) later fresh ≡ err e
        → o ≡ err e
        → v' ≡ v
        → Gave v now later fresh n o v' n'
    renewed :
        (t t' : OAuthTokens) (payload : Fields)
        → load p m v ≡ ok t
        → ltb_ℤ (now +ℤ pos 60) t.expires_at ≡ false
        → {o : Outcome String} {v' : SecretVault} {n' : N}
        → p.transport Endpoint.token (refresh_form p m t.refresh_token) n ≡ (ok payload, n')
        → save_payload p m v payload false (some t.refresh_token) later fresh ≡ ok v'
        → load p m v' ≡ ok t'
        → o ≡ ok t'.access_token
        → Gave v now later fresh n o v' n'
    unreadable :
        (t : OAuthTokens) (payload : Fields) (e : Exception)
        → load p m v ≡ ok t
        → ltb_ℤ (now +ℤ pos 60) t.expires_at ≡ false
        → {o : Outcome String} {v' : SecretVault} {n' : N}
        → p.transport Endpoint.token (refresh_form p m t.refresh_token) n ≡ (ok payload, n')
        → save_payload p m v payload false (some t.refresh_token) later fresh ≡ ok v'
        → load p m v' ≡ err e
        → o ≡ err e
        → Gave v now later fresh n o v' n'

  by_answer :
      (v : SecretVault) (now later : ℤ) (fresh : Fresh) (n : N) (t : OAuthTokens)
      (a : Outcome Fields × N)
      → load p m v ≡ ok t
      → ltb_ℤ (now +ℤ pos 60) t.expires_at ≡ false
      → p.transport Endpoint.token (refresh_form p m t.refresh_token) n ≡ a
      → let r =
          answered p m v a false
            (some t.refresh_token)
            later
            fresh
            (λ v'. access_of p m (load p m v')) in
        Gave v now later fresh n r.0 r.1.0 r.1.1
  by_answer v now later fresh n t (err e, n') loads late sent =
      Gave.unanswered t e loads late sent refl refl
  by_answer v now later fresh n t (ok payload, n') loads late sent =
      elim (Outcome-cases (save_payload p m v payload false (some t.refresh_token) later fresh)) [
        | inr (e, not_stored) ↦
            rw not_stored (Gave.refused t payload e loads late sent not_stored refl refl)
        | inl (v', stores) ↦ elim (Outcome-cases (load p m v')) [
          | inl (t', again) ↦
              rw (stores, again) (Gave.renewed t t' payload loads late sent stores again refl)
          | inr (e, again) ↦
              rw (stores, again) (Gave.unreadable t payload e loads late sent stores again refl)
        ]
      ]

  -- A call ends in one of six ways. The stored record cannot be loaded, and the call fails with that
  -- error. Or its access token lives for more than a minute and is given, with nothing stored or sent.
  -- Or it does not, and the provider is sent the stored refresh token: its failure is the call's, and
  -- the vault stays as it was; an answer that is not accepted is the call's error, and the vault stays
  -- as it was; an answer that is accepted is stored, and the call gives the access token of the record
  -- that is then stored, or fails with the error of loading it.
  pub access_token-Gave :
      (v : SecretVault) (now later : ℤ) (fresh : Fresh) (n : N)
      → let r = access_token p m v now later fresh n in Gave v now later fresh n r.0 r.1.0 r.1.1
  unfolding access_token
  access_token-Gave v now later fresh n = elim (Outcome-cases (load p m v)) [
    | inr (e, failed) ↦ rw (failed, access_token) (Gave.broken e failed refl refl refl)
    | inl (t, loads) ↦ elim (Bool-cases (ltb_ℤ (now +ℤ pos 60) t.expires_at)) [
      | inl early ↦ rw (loads, access_token, early) (Gave.cached t loads early refl refl refl)
      | inr late ↦
          rw (loads, access_token, late)
            (by_answer v now later fresh n t
              (p.transport Endpoint.token (refresh_form p m t.refresh_token) n) loads late refl)
    ]
  ]

  load-covers :
      (v : SecretVault) (t : OAuthTokens) → load p m v ≡ ok t → subset m.scopes t.scope ≡ true
  unfolding load
  load-covers v t h = elim (Outcome-cases (unavailable p m (reveal p.cipher v m.record_name))) [
    | inr (e, f) ↦ absurd (ground (arith, f, h))
    | inl (value, f) ↦ elim (Outcome-cases (tokens_of p m (p.loads value))) [
      | inr (e, g) ↦ absurd (ground (arith, f, g, h))
      | inl (tokens, g) ↦ ground (arith, f, g, h)
    ]
  ]

  -- A token that is given out is one of a stored record whose scopes cover the manager's.
  pub access_token-covered :
      (v : SecretVault) (now later : ℤ) (fresh : Fresh) (n : N) (a : String)
      → (access_token p m v now later fresh n).0 ≡ ok a
      → (t : OAuthTokens) × (load p m (access_token p m v now later fresh n).1.0 ≡ ok t)
        × (t.access_token ≡ a)
        × (subset m.scopes t.scope ≡ true)
  access_token-covered v now later fresh n a h =
      covered (access_token p m v now later fresh n).0 (access_token p m v now later fresh n).1.0
        (access_token p m v now later fresh n).1.1 (access_token-Gave v now later fresh n) h
    where
      by_load :
          (v' : SecretVault)
          → access_of p m (load p m v') ≡ ok a
          → (t : OAuthTokens) × (load p m v' ≡ ok t)
            × (t.access_token ≡ a)
            × (subset m.scopes t.scope ≡ true)
      by_load v' h' = elim (Outcome-cases (load p m v')) [
        | inr (e, f) ↦ absurd (ground (arith, f, h'))
        | inl (t, f) ↦ (t, f, ground (arith, f, h'), load-covers v' t f)
      ]

      covered :
          (o : Outcome String) (v' : SecretVault) (n' : N)
          → Gave v now later fresh n o v' n'
          → o ≡ ok a
          → (t : OAuthTokens) × (load p m v' ≡ ok t)
            × (t.access_token ≡ a)
            × (subset m.scopes t.scope ≡ true)
      covered o v' n' (Gave.cached t loads early is_o same _) h' =
          by_load v' (rw same (rw loads (sym is_o ∙ h')))
      covered o v' n' (Gave.renewed t t' payload loads late sent stores again is_o) h' =
          by_load v' (rw again (sym is_o ∙ h'))
      covered o v' n' (Gave.broken e loads is_o _ _) h' = absurd (err_not_ok (sym is_o ∙ h'))
      covered o v' n' (Gave.unanswered t e loads late sent is_o _) h' =
          absurd (err_not_ok (sym is_o ∙ h'))
      covered o v' n' (Gave.refused t payload e loads late sent _ is_o _) h' =
          absurd (err_not_ok (sym is_o ∙ h'))
      covered o v' n' (Gave.unreadable t payload e loads late sent stores again is_o) h' =
          absurd (err_not_ok (sym is_o ∙ h'))

  -- How a call of `revoke_and_delete` ends.
  abbrev pub Revokes : SecretVault → N → Type 0
  Revokes v n =
      ((e : Exception) × (load p m v ≡ err e) × (revoke_and_delete p m v n ≡ (err e, (v, n))))
      ⊎ ((t : OAuthTokens) × (load p m v ≡ ok t)
          × (((e : Exception) × (n' : N) × (p.transport Endpoint.revocation
                    (("token", t.refresh_token) ∷ []) n
                  ≡ (err e, n'))
                × (revoke_and_delete p m v n ≡ (err e, (v, n'))))
              ⊎ ((answer : Fields) × (n' : N) × (v' : SecretVault) × (p.transport
                      Endpoint.revocation (("token", t.refresh_token) ∷ []) n
                    ≡ (ok answer, n'))
                  × (revoke_and_delete p m v n ≡ (ok tt, (v', n')))
                  × ((name : String)
                      → lookup name v'.records
                        ≡ (if m.record_name == name then none else lookup name v.records)))))

  -- A revocation ends in one of three ways: it fails because the stored record cannot be loaded, with
  -- nothing sent; or because the revocation of the stored refresh token failed, with the vault as it
  -- was; or the provider answered, the call succeeds, and the record, and no other, is gone.
  pub revoke_and_delete-ordered : (v : SecretVault) (n : N) → Revokes v n
  unfolding revoke_and_delete
  revoke_and_delete-ordered v n = elim (Outcome-cases (load p m v)) [
    | inr (e, failed) ↦ inl (e, failed, rw (failed, revoke_and_delete) refl)
    | inl (t, loads) ↦ inr (
      t,
      loads,
      rw (loads, revoke_and_delete)
          (by_answer' (p.transport Endpoint.revocation (("token", t.refresh_token) ∷ []) n)),
    )
  ]
    where
      by_answer' :
          (a : Outcome Fields × N)
          → ((e : Exception) × (n' : N) × (a ≡ (err e, n')) × (deleted p m v a ≡ (err e, (v, n'))))
            ⊎ ((answer : Fields) × (n' : N) × (v' : SecretVault) × (a ≡ (ok answer, n'))
                × (deleted p m v a ≡ (ok tt, (v', n')))
                × ((name : String)
                    → lookup name v'.records
                      ≡ (if m.record_name == name then none else lookup name v.records)))
      by_answer' (err e, n') = inl (e, n', refl, refl)
      by_answer' (ok answer, n') = inr (
        answer,
        n',
        delete p.cipher v m.record_name,
        refl,
        refl,
        λ name. gone p.cipher name m.record_name v,
      )

  -- An answer to a code that has no refresh token is refused as one that misses tokens: the check that
  -- has a message of its own for it is never reached.
  pub exchange_code-unreached :
      (v : SecretVault) (code : String) (verifier : Option String) (payload : Fields) (now : ℤ)
      (fresh : Fresh) (n n' : N)
      → p.transport Endpoint.token (exchange_form p m code verifier) n ≡ (ok payload, n')
      → has_key "refresh_token" payload ≡ false
      → exchange_code p m v code verifier now fresh n
        ≡ (err (value_error "OAuth response is missing tokens"), (v, n'))
  unfolding exchange_code save_payload checked_payload
  exchange_code-unreached v code verifier payload now fresh n n' answers missing =
      elim (Option-cases (get "refresh_token" payload)) [
        | inr (x, e) ↦ absurd (ground (arith, e, missing))
        | inl e ↦ elim (Option-cases (nonempty_text (get "access_token" payload))) [
          | inl f ↦ rw (answers, e, f) refl
          | inr (a, f) ↦ rw (answers, e, f) refl
        ]
      ]

-- ===== src/OAuth/Stored.antt =====
-- What is stored of a provider's answer, and what is read of it (google_oauth.py).
use openmuse.Common.{
  String, ◌≡◌, ◌⊎◌, inl, inr, refl, ◌∙◌, Bool, true, false, not, ◌&&◌, Option, none, some, List, [],
  ◌∷◌, map, ◌==◌, ℤ, ◌+ℤ◌, subset, subset_refl, is_nothing, ok, arith, Option-cases, eq_refl,
}
use openmuse.Common.Json.{Json, Fields, field, end, get, has_key}
use openmuse.Vault.{SecretVault, Fresh, put, reveal}
use openmuse.Vault.Access.{IsReversible, reveal-put}
use openmuse.OAuth.{
  Platform, GoogleOAuthManager, json_texts, items_of, nonempty_text, lifetime, or_default,
  stored_record, plain_text, granted_scopes, or_requested, checked_payload, save_payload, tokens_of,
  load,
}

module _ {N : Type 0} (p : Platform N) (m : GoogleOAuthManager) where
  -- Documented behaviour of `json`: what was written is read back, whatever the order of its keys.
  pub record IsReadable (fs : Fields) : Type 0 where
    pub read : Fields
    pub reads : p.loads (p.dumps (Json.obj fs)) ≡ some (Json.obj read)
    pub same : (k : String) → get k read ≡ get k fs

  plain-json_texts :
      (scope : List String) → map (plain_text p m) (items_of (json_texts scope)) ≡ scope
  plain-json_texts [] = refl
  plain-json_texts (s ∷ ss) = ground (arith, plain-json_texts ss)

  -- The fields of a stored record.
  abbrev pub fields_of : String → String → ℤ → List String → Fields
  fields_of access refresh at scope = field "access_token" (Json.str access) (
      field "refresh_token" (Json.str refresh)
        (field "expires_at" (Json.num at) (field "scope" (Json.arr (json_texts scope)) end)))

  -- A provider's answer that can be stored: it has the tokens, a lifetime and every requested scope.
  pub record IsGood (payload : Fields) (refresh_token : Option String) (access refresh : String)
      (life : ℤ) : Type 0 where
    pub has_access : nonempty_text (get "access_token" payload) ≡ some access
    pub has_refresh :
        nonempty_text (or_default (get "refresh_token" payload) refresh_token) ≡ some refresh
    pub lives : lifetime (get "expires_in" payload) ≡ some life
    pub grants :
        (is_nothing (granted_scopes p m (get "scope" payload)) ≡ true)
        ⊎ (subset m.scopes (granted_scopes p m (get "scope" payload)) ≡ true)

  abbrev pub scopes_for : Fields → List String
  scopes_for payload = p.sorted (or_requested p m (granted_scopes p m (get "scope" payload)))

  covers :
      (granted : List String)
      → (is_nothing granted ≡ true) ⊎ (subset m.scopes granted ≡ true)
      → subset m.scopes (or_requested p m granted) ≡ true
  covers [] h = subset_refl m.scopes
  covers (g ∷ gs) (inl h) = cc
  covers (g ∷ gs) (inr h) = h

  nonempty : (j : Option Json) (s : String) → nonempty_text j ≡ some s → (s == "") ≡ false
  nonempty (some (Json.str t)) s h = ground (arith, h)
  nonempty none s h = cc
  nonempty (some _) s h = absurd (cc)

  checked_payload-IsGood :
      (payload : Fields) (require_refresh : Bool) (refresh_token : Option String)
      (access refresh : String) (life now : ℤ)
      → IsGood payload refresh_token access refresh life
      → (require_refresh ≡ false) ⊎ (refresh_token ≡ none)
      → checked_payload p m payload require_refresh refresh_token now
        ≡ ok (Json.obj (fields_of access refresh (now +ℤ life) (scopes_for payload)))
  unfolding checked_payload stored_record
  checked_payload-IsGood payload require_refresh refresh_token access refresh life now good once =
      let required : (require_refresh && not (has_key "refresh_token" payload)) ≡ false =
        by_source require_refresh refresh_token once good.has_refresh in
      let covered : (not (is_nothing (granted_scopes p m (get "scope" payload)))
            && not (subset m.scopes (granted_scopes p m (get "scope" payload))))
          ≡ false =
        by_grant good.grants in
      ground (arith, good.has_access, good.has_refresh, good.lives, required, covered)
    where
      by_grant :
          (is_nothing (granted_scopes p m (get "scope" payload)) ≡ true)
            ⊎ (subset m.scopes (granted_scopes p m (get "scope" payload)) ≡ true)
          → (not (is_nothing (granted_scopes p m (get "scope" payload)))
              && not (subset m.scopes (granted_scopes p m (get "scope" payload))))
            ≡ false
      by_grant (inl h) = rw h refl
      by_grant (inr h) = ground (arith, h)

      by_source :
          (b : Bool) (o : Option String)
          → (b ≡ false) ⊎ (o ≡ none)
          → nonempty_text (or_default (get "refresh_token" payload) o) ≡ some refresh
          → (b && not (has_key "refresh_token" payload)) ≡ false
      by_source b o (inl h) k = rw h refl
      by_source b o (inr h) k = elim (Option-cases (get "refresh_token" payload)) [
        | inl e ↦ absurd (ground (arith, e, h, k))
        | inr (v, e) ↦ ground (arith, e)
      ]

  -- Documented behaviour of `sorted`: it has the elements of the set.
  abbrev pub KeepsElements : Type 0
  KeepsElements = (xs ys : List String) → subset xs (p.sorted ys) ≡ subset xs ys

  tokens_of-fields :
      (read : Fields) (access refresh : String) (at : ℤ) (scope : List String)
      → ((k : String) → get k read ≡ get k (fields_of access refresh at scope))
      → tokens_of p m (some (Json.obj read))
        ≡ ok (record {
          access_token = access;
          expires_at = at;
          refresh_token = refresh;
          scope = scope;
        })
  unfolding tokens_of get
  tokens_of-fields read access refresh at scope same = ground (
    arith,
    same "access_token",
    same "expires_at",
    same "refresh_token",
    same "scope",
    plain-json_texts scope,
  )

  -- A good answer is stored, and what is loaded afterwards is its tokens, with the time until which
  -- they live and scopes that cover those of the manager.
  pub load-save_payload :
      (v : SecretVault) (payload : Fields) (require_refresh : Bool) (refresh_token : Option String)
      (access refresh : String) (life now : ℤ) (fresh : Fresh)
      → IsGood payload refresh_token access refresh life
      → (require_refresh ≡ false) ⊎ (refresh_token ≡ none)
      → KeepsElements
      → IsReadable (fields_of access refresh (now +ℤ life) (scopes_for payload))
      → IsReversible p.cipher v.master_key m.record_name
          (p.dumps (Json.obj (fields_of access refresh (now +ℤ life) (scopes_for payload))))
          fresh
      → (v' : SecretVault) × (save_payload p m v payload require_refresh refresh_token now fresh
          ≡ ok v')
        × (load p m v'
            ≡ ok (record {
              access_token = access;
              expires_at = now +ℤ life;
              refresh_token = refresh;
              scope = scopes_for payload;
            }))
  unfolding save_payload load
  load-save_payload v payload require_refresh refresh_token access refresh life now fresh good once
        keeps readable reversible =
      let text = p.dumps (Json.obj (fields_of access refresh (now +ℤ life) (scopes_for payload))) in
      let checked =
        checked_payload-IsGood payload require_refresh refresh_token access refresh life now good
          once in
      let revealed : reveal p.cipher (put p.cipher v m.record_name text fresh) m.record_name
          ≡ ok text =
        reveal-put p.cipher v m.record_name m.record_name text fresh reversible
        ∙ rw (eq_refl m.record_name) refl in
      let tokens =
        tokens_of-fields readable.read access refresh (now +ℤ life) (scopes_for payload)
          readable.same in
      let covered : subset m.scopes (scopes_for payload) ≡ true =
        keeps m.scopes (or_requested p m (granted_scopes p m (get "scope" payload)))
        ∙ covers (granted_scopes p m (get "scope" payload)) good.grants in
      let has_access = nonempty (get "access_token" payload) access good.has_access in
      let has_refresh =
        nonempty (or_default (get "refresh_token" payload) refresh_token) refresh
          good.has_refresh in
      (
        put p.cipher v m.record_name text fresh,
        ground (arith, checked),
        rw (revealed, readable.reads, tokens, has_access, has_refresh, covered) refl,
      )

-- ===== src/OAuth.antt =====
-- src/openmuse/google_oauth.py: GoogleOAuthManager over a SecretVault. The transport is a parameter
-- that acts on a world `N`; times are whole seconds, and a lifetime is an integer. JSON texts, `str`
-- of a value and `str.split` are parameters; the addresses and the form's encoding are left out.
pub mod Stored
pub mod Tokens
mod Tests
use openmuse.Common.{
  ℕ, String, codes, ◌≡◌, Bool, true, false, not, ◌&&◌, ◌||◌, Option, none, some, List, [], ◌∷◌, map,
  ◌==◌, if◌then◌else◌, ℤ, pos, ◌+ℤ◌, leb_ℤ, ltb_ℤ, subset, is_some, is_nothing, Outcome, ok, err,
  Exception, value_error, key_error, type_error, ◌>>=◌, ◌>>◌, raise_if, or_raise,
}
use openmuse.Common.Json.{Json, Items, nil, item, Fields, field, end, get, has_key}
use openmuse.Vault.{Cipher, SecretVault, Fresh, put, delete, reveal}

-- Which of the provider's two addresses a form is posted to.
pub data Endpoint : Type 0 where
  token revocation : Endpoint

abbrev pub Form : Type 0
Form = List (String × String)

pub record Platform (N : Type 0) : Type 0 where
  pub cipher : Cipher
  -- `json.dumps(v, sort_keys=True)` and `json.loads`
  pub dumps : Json → String
  pub loads : String → Option Json
  -- `str(v)`, `str.split()`, `sorted` of a set, and `float(text)` where it raises nothing
  pub text_of : Json → String
  pub words : String → List String
  pub sorted : List String → List String
  pub float_text : String → Option ℤ
  pub transport : Endpoint → Form → N → Outcome Fields × N

pub record GoogleOAuthManager : Type 0 where
  pub client_id : String
  pub client_secret : String
  pub redirect_uri : String
  pub scopes : List String
  pub record_name : String

pub record OAuthTokens : Type 0 where
  pub access_token : String
  pub expires_at : ℤ
  pub refresh_token : String
  pub scope : List String

-- `__init__`
unfoldable pub manager : GoogleOAuthManager → Outcome GoogleOAuthManager
manager m = do
  raise_if (m.client_id == "" || m.client_secret == "" || is_nothing m.scopes)
      (value_error "client credentials and scopes are required")
  ok m

abbrev pub json_texts : List String → Items
json_texts [] = nil
json_texts (s ∷ ss) = item (Json.str s) (json_texts ss)

abbrev pub items_of : Items → List Json
items_of nil = []
items_of (item x xs) = x ∷ items_of xs

abbrev pub keys_of : Fields → List Json
keys_of end = []
keys_of (field k v fs) = Json.str k ∷ keys_of fs

abbrev pub chars_of : String → List Json
chars_of String.[] = []
chars_of (String.◌∷◌ c s) = Json.str (String.◌∷◌ c String.[]) ∷ chars_of s

-- What `for x in v` goes through, where `v` can be iterated.
abbrev pub iterated : Json → Option (List Json)
iterated (Json.arr xs) = some (items_of xs)
iterated (Json.obj fs) = some (keys_of fs)
iterated (Json.str s) = some (chars_of s)
iterated _ = none

-- `payload.get(k)`, where it is a text that is not empty
abbrev pub nonempty_text : Option Json → Option String
nonempty_text (some (Json.str s)) = if s == "" then none else some s
nonempty_text _ = none

-- `payload.get("expires_in")`, where it is a positive number and no Boolean
abbrev pub lifetime : Option Json → Option ℤ
lifetime (some (Json.num n)) = if ltb_ℤ (pos 0) n then some n else none
lifetime _ = none

-- `payload.get("refresh_token", refresh_token)`
abbrev pub or_default : Option Json → Option String → Option Json
or_default (some v) d = some v
or_default none none = none
or_default none (some s) = some (Json.str s)

unfoldable pub stored_record : String → String → ℤ → List String → Json
stored_record access refresh expires_at scope = Json.obj (
    field "access_token" (Json.str access) (
      field "refresh_token" (Json.str refresh) (
        field "expires_at" (Json.num expires_at)
          (field "scope" (Json.arr (json_texts scope)) end))))

module _ {N : Type 0} (p : Platform N) (m : GoogleOAuthManager) where
  -- `str(v)`
  abbrev pub plain_text : Json → String
  plain_text (Json.str s) = s
  plain_text v = p.text_of v

  -- `frozenset(str(payload.get("scope", "")).split())`
  unfoldable pub granted_scopes : Option Json → List String
  granted_scopes none = p.words ""
  granted_scopes (some v) = p.words (plain_text v)

  abbrev pub or_requested : List String → List String
  or_requested [] = m.scopes
  or_requested (s ∷ ss) = s ∷ ss

  -- The record that `_save_payload` makes of a payload.
  unfoldable pub checked_payload : Fields → Bool → Option String → ℤ → Outcome Json
  checked_payload payload require_refresh refresh_token now = do
    let granted = granted_scopes (get "scope" payload)
    access ←
        or_raise (nonempty_text (get "access_token" payload))
          (value_error "OAuth response is missing tokens")
    refresh ←
        or_raise (nonempty_text (or_default (get "refresh_token" payload) refresh_token))
          (value_error "OAuth response is missing tokens")
    raise_if (require_refresh && not (has_key "refresh_token" payload))
        (value_error "OAuth consent did not return a refresh token")
    expires ←
        or_raise (lifetime (get "expires_in" payload))
          (value_error "OAuth response has invalid expiry")
    raise_if (not (is_nothing granted) && not (subset m.scopes granted))
        (value_error "OAuth response did not grant all requested scopes")
    ok (stored_record access refresh (now +ℤ expires) (p.sorted (or_requested granted)))

  -- `_save_payload`
  unfoldable pub save_payload :
      SecretVault → Fields → Bool → Option String → ℤ → Fresh → Outcome SecretVault
  save_payload v payload require_refresh refresh_token now fresh = do
    record_ ← checked_payload payload require_refresh refresh_token now
    ok (put p.cipher v m.record_name (p.dumps record_) fresh)

  abbrev pub invalid : Exception
  invalid = value_error "stored Google OAuth credentials are invalid"

  abbrev pub as_float : Json → Option ℤ
  as_float (Json.num n) = some n
  as_float (Json.bool b) = some (if b then pos 1 else pos 0)
  as_float (Json.str s) = p.float_text s
  as_float _ = none

  abbrev pub text_at : String → Fields → Outcome String
  text_at k fs = do v ← or_raise (get k fs) invalid; ok (plain_text v)

  unfoldable pub tokens_of : Option Json → Outcome OAuthTokens
  tokens_of (some (Json.obj fs)) = do
    access ← text_at "access_token" fs
    at ← or_raise (get "expires_at" fs) invalid
    expires_at ← or_raise (as_float at) invalid
    refresh ← text_at "refresh_token" fs
    scope ← or_raise (get "scope" fs) invalid
    scopes ← or_raise (iterated scope) invalid
    ok (record {
      access_token = access;
      expires_at = expires_at;
      refresh_token = refresh;
      scope = map plain_text scopes;
    })
  tokens_of _ = err invalid

  abbrev pub unavailable : Outcome String → Outcome String
  unavailable (err (key_error k)) = err (value_error "Google OAuth credentials are unavailable")
  unavailable o = o

  -- `_load`
  unfoldable pub load : SecretVault → Outcome OAuthTokens
  load v = do
    value ← unavailable (reveal p.cipher v m.record_name)
    tokens ← tokens_of (p.loads value)
    raise_if
        (tokens.access_token == ""
          || tokens.refresh_token == ""
          || not (subset m.scopes tokens.scope))
        (value_error "stored Google OAuth credentials do not cover configured scopes")
    ok tokens

  -- The saved vault, or the vault as it was with the error.
  abbrev pub saved :
      {A : Type 0}
      → SecretVault
      → N
      → Outcome SecretVault
      → (SecretVault → Outcome A)
      → Outcome A × (SecretVault × N)
  saved v n (err e) k = (err e, (v, n))
  saved v n (ok v') k = (k v', (v', n))

  abbrev pub exchange_form : String → Option String → Form
  exchange_form code verifier =
      ("code", code)
      ∷ ("client_id", m.client_id)
      ∷ ("client_secret", m.client_secret)
      ∷ ("redirect_uri", m.redirect_uri)
      ∷ ("grant_type", "authorization_code")
      ∷ elim verifier [ none ↦ [] | some s ↦ if s == "" then [] else ("code_verifier", s) ∷ [] ]

  -- What becomes of the provider's answer.
  abbrev pub answered :
      {A : Type 0}
      → SecretVault
      → Outcome Fields × N
      → Bool
      → Option String
      → ℤ
      → Fresh
      → (SecretVault → Outcome A)
      → Outcome A × (SecretVault × N)
  answered v (err e, n) require_refresh refresh now fresh k = (err e, (v, n))
  answered v (ok payload, n) require_refresh refresh now fresh k =
      saved v n (save_payload v payload require_refresh refresh now fresh) k

  unfoldable pub exchange_code :
      SecretVault → String → Option String → ℤ → Fresh → N → Outcome (Unit {0}) × (SecretVault × N)
  exchange_code v code verifier now fresh n =
      answered v (p.transport Endpoint.token (exchange_form code verifier) n) true none now fresh
        (λ v'. ok tt)

  abbrev pub refresh_form : String → Form
  refresh_form refresh =
      ("client_id", m.client_id)
      ∷ ("client_secret", m.client_secret)
      ∷ ("refresh_token", refresh)
      ∷ ("grant_type", "refresh_token")
      ∷ []

  abbrev pub access_of : Outcome OAuthTokens → Outcome String
  access_of (err e) = err e
  access_of (ok t) = ok t.access_token

  -- `access_token`, under its lock; `now` is read for the test and `later` when the answer is saved.
  abbrev pub access_with :
      SecretVault → Outcome OAuthTokens → ℤ → ℤ → Fresh → N → Outcome String × (SecretVault × N)
  access_with v (err e) now later fresh n = (err e, (v, n))
  access_with v (ok t) now later fresh n =
      if ltb_ℤ (now +ℤ pos 60) t.expires_at
      then (ok t.access_token, (v, n))
      else answered v (p.transport Endpoint.token (refresh_form t.refresh_token) n) false
          (some t.refresh_token) later fresh (λ v'. access_of (load v'))

  unfoldable pub access_token : SecretVault → ℤ → ℤ → Fresh → N → Outcome String × (SecretVault × N)
  access_token v now later fresh n = access_with v (load v) now later fresh n

  abbrev pub deleted : SecretVault → Outcome Fields × N → Outcome (Unit {0}) × (SecretVault × N)
  deleted v (err e, n) = (err e, (v, n))
  deleted v (ok payload, n) = (ok tt, (delete p.cipher v m.record_name, n))

  abbrev pub revoke_with :
      SecretVault → Outcome OAuthTokens → N → Outcome (Unit {0}) × (SecretVault × N)
  revoke_with v (err e) n = (err e, (v, n))
  revoke_with v (ok t) n =
      deleted v (p.transport Endpoint.revocation (("token", t.refresh_token) ∷ []) n)

  unfoldable pub revoke_and_delete : SecretVault → N → Outcome (Unit {0}) × (SecretVault × N)
  revoke_and_delete v n = revoke_with v (load v) n

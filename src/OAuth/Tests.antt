-- ===== src/OAuth/Tests.antt =====
-- A provider that answers with one token (google_oauth.py).
use openmuse.Common.{
  ℕ, ◌+◌, ◌≡◌, refl, none, some, [], ◌∷◌, ◌==◌, text_eq, eqb, if◌then◌else◌, lookup, insert, erase,
  hex, from_hex, hex_digit, digit_value, pos, ◌+ℤ◌, ok, err, os_error, arith, inr,
}
use openmuse.Common.Json.{Json, nil, item, Fields, field, end, get}
use openmuse.Vault.{Cipher, SecretVault, Fresh, put, seal, open_sealed, reveal, delete}
use openmuse.Vault.Access.{IsReversible}
use openmuse.OAuth.{
  Platform, GoogleOAuthManager, stored_record, granted_scopes, checked_payload, save_payload,
  tokens_of, load, exchange_code, access_token, revoke_and_delete,
}
use openmuse.OAuth.Stored.{IsReadable, IsGood}
use openmuse.OAuth.Tokens.{
  access_token-exchange_code, access_token-Gave, Gave, revoke_and_delete-ordered, Revokes,
}

abbrev plain : Cipher
plain = record {
  encrypt = λ k n p a. p;
  decrypt = λ k n p a. some p;
  utf8 = λ s. if s == "{}" then 1 ∷ [] else 2 ∷ [];
  decode = λ t. if text_eq t (1 ∷ []) then some "{}" else some "google-oauth";
}

abbrev google : GoogleOAuthManager
google = record {
  client_id = "id";
  client_secret = "secret";
  redirect_uri = "http://localhost";
  scopes = "calendar" ∷ [];
  record_name = "google-oauth";
}

abbrev answer : Fields
answer = field "access_token" (Json.str "a1") (
    field "refresh_token" (Json.str "r1")
      (field "expires_in" (Json.num (pos 3600)) (field "scope" (Json.str "calendar") end)))

abbrev kept : Fields
kept = field "access_token" (Json.str "a1") (
    field "refresh_token" (Json.str "r1") (
      field "expires_at" (Json.num (pos 4600))
        (field "scope" (Json.arr (item (Json.str "calendar") nil)) end)))

-- Counts the calls; the second one fails.
abbrev platform : Fields → Platform ℕ
platform payload = record {
  cipher = plain;
  dumps = λ v. "{}";
  loads = λ t. some (Json.obj kept);
  text_of = λ v. "";
  words = λ t. if t == "calendar" then "calendar" ∷ [] else [];
  sorted = λ l. l;
  float_text = λ t. none;
  transport = λ e f n. if eqb n 1 then (err (os_error "down"), n + 1) else (ok payload, n + 1);
}

abbrev fresh : Fresh
fresh = record { dek = 3 ∷ []; wrap_nonce = 4 ∷ []; data_nonce = 5 ∷ [] }

abbrev empty : SecretVault
empty = record { master_key = 6 ∷ []; records = [] }

program : Unit {0}
unfolding exchange_code access_token revoke_and_delete load tokens_of save_payload checked_payload
    stored_record granted_scopes put seal open_sealed reveal delete lookup insert erase hex from_hex
    hex_digit digit_value text_eq get ◌+ℤ◌
program = tt

abbrev exchanged : SecretVault
exchanged = (exchange_code (platform answer) google empty "code" none (pos 1000) fresh 0).1.0

good : IsGood (platform answer) google answer none "a1" "r1" (pos 3600)
unfolding get granted_scopes
good = record { has_access = refl; has_refresh = refl; lives = refl; grants = inr refl }

readable : IsReadable (platform answer) google kept
readable = record { read = kept; reads = refl; same = λ k. refl }

reversible : IsReversible plain (6 ∷ []) "google-oauth" "{}" fresh
reversible = record {
  wrap = refl;
  sealed = refl;
  text = unfold text_eq in refl;
  wrap_bytes = (omega arith, tt);
  data_bytes = (omega arith, tt);
  key_bytes = (omega arith, tt);
  cipher_bytes = (omega arith, tt);
}

access_token-exchange_code_example :
    (v' : SecretVault) × (exchange_code
        (platform answer)
        google
        empty
        "code"
        none
        (pos 1000)
        fresh
        0
      ≡ (ok tt, (v', 1)))
    × (access_token (platform answer) google v' (pos 4539) (pos 4540) fresh 1 ≡ (ok "a1", (v', 1)))
access_token-exchange_code_example =
    access_token-exchange_code (platform answer) google empty "code" "a1" "r1" none answer
      (pos 3600) (pos 1000) (pos 4539) (pos 4540) fresh fresh 0 1 1 refl good (λ xs ys. refl)
      (unfold program in readable) (unfold program in reversible) (unfold program in refl)

access_token-Gave_example :
    let r = access_token (platform answer) google exchanged (pos 4540) (pos 4540) fresh 1 in
    Gave (platform answer) google exchanged (pos 4540) (pos 4540) fresh 1 r.0 r.1.0 r.1.1
access_token-Gave_example =
    access_token-Gave (platform answer) google exchanged (pos 4540) (pos 4540) fresh 1

-- The provider cannot be reached, so the record stays.
stays : (revoke_and_delete (platform answer) google exchanged 1).1.0 ≡ exchanged
unfolding program
stays = refl

revoke_and_delete-ordered_example : Revokes (platform answer) google exchanged 0
revoke_and_delete-ordered_example = revoke_and_delete-ordered (platform answer) google exchanged 0

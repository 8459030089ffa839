-- ===== src/Vault/Tests.antt =====
-- One secret, and a tool that raises once it has it (secrets.py, broker.py).
use openmuse.Common.{
  ℕ, ◌+◌, ◌⊎◌, false, ◌||◌, codes, text_eq, ◌≡◌, refl, some, [], ◌∷◌, ◌==◌, if◌then◌else◌, lookup,
  insert, hex, from_hex, hex_digit, digit_value, ok, err, os_error, arith,
}
use openmuse.Common.Json.{Json, field, end, get, has_key}
use openmuse.Samples.{memory_log}
use openmuse.Vault.{
  Cipher, SecretVault, Fresh, seal, put, open_sealed, reveal, use_secret, SecretTool, run,
}
use openmuse.Vault.Access.{Did, reveal-put, run-Did}

-- A cipher that leaves its text as it is, and two words.
abbrev toy : Cipher
toy = record {
  encrypt = λ k n p a. p;
  decrypt = λ k n p a. some p;
  utf8 = λ s. if s == "pw" then 1 ∷ [] else 2 ∷ [];
  decode = λ t. if text_eq t (1 ∷ []) then some "pw" else some "mail";
}

abbrev fresh : Fresh
fresh = record { dek = 3 ∷ []; wrap_nonce = 4 ∷ []; data_nonce = 5 ∷ [] }

abbrev empty : SecretVault
empty = record { master_key = 6 ∷ []; records = [] }

abbrev mailer : SecretTool ℕ
mailer = record {
  name = "send";
  secret_name = "mail";
  properties = end;
  run_with_secret = λ s kwargs w. if s == "pw" then (err (os_error "down"), w + 1) else (ok "", w);
}

program : Unit {0}
unfolding seal put open_sealed reveal use_secret run lookup insert hex from_hex hex_digit
    digit_value text_eq get
program = tt

abbrev kept : SecretVault
kept = record empty {
  records =
      (
        "mail",
        record {
          wrap_nonce = codes "04";
          wrapped_key = codes "03";
          data_nonce = codes "05";
          ciphertext = codes "01";
        },
      )
      ∷ [];
}

puts : put toy empty "mail" "pw" fresh ≡ kept
unfolding program
puts = refl

forbidden : (run toy memory_log mailer kept (field "mail" Json.null end) "t" (0, [])).1 ≡ (0, [])
unfolding program
forbidden = refl

reveal-put_example : reveal toy (put toy empty "mail" "pw" fresh) "mail" ≡ ok "pw"
reveal-put_example = reveal-put toy empty "mail" "mail" "pw" fresh (record {
  wrap = refl;
  sealed = refl;
  text = unfold program in refl;
  wrap_bytes = (omega arith, tt);
  data_bytes = (omega arith, tt);
  key_bytes = (omega arith, tt);
  cipher_bytes = (omega arith, tt);
})

-- A tool that has received its secret and then raises leaves no record of the access.
unrecorded : run toy memory_log mailer kept end "t" (0, []) ≡ (err (os_error "down"), (1, []))
unfolding program
unrecorded = refl

run-Did_example :
    Did toy memory_log mailer kept end "t" 0
      (run toy memory_log mailer kept end "t" (0, [])).1.0
      []
      (run toy memory_log mailer kept end "t" (0, [])).1.1
    × ((has_key "secret" end || has_key mailer.secret_name end) ≡ false
        ⊎ ((run toy memory_log mailer kept end "t" (0, [])).1 ≡ (0, [])))
run-Did_example = run-Did toy memory_log mailer kept end "t" 0 []

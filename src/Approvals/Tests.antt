-- ===== src/Approvals/Tests.antt =====
-- The approvals at a toy runtime (approvals.py).
use openmuse.Common.{
  ◌%◌, ◌<◌, ◌≡◌, refl, true, false, some, List, [], ◌∷◌, ◌++◌, map, Text, codes, text_eq, mem_text,
  hex, hex_digit, from_hex, digit_value, split_once, ok, arith, pos, ◌+ℤ◌, All,
}
use openmuse.Common.Json.{Json, get, json_eq, size}
use openmuse.Samples.{toy, send, signed}
use openmuse.Runtime.{RoundTrips, AsciiDigests}
use openmuse.Approvals.{
  ApprovalAuthority, payload, compare_digest, to_int, issue, decode, is_expired, check_payload,
  checked, consume, settle, verify_token, verify,
}
use openmuse.Approvals.SingleUse.{Attempt, Distinct, run, run-Distinct}
use openmuse.Approvals.Replay.{verify-respelled}

abbrev host : ApprovalAuthority
host = record { secret = 7 ∷ 8 ∷ []; used = [] }

toy-AsciiDigests : AsciiDigests toy
toy-AsciiDigests k m = below (k ++ m)
  where
    below : (t : Text) → All (λ c. c < 128) (map (λ b. b % 128) t)
    below [] = tt
    below (b ∷ t) = (omega arith, below t)

toy-RoundTrips : RoundTrips toy (payload send (Json.num (pos 1000 +ℤ pos 300)))
unfolding text_eq json_eq get size ◌+ℤ◌
toy-RoundTrips = record { read = signed; reads = refl; same = refl; bytes = omega arith }

-- The token "7b7d.<sig>", and what the authority says to it at two times and twice.
abbrev token : Text
token = codes "7b7d." ++ 7 ∷ 8 ∷ b'{' ∷ b'}' ∷ []

program : Unit {0}
unfolding issue verify verify_token checked check_payload is_expired to_int decode settle consume
    compare_digest run get json_eq size ◌+ℤ◌ hex hex_digit from_hex digit_value split_once text_eq
    mem_text
program = tt

issues : issue toy host send (pos 300) 1000 ≡ token
unfolding program
issues = refl

accepts : (verify toy host send (some token) 1299).0 ≡ ok true
unfolding program
accepts = refl

refuses_late : (verify toy host send (some token) 1300).0 ≡ ok false
unfolding program
refuses_late = refl

abbrev attempts : List Attempt
attempts =
    (send, some token, 1000) ∷ (send, some token, 1001) ∷ (send, some (32 ∷ token), 1001) ∷ []

-- The repeated token is refused, and its spelling with a blank is not.
run-attempts : (run toy host attempts).0 ≡ token ∷ (32 ∷ token) ∷ []
unfolding program
run-attempts = refl

run-Distinct_example :
    Distinct (run toy host attempts).0
    × ((t : Text) → mem_text t [] ≡ true → mem_text t (run toy host attempts).0 ≡ false)
run-Distinct_example = run-Distinct toy attempts host

verify-respelled_example :
    let a' = (verify toy host send (some token) 1299).1 in
    (verify toy a' send (some (32 ∷ token)) 1299).0 ≡ ok true
unfolding mem_text
verify-respelled_example = verify-respelled toy host send token 1299 accepts refl

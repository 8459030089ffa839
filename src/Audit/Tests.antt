-- ===== src/Audit/Tests.antt =====
-- A log of one kind of event, with a codec that knows its two records (audit.py).
use openmuse.Common.{
  String, Text, text_eq, ◌≡◌, ◌⊎◌, inl, inr, refl, Bool, true, false, Option, none, some, List, [],
  ◌∷◌, ◌++◌, ◌==◌, if◌then◌else◌, Outcome, ok, ◌>>=◌, arith, All,
}
use openmuse.Common.Json.{Json, Fields, field, end, get, put, drop_key}
use openmuse.Approvals.{compare_digest}
use openmuse.Audit.{
  Codec, zero_hash, AuditFile, last, last_hash, has_reserved, redact_fields, linked_record,
  record_hash, append_once, append, verify_chain, check_lines, check_line, check_link,
  check_algorithm, check_keyed, check_unkeyed, finish,
}
use openmuse.Audit.Tail.{is_newline_at, line_start, last_line}
use openmuse.Audit.Bytes.{bytes, hash_of, last_hash-last_line}
use openmuse.Audit.Line.{IsKeyed, IsLegacy}
use openmuse.Audit.Append.{Entry, IsReady, append_all, verify_chain-append_all}
use openmuse.Audit.Keyed.{Claims, verify_chain-IsKeyed, verify_chain-tampered}

abbrev event : Fields
event = field "event" (Json.str "ping") (field "token" (Json.str "abc") end)

abbrev with_link : String → Json → Json
with_link previous token = Json.obj (
    field "event" (Json.str "ping") (
      field "token" token (
        field "previous_hash" (Json.str previous) (
          field "chain" (Json.str "hmac-sha256")
            (field "key_id" (Json.str "k") (field "hash" (Json.str "h") end))))))

abbrev follows_zero : Option Json → Bool
follows_zero (some (Json.str s)) = s == zero_hash
follows_zero _ = false

abbrev is_first : Json → Bool
is_first (Json.obj fs) = follows_zero (get "previous_hash" fs)
is_first _ = false

-- Line 1 is the first record, line 2 a later one, line 3 a first record with another token.
abbrev toy : Codec
toy = record {
  sha256 = λ t. "h";
  hmac = λ k t. "h";
  canonical = λ v. [];
  dumps = λ v. if is_first v then 1 ∷ [] else 2 ∷ [];
  loads = λ t.
      if text_eq t (1 ∷ [])
      then some (with_link zero_hash (Json.str "[REDACTED]"))
      else if text_eq t (2 ∷ [])
      then some (with_link "h" (Json.str "[REDACTED]"))
      else some (with_link zero_hash (Json.str "xyz"));
  lower = λ s. s;
}

abbrev resolve : String → Outcome (Option Text)
resolve k = ok (if k == "k" then some (7 ∷ []) else none)

abbrev IsToyDigest : String → Type 0
IsToyDigest s = (s ≡ zero_hash) ⊎ (s ≡ "h")

abbrev entry : Entry
entry = (event, ("k", 7 ∷ []))

abbrev empty : AuditFile
empty = record { lines = []; rest = [] }

abbrev two : AuditFile
two = record { lines = (1 ∷ []) ∷ (2 ∷ []) ∷ []; rest = [] }

abbrev forged : AuditFile
forged = record { lines = (3 ∷ []) ∷ (2 ∷ []) ∷ []; rest = [] }

program : Unit {0}
unfolding last last_hash has_reserved redact_fields linked_record record_hash append_once append
    append_all verify_chain check_lines check_line check_link check_algorithm check_keyed
    check_unkeyed finish get put drop_key text_eq compare_digest
program = tt

appends : append_all toy resolve true IsToyDigest empty (entry ∷ entry ∷ []) ≡ ok two
unfolding program
appends = refl

verifies : verify_chain toy resolve true (ok two) ≡ ok (true, 2, none)
unfolding program
verifies = refl

swapped :
    verify_chain toy resolve true (ok (record { lines = (2 ∷ []) ∷ (1 ∷ []) ∷ []; rest = [] }))
    ≡ ok (false, 1, some "previous hash does not match")
unfolding program
swapped = refl

entry-IsReady : IsReady toy resolve true IsToyDigest entry
unfolding program
entry-IsReady = record {
  unreserved = refl;
  known = refl;
  reads = λ previous d. elim d [ inl e ↦ rw e refl | inr e ↦ rw e refl ];
  digests = λ m. inr refl;
  ascii = λ m. (omega arith, tt);
}

verify_chain-append_all_example :
    (f' : AuditFile) × (append_all toy resolve true IsToyDigest empty (entry ∷ entry ∷ []) ≡ ok f')
    × (verify_chain toy resolve true (ok f') ≡ ok (true, 2, none))
verify_chain-append_all_example =
    verify_chain-append_all toy resolve true IsToyDigest (entry ∷ entry ∷ []) empty 0 refl
      (unfold program in refl) starts (entry-IsReady, (entry-IsReady, tt))
  where
    starts : (h : String) → last_hash toy empty ≡ ok h → IsToyDigest h
    starts h e = inl (unfold program in ground (arith, e))

verify_chain-IsKeyed_example :
    (legacy : List Text) × (keyed : List Text) × ((1 ∷ []) ∷ (2 ∷ []) ∷ [] ≡ legacy ++ keyed)
    × All (IsLegacy toy resolve true) legacy
    × All (IsKeyed toy resolve true) keyed
verify_chain-IsKeyed_example = verify_chain-IsKeyed toy resolve true two 2 none verifies

verify_chain-tampered_example :
    (h : String) × Claims toy resolve true (1 ∷ []) h × Claims toy resolve true (3 ∷ []) h
verify_chain-tampered_example =
    verify_chain-tampered toy resolve true two forged [] [] (1 ∷ []) (3 ∷ []) (2 ∷ []) 2 2 none none
      refl refl verifies (unfold program in refl)

finds_last : last_line (97 ∷ 10 ∷ 98 ∷ 99 ∷ 10 ∷ []) ≡ ok (some (98 ∷ 99 ∷ []))
unfolding last_line line_start is_newline_at
finds_last = refl

last_hash-last_line_example : last_hash toy two ≡ (last_line (bytes two) >>= hash_of toy)
last_hash-last_line_example = last_hash-last_line toy two (refl, refl)

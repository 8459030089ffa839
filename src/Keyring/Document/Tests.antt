-- ===== src/Keyring/Document/Tests.antt =====
-- A key file that is asked and rotated (audit.py), with keys in a unary notation.
use openmuse.Common.{
  ℕ, zero, suc, String, Text, code, eqb, ◌∙◌, text_eq, ◌≡◌, ap, refl, false, none, some, List, [],
  ◌∷◌, if◌then◌else◌, inl, inr, lookup, insert, ok, err, key_error,
}
use openmuse.Common.Json.{Json, field, end, get}
use openmuse.Keyring.{KeyCodec, decode_key, decode_all, with_current, read_document}
use openmuse.Keyring.Document.{
  KeyFile, Writer, fields_of, encode_all, read_text, load, save, current, rotate, resolve,
}
use openmuse.Keyring.Document.Kept.{Call, call_all, resolve-call_all}

-- A `1` for each unit of a number, which a `0` ends.
abbrev tally : ℕ → String → String
tally zero s = String.◌∷◌ "0" s
tally (suc n) s = String.◌∷◌ "1" (tally n s)

abbrev unary : Text → String
unary [] = String.[]
unary (n ∷ k) = tally n (unary k)

abbrev bump : Text → Text
bump [] = 1 ∷ []
bump (n ∷ k) = suc n ∷ k

abbrev from_unary : String → Text
from_unary String.[] = []
from_unary (String.◌∷◌ c s) =
    let rest = from_unary s in if eqb (code c) 49 then bump rest else 0 ∷ rest

from_unary-tally : (n : ℕ) (s : String) → from_unary (tally n s) ≡ n ∷ from_unary s
from_unary-tally zero s = refl
from_unary-tally (suc n) s = ap bump (from_unary-tally n s)

from_unary-unary : (k : Text) → from_unary (unary k) ≡ k
from_unary-unary [] = refl
from_unary-unary (n ∷ k) = from_unary-tally n (unary k) ∙ ap (λ l. n ∷ l) (from_unary-unary k)

abbrev key_of : ℕ → Text
key_of n =
    n ∷ 0 ∷ 0 ∷ 0 ∷ 0 ∷ 0 ∷ 0 ∷ 0 ∷ 0 ∷ 0 ∷ 0 ∷ 0 ∷ 0 ∷ 0 ∷ 0 ∷ 0 ∷ 0 ∷ 0 ∷ 0 ∷ 0 ∷ 0 ∷ 0 ∷ 0 ∷ 0
    ∷ 0 ∷ 0 ∷ 0 ∷ 0 ∷ 0 ∷ 0 ∷ 0 ∷ 0 ∷ []

abbrev codec : KeyCodec
codec = record {
  encode = unary;
  b64decode = λ s. some (from_unary s);
  fingerprint = λ k. if text_eq k (key_of 1) then "a" else "b";
  loads = λ s. none;
}

abbrev writer : Writer Json
writer = record { dumps = λ v. v; loads = λ v. some v; sorted = λ d. d }

abbrev absent : KeyFile Json
absent = record { text = none; is_loose = false }

program : Unit {0}
unfolding text_eq lookup insert get decode_key decode_all with_current read_document fields_of
    encode_all read_text load save current rotate resolve
program = tt

abbrev first_file : KeyFile Json
unfolding program
first_file = (current codec writer absent absent (key_of 1)).1

has_first : resolve codec writer first_file "a" ≡ ok (some (key_of 1))
unfolding program
has_first = refl

abbrev calls : List Call
calls = Call.rotates (key_of 2) ∷ Call.asks (key_of 3) ∷ Call.rotates (key_of 1) ∷ []

-- The call that finds a file made meanwhile returns that file's key.
meets_another : (current codec writer absent first_file (key_of 2)).0 ≡ ok ("a", key_of 1)
unfolding program
meets_another = refl

-- A file without a current key has none to return, and is not mended.
has_no_current :
    (current codec writer
      (record {
        text = some (Json.obj (field "current" Json.null (field "keys" (Json.obj end) end)));
        is_loose = false;
      })
      (record {
        text = some (Json.obj (field "current" Json.null (field "keys" (Json.obj end) end)));
        is_loose = false;
      })
      (key_of 1)).0
    ≡ err (key_error "None")
unfolding program
has_no_current = refl

resolve-call_all_example :
    resolve codec writer (call_all codec writer first_file calls) "a" ≡ ok (some (key_of 1))
resolve-call_all_example =
    resolve-call_all codec writer (λ k. ap some (from_unary-unary k)) (λ v. refl) (λ id d. refl)
      (λ p d. refl) calls first_file "a" (key_of 1)
      (unfold program in ((refl, inl refl), (tt, ((refl, inr refl), tt)))) has_first

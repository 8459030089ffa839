-- ===== src/Keyring/Tests.antt =====
-- Two interleaved rotations (audit.py).
use openmuse.Common.{
  text_eq, Text, codes, ◌≡◌, refl, none, some, [], ◌∷◌, lookup, insert, ok, inl, inr, if◌then◌else◌,
  ◌==◌,
}
use openmuse.Keyring.{
  Store, KeyCodec, decode_key, valid_key_id, legacy_doc, read_split_key, resolve, write_key,
  write_pointer, converge, rotate, current,
}
use openmuse.Keyring.Rotation.{Resolves, Step, step, steps, resolve-steps}

abbrev ones : Text
ones = codes "11111111111111111111111111111111"

abbrev twos : Text
twos = codes "22222222222222222222222222222222"

-- Two keys of 32 bytes, whose ids are hexadecimal.
abbrev toy : KeyCodec
toy = record {
  encode = λ k. if text_eq k ones then "one" else "two";
  b64decode = λ s. if s == "one" then some ones else if s == "two" then some twos else none;
  fingerprint = λ k. if text_eq k ones then "aaaaaaaaaaaaaaaa" else "bbbbbbbbbbbbbbbb";
  loads = λ s. none;
}

abbrev before : Store
before = record {
  pointer = some "aaaaaaaaaaaaaaaa";
  slots = ("aaaaaaaaaaaaaaaa", "one") ∷ [];
  legacy = none;
}

abbrev empty : Store
empty = record { pointer = none; slots = []; legacy = none }

program : Unit {0}
unfolding decode_key valid_key_id legacy_doc read_split_key resolve write_key write_pointer converge
    rotate current step steps lookup insert text_eq
program = tt

-- A malformed id is a plain miss.
misses : resolve toy before "../x" ≡ ok none
unfolding program
misses = refl

resolve-steps_example :
    Resolves toy
      (steps toy before (
        Step.writes twos
        ∷ Step.writes ones
        ∷ Step.points "bbbbbbbbbbbbbbbb"
        ∷ Step.points "aaaaaaaaaaaaaaaa"
        ∷ []))
      "aaaaaaaaaaaaaaaa"
      ones
resolve-steps_example =
    resolve-steps toy
      (Step.writes twos
        ∷ Step.writes ones
        ∷ Step.points "bbbbbbbbbbbbbbbb"
        ∷ Step.points "aaaaaaaaaaaaaaaa"
        ∷ [])
      before "aaaaaaaaaaaaaaaa" ones
      (unfold program in (((refl, refl), inl refl), (((refl, refl), inr refl), (tt, (tt, tt)))))
      (unfold program in refl)

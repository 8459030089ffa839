-- ===== src/Common/Texts.antt =====
-- Texts that the program takes apart: lists of code points, which are bytes where the program
-- encodes. `bytes.hex`, `bytes.fromhex` and `str.split(".", 1)` as the standard library does them.
use openmuse.Common.Base.{
  ℕ, ◌+◌, ◌-◌, ◌*◌, ◌/◌, ◌%◌, ◌<◌, String, code, ◌≡◌, refl, Bool, true, false, ◌&&◌, ◌||◌, Option,
  none, some, List, [], ◌∷◌, ◌++◌, arith, ltb, leb, eqb, if◌then◌else◌,
}
use openmuse.Common.Lists.{All, any}

abbrev pub Text : Type 0
Text = List ℕ

abbrev pub codes : String → Text
codes String.[] = []
codes (String.◌∷◌ c s) = code c ∷ codes s

unfoldable pub text_eq : Text → Text → Bool
text_eq [] [] = true
text_eq [] (y ∷ ys) = false
text_eq (x ∷ xs) [] = false
text_eq (x ∷ xs) (y ∷ ys) = eqb x y && text_eq xs ys

pub text_eq→eq : (xs ys : Text) → text_eq xs ys ≡ true → xs ≡ ys
unfolding text_eq
text_eq→eq [] [] h = refl
text_eq→eq [] (y ∷ ys) h = cc
text_eq→eq (x ∷ xs) [] h = cc
text_eq→eq (x ∷ xs) (y ∷ ys) h = ground (arith, text_eq→eq xs ys)

pub text_eq_refl : (xs : Text) → text_eq xs xs ≡ true
unfolding text_eq
text_eq_refl [] = refl
text_eq_refl (x ∷ xs) = ground (arith, text_eq_refl xs)

-- `t in ts`
unfoldable pub mem_text : Text → List Text → Bool
mem_text t [] = false
mem_text t (x ∷ xs) = text_eq x t || mem_text t xs

abbrev pub onto_first : ℕ → List Text → List Text
onto_first c [] = (c ∷ []) ∷ []
onto_first c (p ∷ ps) = (c ∷ p) ∷ ps

-- `s.split(sep)`
unfoldable pub split : ℕ → Text → List Text
split sep [] = [] ∷ []
split sep (c ∷ s) = let rest = split sep s in if eqb c sep then [] ∷ rest else onto_first c rest

-- `chr(c) in s`
abbrev pub holds : ℕ → Text → Bool
holds c s = any (λ d. eqb d c) s

pub split-append :
    (sep : ℕ) (p s : Text) → holds sep p ≡ false → split sep (p ++ (sep ∷ s)) ≡ p ∷ split sep s
unfolding split
split-append sep [] s h = ground arith
split-append sep (c ∷ p) s h = ground (arith, split-append sep p s)

pub split_whole : (sep : ℕ) (p : Text) → holds sep p ≡ false → split sep p ≡ p ∷ []
unfolding split
split_whole sep [] h = refl
split_whole sep (c ∷ p) h = ground (arith, split_whole sep p)

-- Where `str.splitlines` breaks a line that has no newline.
abbrev pub is_break : ℕ → Bool
is_break c =
    eqb c 11
    || eqb c 12
    || eqb c 13
    || (leb 28 c && leb c 30)
    || eqb c 133
    || eqb c 8232
    || eqb c 8233

abbrev pub has_break : Text → Bool
has_break [] = false
has_break (c ∷ t) = is_break c || has_break t

-- The lines that `str.splitlines` makes of a text that ends in a newline, which is left out here. A text
-- that ends in a carriage return would lose it.
unfoldable pub splitlines : Text → List Text
splitlines [] = [] ∷ []
splitlines (c ∷ t) = let rest = splitlines t in if is_break c then [] ∷ rest else onto_first c rest

pub splitlines-whole : (t : Text) → has_break t ≡ false → splitlines t ≡ t ∷ []
unfolding splitlines
splitlines-whole [] h = refl
splitlines-whole (c ∷ t) h = ground (arith, splitlines-whole t)

unfoldable pub hex_digit : ℕ → ℕ
hex_digit n = if ltb n 10 then 48 + n else 87 + n

-- `raw.hex()`
unfoldable pub hex : Text → Text
hex [] = []
hex (b ∷ bs) = hex_digit (b / 16) ∷ hex_digit (b % 16) ∷ hex bs

abbrev pub is_space : ℕ → Bool
is_space c = eqb c 32 || (leb 9 c && leb c 13)

unfoldable pub digit_value : ℕ → Option ℕ
digit_value c =
    if leb 48 c && leb c 57
    then some (c - 48)
    else if leb 97 c && leb c 102
    then some (c - 87)
    else if leb 65 c && leb c 70
    then some (c - 55)
    else none

abbrev pub cons_byte : Option ℕ → Option ℕ → Option Text → Option Text
cons_byte (some h) (some l) (some bs) = some ((h * 16 + l) ∷ bs)
cons_byte _ _ _ = none

-- `bytes.fromhex`: white space is skipped before each byte, and both cases of a digit are read.
unfoldable pub from_hex : Text → Option Text
from_hex [] = some []
from_hex (c ∷ []) = if is_space c then some [] else none
from_hex (c ∷ d ∷ r) = elim (is_space c) [
  | true ↦ from_hex (d ∷ r)
  | false ↦ cons_byte (digit_value c) (digit_value d) (from_hex r)
]

abbrev pub prepend : ℕ → Option (Text × Text) → Option (Text × Text)
prepend c none = none
prepend c (some (a, b)) = some (c ∷ a, b)

-- `s.split(sep, 1)` where it has two parts
unfoldable pub split_once : ℕ → Text → Option (Text × Text)
split_once sep [] = none
split_once sep (c ∷ s) = if eqb c sep then some ([], s) else prepend c (split_once sep s)

abbrev pub IsBytes : Text → Type 0
IsBytes = All (λ b. b < 256)

digit_value-hex_digit : (n : ℕ) → n < 16 → digit_value (hex_digit n) ≡ some n
unfolding digit_value hex_digit
digit_value-hex_digit n h = ground arith

hex_digit-plain :
    (n : ℕ) → n < 16 → (is_space (hex_digit n) ≡ false) × (eqb (hex_digit n) 46 ≡ false)
unfolding hex_digit
hex_digit-plain n h = ground arith

-- Decoding undoes encoding.
pub from_hex-hex : (bs : Text) → IsBytes bs → from_hex (hex bs) ≡ some bs
unfolding from_hex hex
from_hex-hex [] h = refl
from_hex-hex (b ∷ bs) h = ground (
  arith,
  digit_value-hex_digit (b / 16),
  digit_value-hex_digit (b % 16),
  hex_digit-plain (b / 16),
  from_hex-hex bs h.1,
)

-- A blank in front changes nothing for the decoder.
pub from_hex-blank : (s : Text) → from_hex (32 ∷ s) ≡ from_hex s
unfolding from_hex
from_hex-blank [] = refl
from_hex-blank (c ∷ s) = refl

-- Encoded bytes hold no full stop, so the first one is the separator.
pub split_once-hex :
    (bs sig : Text) → IsBytes bs → split_once 46 (hex bs ++ 46 ∷ sig) ≡ some (hex bs, sig)
unfolding split_once hex
split_once-hex [] sig h = refl
split_once-hex (b ∷ bs) sig h =
    ground (arith, hex_digit-plain (b / 16), hex_digit-plain (b % 16), split_once-hex bs sig h.1)

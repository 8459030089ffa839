-- ===== src/Tools/Paths.antt =====
-- src/openmuse/tools.py: what `_components` lets through.
use openmuse.Common.{
  holds, split-append, split_whole, onto_first, split, ℕ, Text, text_eq, ◌≡◌, refl, Bool, true,
  false, not, ◌&&◌, ◌||◌, List, [], ◌∷◌, ◌++◌, arith, eqb, any, all, is_nothing, ok, ok-injective,
}
use openmuse.Tools.{is_special, is_absolute, components}

-- `sep.join(parts)`
unfoldable pub join : ℕ → List Text → Text
join sep [] = []
join sep (p ∷ []) = p
join sep (p ∷ q ∷ ps) = let rest = join sep (q ∷ ps) in p ++ (sep ∷ rest)

-- A name of one entry of a directory.
abbrev pub is_name : Text → Bool
is_name p = not (is_special p) && not (holds 47 p) && not (holds 0 p)

join-empty : (sep : ℕ) (l : List Text) → is_nothing l ≡ false → join sep ([] ∷ l) ≡ sep ∷ join sep l
unfolding join
join-empty sep [] h = absurd (cc)
join-empty sep (p ∷ l) h = refl

join-onto_first :
    (sep c : ℕ) (l : List Text) → is_nothing l ≡ false → join sep (onto_first c l) ≡ c ∷ join sep l
unfolding join
join-onto_first sep c [] h = absurd (cc)
join-onto_first sep c (p ∷ []) h = refl
join-onto_first sep c (p ∷ q ∷ l) h = refl

onto_first-some : (c : ℕ) (l : List Text) → is_nothing (onto_first c l) ≡ false
onto_first-some c [] = refl
onto_first-some c (p ∷ l) = refl

split-some : (sep : ℕ) (s : Text) → is_nothing (split sep s) ≡ false
unfolding split
split-some sep [] = refl
split-some sep (c ∷ s) = ground (arith, onto_first-some c (split sep s))

join-split : (sep : ℕ) (s : Text) → join sep (split sep s) ≡ s
unfolding join split
join-split sep [] = refl
join-split sep (c ∷ s) = ground (
  arith,
  join-split sep s,
  join-empty sep (split sep s),
  join-onto_first sep c (split sep s),
  split-some sep s,
)

split-join :
    (l : List Text) → all is_name l ≡ true → is_nothing l ≡ false → split 47 (join 47 l) ≡ l
unfolding join
split-join [] names some = absurd (cc)
split-join (p ∷ []) names some = ground (arith, split_whole 47 p)
split-join (p ∷ q ∷ l) names some =
    ground (arith, split-append 47 p (join 47 (q ∷ l)), split-join (q ∷ l))

-- Each part holds no separator, and nothing that the text did not hold.
abbrev is_clean : Text → Bool
is_clean p = not (holds 47 p) && not (holds 0 p)

all-onto_first :
    (c : ℕ) (l : List Text)
    → all is_clean l ≡ true
    → eqb c 47 ≡ false
    → eqb c 0 ≡ false
    → all is_clean (onto_first c l) ≡ true
all-onto_first c [] clean slash nul = ground arith
all-onto_first c (p ∷ l) clean slash nul = ground arith

split-clean : (s : Text) → holds 0 s ≡ false → all is_clean (split 47 s) ≡ true
unfolding split
split-clean [] h = refl
split-clean (c ∷ s) h = ground (arith, split-clean s, all-onto_first c (split 47 s))

all-is_name :
    (l : List Text) → any is_special l ≡ false → all is_clean l ≡ true → all is_name l ≡ true
all-is_name [] plain clean = refl
all-is_name (p ∷ l) plain clean = ground (arith, all-is_name l)

any-is_name : (l : List Text) → all is_name l ≡ true → any is_special l ≡ false
any-is_name [] names = refl
any-is_name (p ∷ l) names = ground (arith, any-is_name l)

holds-append : (c : ℕ) (p s : Text) → holds c (p ++ s) ≡ (holds c p || holds c s)
holds-append c [] s = refl
holds-append c (d ∷ p) s = ground (arith, holds-append c p s)

holds-join : (l : List Text) → all is_name l ≡ true → holds 0 (join 47 l) ≡ false
unfolding join
holds-join [] names = refl
holds-join (p ∷ []) names = ground arith
holds-join (p ∷ q ∷ l) names =
    rw (holds-append 0 p (47 ∷ join 47 (q ∷ l))) (ground (arith, holds-join (q ∷ l)))

is_name-start :
    (p s : Text) → is_name p ≡ true → (is_absolute (p ++ s) ≡ false) × (is_nothing (p ++ s) ≡ false)
unfolding text_eq
is_name-start [] s name = absurd (ground arith)
is_name-start (c ∷ p) s name = (ground arith, refl)

join-start :
    (l : List Text)
    → all is_name l ≡ true
    → is_nothing l ≡ false
    → (is_absolute (join 47 l) ≡ false) × (is_nothing (join 47 l) ≡ false)
unfolding join text_eq
join-start [] names some = absurd (cc)
join-start ([] ∷ []) names some = absurd (ground arith)
join-start ((c ∷ p) ∷ []) names some = (ground arith, refl)
join-start (p ∷ q ∷ l) names some = is_name-start p (47 ∷ join 47 (q ∷ l)) (ground arith)

-- `parts` are the names that lead from the workspace to the entry that `raw` says.
abbrev pub IsPath : Text → List Text → Type 0
IsPath raw parts = (join 47 parts ≡ raw) × (all is_name parts ≡ true) × (is_nothing parts ≡ false)

-- The parts of a path that passes join to the path again; there is at least one, and each is a name: it
-- is not empty, not `.` and not `..`, and holds no separator and no null character.
pub components-IsPath :
    (raw : Text) (parts : List Text) → components raw ≡ ok parts → IsPath raw parts
unfolding components
components-IsPath raw parts h = ground (
  arith,
  join-split 47 raw,
  split-some 47 raw,
  all-is_name (split 47 raw),
  split-clean raw,
  ok-injective {a = split 47 raw} {b = parts},
)

-- Every path of such names passes, and its parts are the names.
pub components-join :
    (raw : Text) (parts : List Text) → IsPath raw parts → components raw ≡ ok parts
unfolding components
components-join raw parts (joined, names, some) =
    ground (arith, split-join parts, join-start parts, holds-join parts, any-is_name parts)

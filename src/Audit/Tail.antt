-- ===== src/Audit/Tail.antt =====
-- src/openmuse/audit.py: how `_last_record` finds the last line of a file, as bytes, from its end.
use openmuse.Common.{
  ℕ, zero, suc, ◌-◌, Text, split, onto_first, ◌≡◌, ◌⊎◌, inl, inr, refl, sym, ap, subst, ◌∙◌, Bool,
  true, false, Option, none, some, List, [], ◌∷◌, arith, eqb, if◌then◌else◌, length, take, drop,
  Bool-cases, Outcome, Exception, ok, err, value_error,
}

-- `handle.seek(p)` and `handle.read(1) == b"\n"`
unfoldable pub is_newline_at : Text → ℕ → Bool
is_newline_at [] p = false
is_newline_at (c ∷ s) zero = eqb c 10
is_newline_at (c ∷ s) (suc p) = is_newline_at s p

-- The loop: the argument and the result are `position + 1`.
unfoldable pub line_start : Text → ℕ → ℕ
line_start file zero = zero
line_start file (suc position) =
    let before = line_start file position in
    if is_newline_at file position then suc position else before

-- The text that `_last_record` parses.
unfoldable pub last_line : Text → Outcome (Option Text)
last_line [] = ok none
last_line (c ∷ s) =
    let start = line_start (c ∷ s) (length s) in
    if is_newline_at (c ∷ s) (length s)
    then ok (some (take (drop (c ∷ s) start) (length s - start)))
    else err (value_error "audit log ends with incomplete record")

-- Of the parts between separators, the one before the last, which is empty; `before` is what came first.
unfoldable pub before_last : Option Text → List Text → Outcome (Option Text)
before_last before [] = ok before
before_last before ([] ∷ []) = ok before
before_last before ((c ∷ l) ∷ []) = err (value_error "audit log ends with incomplete record")
before_last before (l ∷ m ∷ ls) = before_last (some l) (m ∷ ls)

line_start-cons :
    (c : ℕ) (s : Text) (p : ℕ)
    → line_start (c ∷ s) (suc p)
      ≡ (if eqb (line_start s p) 0 then (if eqb c 10 then 1 else 0) else suc (line_start s p))
unfolding line_start is_newline_at
line_start-cons c s zero = ground arith
line_start-cons c s (suc p) = ground (arith, line_start-cons c s p)

-- The line that stands at `start` in a file of `n + 1` bytes.
abbrev line_at : Text → ℕ → ℕ → Text
line_at file start n = take (drop file start) (n - start)

-- How the parts of a file go with where its last line starts.
abbrev Shape : Text → ℕ → ℕ → Type 0
Shape file start n =
    ((start ≡ 0) × (split 10 file ≡ line_at file 0 n ∷ [] ∷ []))
    ⊎ ((k : ℕ) × (start ≡ suc k)
        × (p : Text) × (q : Text) × (rest : List Text) × (split 10 file ≡ p ∷ q ∷ rest)
        × ((x : Text) → before_last (some x) (q ∷ rest) ≡ ok (some (line_at file (suc k) n))))

split-cons :
    (c : ℕ) (s : Text)
    → split 10 (c ∷ s) ≡ (if eqb c 10 then [] ∷ split 10 s else onto_first c (split 10 s))
unfolding split
split-cons c s = refl

later_line :
    (c d : ℕ) (s : Text) (k n : ℕ)
    → ok (some (line_at (d ∷ s) (suc k) n)) ≡ ok (some (line_at (c ∷ d ∷ s) (suc (suc k)) (suc n)))
later_line c d s k n = ap (λ m. ok (some (take (drop s k) m))) (omega arith)

drop-zero : (s : Text) → drop s 0 ≡ s
drop-zero [] = refl
drop-zero (c ∷ s) = refl

first_line : (c : ℕ) (s : Text) (n : ℕ) → line_at (c ∷ s) 0 (suc n) ≡ c ∷ line_at s 0 n
first_line c s n =
    ap (take (c ∷ s)) {x = suc n - 0} {y = suc n} (omega arith)
    ∙ ap (λ l. c ∷ l)
        (ap (λ l. take l n) (sym (drop-zero s))
          ∙ ap (take (drop s 0)) {x = n} {y = n - 0} (omega arith))

Shape-cons :
    (c d : ℕ) (s : Text) (start n : ℕ)
    → Shape (d ∷ s) start n
    → Shape (c ∷ d ∷ s) (if eqb start 0 then (if eqb c 10 then 1 else 0) else suc start) (suc n)
unfolding before_last
Shape-cons c d s start n (inl (zero_, one)) = elim (Bool-cases (eqb c 10)) [
  | inl newline ↦ inr (
    0,
    ground arith,
    [],
    line_at (d ∷ s) 0 n,
    [] ∷ [],
    split-cons c (d ∷ s) ∙ rw (newline, one) refl,
    λ x. ap (λ m. ok (some (take (d ∷ s) m))) (omega arith),
  )
  | inr other ↦ inl (
    ground arith,
    split-cons c (d ∷ s) ∙ rw (other, one) (ap (λ l. l ∷ [] ∷ []) (sym (first_line c (d ∷ s) n))),
  )
]
Shape-cons c d s start n (inr (k, later, p, q, rest, parts, found)) = elim (Bool-cases (eqb c 10)) [
  | inl newline ↦ inr (
    suc k,
    ground arith,
    [],
    p,
    q ∷ rest,
    split-cons c (d ∷ s) ∙ rw (newline, parts) refl,
    λ x. found p ∙ later_line c d s k n,
  )
  | inr other ↦ inr (
    suc k,
    ground arith,
    c ∷ p,
    q,
    rest,
    split-cons c (d ∷ s) ∙ rw (other, parts) refl,
    λ x. found x ∙ later_line c d s k n,
  )
]

-- A file that ends with a newline.
line_start-Shape :
    (c : ℕ) (s : Text)
    → is_newline_at (c ∷ s) (length s) ≡ true
    → Shape (c ∷ s) (line_start (c ∷ s) (length s)) (length s)
unfolding is_newline_at split
line_start-Shape c [] h = inl (unfold line_start in refl, ground arith)
line_start-Shape c (d ∷ s) h =
    subst (λ start. Shape (c ∷ d ∷ s) start (suc (length s)))
      (sym (line_start-cons c (d ∷ s) (length s)))
      (Shape-cons c d s (line_start (d ∷ s) (length s)) (length s) (line_start-Shape d s h))

pub split-parts : (s : Text) → (p : Text) × (ps : List Text) × (split 10 s ≡ p ∷ ps)
unfolding split
split-parts [] = ([], [], refl)
split-parts (c ∷ s) =
    let (p, ps, same) = split-parts s in
    elim (Bool-cases (eqb c 10)) [
      | inl newline ↦ ([], p ∷ ps, rw (newline, same) refl)
      | inr other ↦ (c ∷ p, ps, rw (other, same) refl)
    ]

before_last-err :
    (x y : Option Text) (l : List Text) {e : Exception}
    → before_last x l ≡ err e
    → before_last y l ≡ err e
unfolding before_last
before_last-err x y [] h = absurd (cc)
before_last-err x y ([] ∷ []) h = absurd (cc)
before_last-err x y ((c ∷ l) ∷ []) h = h
before_last-err x y (l ∷ m ∷ ls) h = h

abbrev pub incomplete : Exception
incomplete = value_error "audit log ends with incomplete record"

onto_first-torn :
    (c : ℕ) (p : Text) (ps : List Text) (x : Option Text)
    → before_last x (p ∷ ps) ≡ err incomplete
    → before_last x ((c ∷ p) ∷ ps) ≡ err incomplete
unfolding before_last
onto_first-torn c p [] x h = refl
onto_first-torn c p (q ∷ qs) x h = before_last-err (some p) (some (c ∷ p)) (q ∷ qs) h

-- A file that does not.
torn :
    (c : ℕ) (s : Text) (x : Option Text)
    → is_newline_at (c ∷ s) (length s) ≡ false
    → before_last x (split 10 (c ∷ s)) ≡ err incomplete
unfolding is_newline_at before_last
torn c [] x h = unfold split in ground arith
torn c (d ∷ s) x h =
    let (p, ps, parts) = split-parts (d ∷ s) in
    let rest : (y : Option Text) → before_last y (p ∷ ps) ≡ err incomplete =
      λ y. ap (before_last y) (sym parts) ∙ torn d s y h in
    ap (before_last x) (split-cons c (d ∷ s)) ∙ elim (Bool-cases (eqb c 10)) [
      | inl newline ↦ rw (newline, parts) (rest (some []))
      | inr other ↦ rw (other, parts) (onto_first-torn c p ps x (rest x))
    ]

Shape-found :
    (file : Text) (start n : ℕ)
    → Shape file start n
    → ok (some (line_at file start n)) ≡ before_last none (split 10 file)
unfolding before_last
Shape-found file start n (inl (zero_, parts)) = rw (zero_, parts) refl
Shape-found file start n (inr (k, later, p, q, rest, parts, found)) =
    rw (later, parts) (sym (found p))

-- The search from the end of a file of bytes finds what a reading from its start finds: nothing in an
-- empty file, the line before the last newline when the file ends with one, and an error otherwise.
pub last_line-split : (file : Text) → last_line file ≡ before_last none (split 10 file)
unfolding last_line before_last
last_line-split [] = unfold split in refl
last_line-split (c ∷ s) = elim (Bool-cases (is_newline_at (c ∷ s) (length s))) [
  | inl ended ↦ rw ended (Shape-found (c ∷ s) _ _ (line_start-Shape c s ended))
  | inr open_ ↦ rw open_ (sym (torn c s none open_))
]

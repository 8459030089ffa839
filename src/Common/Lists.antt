-- ===== src/Common/Lists.antt =====
-- Lists measured by native numbers, membership of texts, and predicates on every element.
use openmuse.Common.Base.{
  ℕ, zero, suc, ◌+◌, ◌≤◌, String, ◌≡◌, refl, ap, Bool, true, false, ◌&&◌, ◌||◌, List, [], ◌∷◌, ◌++◌,
  arith, ◌==◌, eq_iff,
}

module _ {ℓ} {A : Type ℓ} where
  abbrev pub length : List A → ℕ
  length [] = 0
  length (x ∷ xs) = suc (length xs)

  abbrev pub All {κ} : (A → Type κ) → List A → Type κ
  All P [] = Unit
  All P (x ∷ xs) = P x × All P xs

  -- `xs[:n]` and `xs[n:]`
  abbrev pub take : List A → ℕ → List A
  take [] n = []
  take (x ∷ xs) zero = []
  take (x ∷ xs) (suc n) = x ∷ take xs n

  abbrev pub drop : List A → ℕ → List A
  drop [] n = []
  drop (x ∷ xs) zero = x ∷ xs
  drop (x ∷ xs) (suc n) = drop xs n

  pub length-take : (xs : List A) (n : ℕ) → length (take xs n) ≤ n
  length-take [] n = omega arith
  length-take (x ∷ xs) zero = omega arith
  length-take (x ∷ xs) (suc n) = omega (arith, length-take xs n)

  pub take-all : (xs : List A) (n : ℕ) → length xs ≤ n → take xs n ≡ xs
  take-all [] n h = refl
  take-all (x ∷ xs) zero h = absurd (omega arith)
  take-all (x ∷ xs) (suc n) h = ground (arith, take-all xs n)

  pub take-take : (xs : List A) (n m : ℕ) → m ≤ n → take (take xs n) m ≡ take xs m
  take-take [] n m h = refl
  take-take (x ∷ xs) zero zero h = refl
  take-take (x ∷ xs) zero (suc m) h = absurd (omega arith)
  take-take (x ∷ xs) (suc n) zero h = refl
  take-take (x ∷ xs) (suc n) (suc m) h = ap (λ l. x ∷ l) (take-take xs n m (omega arith))

  -- `all(p(x) for x in xs)`
  abbrev pub all : (A → Bool) → List A → Bool
  all p [] = true
  all p (x ∷ xs) = p x && all p xs

  -- `any(p(x) for x in xs)`
  abbrev pub any : (A → Bool) → List A → Bool
  any p [] = false
  any p (x ∷ xs) = p x || any p xs

  pub length-append : (xs ys : List A) → length (xs ++ ys) ≡ length xs + length ys
  length-append [] ys = omega arith
  length-append (x ∷ xs) ys = omega (arith, length-append xs ys)

  pub All-append {κ} : (P : A → Type κ) (xs ys : List A) → All P xs → All P ys → All P (xs ++ ys)
  All-append P [] ys front back = back
  All-append P (x ∷ xs) ys front back = (front.0, All-append P xs ys front.1 back)

  pub append-empty : (xs ys : List A) → xs ++ ys ≡ [] → (xs ≡ []) × (ys ≡ [])
  append-empty [] ys h = (refl, h)
  append-empty (x ∷ xs) ys h = absurd (cc)

  pub All-map {κ κ'} :
      (P : A → Type κ) (Q : A → Type κ') (xs : List A) → ((x : A) → P x → Q x) → All P xs → All Q xs
  All-map P Q [] f a = tt
  All-map P Q (x ∷ xs) f a = (f x a.0, All-map P Q xs f a.1)

-- `k in ks`
abbrev pub mem : String → List String → Bool
mem k [] = false
mem k (j ∷ ks) = j == k || mem k ks

-- `xs <= ys` on sets of texts
abbrev pub subset : List String → List String → Bool
subset xs ys = all (λ x. mem x ys) xs

pub mem-subset :
    (k : String) (xs ys : List String) → subset xs ys ≡ true → mem k xs ≡ true → mem k ys ≡ true
mem-subset k [] ys s m = ground arith
mem-subset k (x ∷ xs) ys s m = ground (arith, eq_iff x k, mem-subset k xs ys)

pub mem-append : (k : String) (xs ys : List String) → mem k (xs ++ ys) ≡ (mem k xs || mem k ys)
mem-append k [] ys = refl
mem-append k (x ∷ xs) ys = ground (arith, mem-append k xs ys)

subset-cons : (y : String) (xs ys : List String) → subset xs ys ≡ true → subset xs (y ∷ ys) ≡ true
subset-cons y [] ys h = refl
subset-cons y (x ∷ xs) ys h = ground (arith, subset-cons y xs ys)

pub subset_refl : (xs : List String) → subset xs xs ≡ true
subset_refl [] = refl
subset_refl (x ∷ xs) = ground (arith, eq_iff x x, subset-cons x xs xs, subset_refl xs)

pub subset_trans :
    (xs ys zs : List String) → subset xs ys ≡ true → subset ys zs ≡ true → subset xs zs ≡ true
subset_trans [] ys zs h k = refl
subset_trans (x ∷ xs) ys zs h k = ground (arith, mem-subset x ys zs, subset_trans xs ys zs)

-- ===== src/Memory/Invariant.antt =====
-- The items of the memory file against the history of the chain (memory.py).
use openmuse.Common.{
  String, ◌≡◌, ◌≢◌, refl, subst, ap, ◌∙◌, Bool, true, false, Option, none, some, List, [], ◌∷◌,
  ◌++◌, ◌==◌, eq_iff, eq_refl, arith, is_some, all, All, All-append, Bool-cases, inl, inr,
}
use openmuse.Memory.{Memory, find, update_first}

-- No two items share an id.
abbrev pub DistinctIds : List Memory → Type 0
DistinctIds [] = Unit
DistinctIds (m ∷ ms) = (find m.id ms ≡ none) × DistinctIds ms

abbrev pub has_item : List Memory → String → Bool
has_item items id = is_some (find id items)

pub find-id : (id : String) (ms : List Memory) (m : Memory) → find id ms ≡ some m → m.id ≡ id
unfolding find
find-id id [] m h = absurd (cc)
find-id id (x ∷ ms) m h = elim (Bool-cases (x.id == id)) [
  | inl same ↦ ground (arith, h, same, eq_iff x.id id)
  | inr other ↦ find-id id ms m (ground (arith, h, other))
]

pub find-none : (id : String) (ms : List Memory) → find id ms ≡ none → All (λ m. m.id ≢ id) ms
unfolding find
find-none id [] h = tt
find-none id (m ∷ ms) h =
    (λ e. ground (arith, h, e, eq_refl id), find-none id ms (ground (arith, h)))

pub find-All :
    (P : Memory → Type 0) (id : String) (ms : List Memory) (m : Memory)
    → All P ms
    → find id ms ≡ some m
    → P m
unfolding find
find-All P id [] m a h = absurd (cc)
find-All P id (x ∷ ms) m a h = elim (Bool-cases (x.id == id)) [
  | inl same ↦ let is_x : x ≡ m = ground (arith, h, same) in subst P is_x a.0
  | inr other ↦ find-All P id ms m a.1 (ground (arith, h, other))
]

find-update_first :
    (k id : String) (m' : Memory) (ms : List Memory)
    → m'.id ≡ id
    → is_some (find k (update_first id m' ms)) ≡ is_some (find k ms)
unfolding find update_first
find-update_first k id m' [] e = refl
find-update_first k id m' (m ∷ ms) e = elim (Bool-cases (m.id == id)) [
  | inl same ↦ ground (arith, same, e, eq_iff m.id id)
  | inr other ↦ ground (arith, other, find-update_first k id m' ms e)
]

pub has_item-update_first :
    (id : String) (m' : Memory) (ms : List Memory) (ids : List String)
    → m'.id ≡ id
    → all (has_item (update_first id m' ms)) ids ≡ all (has_item ms) ids
has_item-update_first id m' ms [] e = refl
has_item-update_first id m' ms (k ∷ ids) e =
    ground (arith, find-update_first k id m' ms e, has_item-update_first id m' ms ids e)

is_some-false : {A : Type 0} (o : Option A) → is_some o ≡ false → o ≡ none
is_some-false none h = refl
is_some-false (some a) h = cc

pub DistinctIds-update_first :
    (id : String) (m' : Memory) (ms : List Memory)
    → m'.id ≡ id
    → DistinctIds ms
    → DistinctIds (update_first id m' ms)
unfolding update_first
DistinctIds-update_first id m' [] e d = tt
DistinctIds-update_first id m' (m ∷ ms) e d = elim (Bool-cases (m.id == id)) [
  | inl same ↦ ground (arith, same, e, d.0, d.1, eq_iff m.id id)
  | inr other ↦
      let kept : find m.id (update_first id m' ms) ≡ none =
        is_some-false (find m.id (update_first id m' ms))
          (find-update_first m.id id m' ms e ∙ ap is_some d.0) in
      rw other (kept, DistinctIds-update_first id m' ms e d.1)
]

pub DistinctIds-snoc :
    (ms : List Memory) (m : Memory)
    → DistinctIds ms
    → find m.id ms ≡ none
    → DistinctIds (ms ++ m ∷ [])
unfolding find
DistinctIds-snoc [] m d h = (refl, tt)
DistinctIds-snoc (x ∷ ms) m d h = (
  find-snoc x.id ms m d.0 (ground (arith, h, eq_iff x.id m.id, eq_iff m.id x.id)),
  DistinctIds-snoc ms m d.1 (ground (arith, h)),
)
  where
    find-snoc :
        (k : String) (l : List Memory) (y : Memory)
        → find k l ≡ none
        → (y.id == k) ≡ false
        → find k (l ++ y ∷ []) ≡ none
    find-snoc k [] y a b = ground (arith, b)
    find-snoc k (z ∷ l) y a b = ground (arith, a, find-snoc k l y (ground (arith, a)) b)

still_has :
    (k : String) (ms : List Memory) (m : Memory)
    → has_item ms k ≡ true
    → has_item (ms ++ m ∷ []) k ≡ true
unfolding find
still_has k [] m h = absurd (cc)
still_has k (x ∷ ms) m h = ground (arith, h, still_has k ms m)

pub has_item-snoc :
    (ms : List Memory) (m : Memory) (ids : List String)
    → all (has_item ms) ids ≡ true
    → all (has_item (ms ++ m ∷ [])) ids ≡ true
has_item-snoc ms m [] h = refl
has_item-snoc ms m (k ∷ ids) h =
    ground (arith, h, still_has k ms m, has_item-snoc ms m ids (ground (arith, h)))

-- A change of the items and of the history that keeps the other items in order.
pub All-update_first :
    (P Q : Memory → Type 0) (id : String) (m' : Memory) (ms : List Memory)
    → DistinctIds ms
    → All P ms
    → ((m : Memory) → m.id ≢ id → P m → Q m)
    → Q m'
    → All Q (update_first id m' ms)
unfolding update_first
All-update_first P Q id m' [] d a keep q = tt
All-update_first P Q id m' (m ∷ ms) d a keep q = elim (Bool-cases (m.id == id)) [
  | inl same ↦
      let others = find-none id ms (rw ((eq_iff m.id id).0 same) at d.0) in
      rw same (q, All-keep ms others a.1)
  | inr other ↦ rw other (
    keep m (λ e. ground (arith, other, e, eq_refl id)) a.0,
    All-update_first P Q id m' ms d.1 a.1 keep q,
  )
]
  where
    All-keep : (l : List Memory) → All (λ x. x.id ≢ id) l → All P l → All Q l
    All-keep [] o p = tt
    All-keep (x ∷ l) o p = (keep x o.0 p.0, All-keep l o.1 p.1)

pub All-others :
    (P Q : Memory → Type 0) (id : String) (ms : List Memory)
    → find id ms ≡ none
    → All P ms
    → ((m : Memory) → m.id ≢ id → P m → Q m)
    → All Q ms
All-others P Q id ms h a keep = go ms (find-none id ms h) a
  where
    go : (l : List Memory) → All (λ x. x.id ≢ id) l → All P l → All Q l
    go [] o p = tt
    go (x ∷ l) o p = (keep x o.0 p.0, go l o.1 p.1)

pub All-snoc :
    (P : Memory → Type 0) (ms : List Memory) (m : Memory) → All P ms → P m → All P (ms ++ m ∷ [])
All-snoc P ms m a p = All-append P ms (m ∷ []) a (p, tt)

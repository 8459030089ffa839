-- ===== src/Common/Json/Laws.antt =====
-- Laws of the operations on objects, and of Python's `==` on JSON values.
use openmuse.Common.Base.{
  String, ◌≡◌, refl, true, false, Option, none, some, arith, ◌==◌, eq_iff, Option-cases, Bool-cases,
  inl, inr, if◌then◌else◌, Option-cases,
}
use openmuse.Common.Int.{ℤ, pos, eqb_ℤ, eqb_ℤ-refl, eqb_ℤ→eq}
use openmuse.Common.Json.{
  Json, Items, Fields, field, end, get, put, number, number_eq, json_eq, items_eq, fields_eq,
  IsDict, AllDict, FieldsDict,
}

pub get-put :
    (k j : String) (v : Json) (fs : Fields)
    → get j (put k v fs) ≡ (if k == j then some v else get j fs)
unfolding get put
get-put k j v end = refl
get-put k j v (field i w fs) = ground (arith, eq_iff k j, eq_iff i k, eq_iff i j, get-put k j v fs)

-- All of the fields are those that `gs` holds.
abbrev Within : Fields → Fields → Type 0
Within gs end = Unit
Within gs (field k v fs) = (get k gs ≡ some v) × Within gs fs

Within-cons :
    (k : String) (w : Json) (gs fs : Fields)
    → get k fs ≡ none
    → Within gs fs
    → Within (field k w gs) fs
unfolding get
Within-cons k w gs end h r = tt
Within-cons k w gs (field j v fs) h r =
    ground (arith, eq_iff k j, eq_iff j k, Within-cons k w gs fs)

Within-refl : (fs : Fields) → FieldsDict fs → Within fs fs
unfolding get
Within-refl end d = tt
Within-refl (field k v fs) (FieldsDict.field _ _ _ h _ d) =
    ground (arith, eq_iff k k, Within-cons k v fs fs h (Within-refl fs d))

mutual
  unfolding json_eq

  json_eq_rfl : (a : Json) → IsDict a → json_eq a a ≡ true
  json_eq_rfl Json.null d = refl
  json_eq_rfl (Json.bool true) d = refl
  json_eq_rfl (Json.bool false) d = refl
  json_eq_rfl (Json.num n) d = eqb_ℤ-refl n
  json_eq_rfl (Json.str s) d = ground (arith, eq_iff s s)
  json_eq_rfl (Json.arr xs) (IsDict.arr _ d) = items_eq_rfl xs d
  json_eq_rfl (Json.obj fs) (IsDict.obj _ d) =
      ground (arith, fields_eq-Within fs fs d (Within-refl fs d))

  items_eq_rfl : (xs : Items) → AllDict xs → items_eq xs xs ≡ true
  items_eq_rfl Items.nil d = refl
  items_eq_rfl (Items.item x xs) (AllDict.item _ _ d ds) =
      ground (arith, json_eq_rfl x d, items_eq_rfl xs ds)

  fields_eq-Within : (gs fs : Fields) → FieldsDict fs → Within gs fs → fields_eq gs fs ≡ true
  fields_eq-Within gs end d w = refl
  fields_eq-Within gs (field k v fs) (FieldsDict.field _ _ _ _ d ds) w =
      ground (arith, json_eq_rfl v d, fields_eq-Within gs fs ds w.1)

-- Every dict equals itself.
pub json_eq_refl : (a : Json) → IsDict a → json_eq a a ≡ true
json_eq_refl a d = json_eq_rfl a d

pub fields_eq-get :
    (k : String) (gs fs : Fields) (v : Json)
    → fields_eq gs fs ≡ true
    → get k fs ≡ some v
    → (x : Json) × (get k gs ≡ some x) × (json_eq x v ≡ true)
unfolding get json_eq
fields_eq-get k gs end v h e = absurd (cc)
fields_eq-get k gs (field j w fs) v h e = elim (Bool-cases (j == k)) [
  | inr other ↦ fields_eq-get k gs fs v (ground (arith, h)) (ground (arith, e, other))
  | inl same ↦ elim (Option-cases (get j gs)) [
    | inl missing ↦ absurd (ground (arith, h, missing))
    | inr (x, found) ↦
        (x, ground (arith, found, same, eq_iff j k), ground (arith, h, e, found, same))
  ]
]

number_eq_trans :
    (o : Option ℤ) (m n : ℤ) → number_eq o m ≡ true → eqb_ℤ m n ≡ true → number_eq o n ≡ true
number_eq_trans none m n h k = cc
number_eq_trans (some l) m n h k = ground (arith, h, eqb_ℤ→eq m n k)

some_eq : {x y : ℤ} → some x ≡ some y → x ≡ y
some_eq p = cc

-- What equals a number is a number or a Boolean, and equality with it is equality of numbers.
json_eq-number :
    (a b : Json) (m n : ℤ)
    → number b ≡ some m
    → json_eq a b ≡ true
    → eqb_ℤ m n ≡ true
    → number_eq (number a) n ≡ true
unfolding json_eq
json_eq-number a (Json.num l) m n e h k = number_eq_trans (number a) m n (rw (some_eq e) at h) k
json_eq-number a (Json.bool true) m n e h k = number_eq_trans (number a) m n (rw (some_eq e) at h) k
json_eq-number a (Json.bool false) m n e h k =
    number_eq_trans (number a) m n (rw (some_eq e) at h) k
json_eq-number a _ m n e h k = cc

json_eq-num_trans :
    (a b : Json) (n : ℤ)
    → json_eq a b ≡ true
    → number_eq (number b) n ≡ true
    → number_eq (number a) n ≡ true
json_eq-num_trans a b n h k = elim (Option-cases (number b)) [
  | inl e ↦ absurd (ground (arith, e, k))
  | inr (m, e) ↦ json_eq-number a b m n e h (ground (arith, e, k))
]

mutual
  unfolding json_eq

  json_eq_tr : (a b c : Json) → json_eq a b ≡ true → json_eq b c ≡ true → json_eq a c ≡ true
  json_eq_tr a Json.null Json.null h k = h
  json_eq_tr a _ Json.null h k = absurd (cc)
  json_eq_tr a b (Json.bool x) h k = json_eq-num_trans a b (if x then pos 1 else pos 0) h k
  json_eq_tr a b (Json.num n) h k = json_eq-num_trans a b n h k
  json_eq_tr (Json.str s) (Json.str t) (Json.str u) h k =
      ground (arith, eq_iff s t, eq_iff t u, eq_iff s u)
  json_eq_tr _ (Json.str t) (Json.str u) h k = absurd (cc)
  json_eq_tr a _ (Json.str u) h k = absurd (cc)
  json_eq_tr (Json.arr xs) (Json.arr ys) (Json.arr zs) h k = items_eq_tr xs ys zs h k
  json_eq_tr _ (Json.arr t) (Json.arr u) h k = absurd (cc)
  json_eq_tr a _ (Json.arr u) h k = absurd (cc)
  json_eq_tr (Json.obj hs) (Json.obj gs) (Json.obj fs) h k =
      ground (arith, h, k, fields_eq_tr hs gs fs (ground (arith, h)) (ground (arith, k)))
  json_eq_tr _ (Json.obj t) (Json.obj u) h k = absurd (cc)
  json_eq_tr a _ (Json.obj u) h k = absurd (cc)

  items_eq_tr :
      (xs ys zs : Items) → items_eq xs ys ≡ true → items_eq ys zs ≡ true → items_eq xs zs ≡ true
  items_eq_tr Items.nil Items.nil Items.nil h k = refl
  items_eq_tr (Items.item x xs) Items.nil Items.nil h k = absurd (cc)
  items_eq_tr xs (Items.item y ys) Items.nil h k = absurd (cc)
  items_eq_tr xs Items.nil (Items.item z zs) h k = absurd (cc)
  items_eq_tr Items.nil (Items.item y ys) (Items.item z zs) h k = absurd (cc)
  items_eq_tr (Items.item x xs) (Items.item y ys) (Items.item z zs) h k = ground (
    arith,
    json_eq_tr x y z (ground (arith, h)) (ground (arith, k)),
    items_eq_tr xs ys zs (ground (arith, h)) (ground (arith, k)),
  )

  fields_eq_tr :
      (hs gs fs : Fields) → fields_eq hs gs ≡ true → fields_eq gs fs ≡ true → fields_eq hs fs ≡ true
  fields_eq_tr hs gs Fields.end h k = refl
  fields_eq_tr hs gs (field j w fs) h k = elim (Option-cases (get j gs)) [
    | inl missing ↦ absurd (ground (arith, k, missing))
    | inr (y, found) ↦
        let (x, there, same) = fields_eq-get j hs gs y h found in
        ground (
          arith,
          there,
          json_eq_tr x y w same (ground (arith, k, found)),
          fields_eq_tr hs gs fs h (ground (arith, k)),
        )
  ]

-- Python's `==` on these values is transitive.
pub json_eq_trans : (a b c : Json) → json_eq a b ≡ true → json_eq b c ≡ true → json_eq a c ≡ true
json_eq_trans a b c h k = json_eq_tr a b c h k

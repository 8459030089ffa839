-- ===== src/Common/Json.antt =====
-- JSON values, which are also the arguments of actions and the records of the audit log. An object
-- is a Python dict; numbers are integers. `json_eq` is Python's `==`: the order of an object's keys
-- does not count, and `True == 1`.
pub mod Laws
use openmuse.Common.Base.{
  ℕ, suc, String, ◌≡◌, Bool, true, false, not, ◌&&◌, Option, none, some, ◌==◌, eqb, if◌then◌else◌,
}
use openmuse.Common.Int.{ℤ, pos, eqb_ℤ}
use openmuse.Common.Dicts.{is_some}

mutual
  pub data Json : Type 0 where
    null : Json
    bool : Bool → Json
    num : ℤ → Json
    str : String → Json
    arr : Items → Json
    obj : Fields → Json

  pub data Items : Type 0 where
    nil : Items
    item : Json → Items → Items

  pub data Fields : Type 0 where
    end : Fields
    field : String → Json → Fields → Fields

-- `d.get(k)`
unfoldable pub get : String → Fields → Option Json
get k end = none
get k (field j v fs) = if j == k then some v else get k fs

-- `d[k] = v`
unfoldable pub put : String → Json → Fields → Fields
put k v end = field k v end
put k v (field j w fs) = if j == k then field j v fs else field j w (put k v fs)

-- `d.pop(k)`, when the key is there
unfoldable pub drop_key : String → Fields → Fields
drop_key k end = end
drop_key k (field j w fs) = if j == k then fs else field j w (drop_key k fs)

abbrev pub has_key : String → Fields → Bool
has_key k fs = is_some (get k fs)

unfoldable pub size : Fields → ℕ
size end = 0
size (field k v fs) = suc (size fs)

-- What `==` sees of a number or a Boolean.
abbrev pub number : Json → Option ℤ
number (num n) = some n
number (bool true) = some (pos 1)
number (bool false) = some (pos 0)
number _ = none

abbrev pub number_eq : Option ℤ → ℤ → Bool
number_eq none n = false
number_eq (some m) n = eqb_ℤ m n

unfoldable mutual
  pub json_eq : Json → Json → Bool
  json_eq a null = elim a [ null ↦ true | _ ↦ false ]
  json_eq a (bool b) = number_eq (number a) (if b then pos 1 else pos 0)
  json_eq a (num n) = number_eq (number a) n
  json_eq a (str s) = elim a [ str t ↦ t == s | _ ↦ false ]
  json_eq a (arr ys) = elim a [ arr xs ↦ items_eq xs ys | _ ↦ false ]
  json_eq a (obj fs) = elim a [ obj gs ↦ eqb (size gs) (size fs) && fields_eq gs fs | _ ↦ false ]

  pub items_eq : Items → Items → Bool
  items_eq xs nil = elim xs [ nil ↦ true | item _ _ ↦ false ]
  items_eq xs (item y ys) = elim xs [ nil ↦ false | item x xs' ↦ json_eq x y && items_eq xs' ys ]

  -- Every field of the second is in the first, with an equal value.
  pub fields_eq : Fields → Fields → Bool
  fields_eq gs end = true
  fields_eq gs (field k v fs) =
      elim (get k gs) [ none ↦ false | some x ↦ json_eq x v ] && fields_eq gs fs

-- The keys of every object are distinct, as those of a dict are.
mutual
  pub data IsDict : Json → Type 0 where
    null : IsDict Json.null
    bool : (b : Bool) → IsDict (Json.bool b)
    num : (n : ℤ) → IsDict (Json.num n)
    str : (s : String) → IsDict (Json.str s)
    arr : (xs : Items) → AllDict xs → IsDict (Json.arr xs)
    obj : (fs : Fields) → FieldsDict fs → IsDict (Json.obj fs)

  pub data AllDict : Items → Type 0 where
    nil : AllDict Items.nil
    item : (x : Json) (xs : Items) → IsDict x → AllDict xs → AllDict (Items.item x xs)

  pub data FieldsDict : Fields → Type 0 where
    end : FieldsDict Fields.end
    field :
        (k : String) (v : Json) (fs : Fields)
        → get k fs ≡ none
        → IsDict v
        → FieldsDict fs
        → FieldsDict (Fields.field k v fs)

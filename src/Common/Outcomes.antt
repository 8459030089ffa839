-- ===== src/Common/Outcomes.antt =====
-- Python's exceptions as values. A message is kept up to the part that is formatted into it.
use openmuse.Common.Base.{
  String, ◌≡◌, ◌⊎◌, inl, inr, refl, Bool, true, false, Option, none, some, if◌then◌else◌,
}

pub data Exception : Type 0 where
  value_error type_error key_error os_error runtime_error timeout_error : String → Exception
  grant_error scope_denied broker_error audit_key_error master_key_error : String → Exception
  -- any other class, by its name
  other : String → String → Exception

pub data Outcome {ℓ} (A : Type ℓ) : Type ℓ where
  ok : A → Outcome A
  err : Exception → Outcome A

infixl 5 ◌>>=◌
abbrev pub ◌>>=◌ {ℓ κ} : {A : Type ℓ} {B : Type κ} → Outcome A → (A → Outcome B) → Outcome B
err raised >>= next = err raised
ok value >>= next = next value

-- For a statement that only may raise.
infixl 5 ◌>>◌
abbrev pub ◌>>◌ {ℓ} : {B : Type ℓ} → Outcome (Unit {0}) → Outcome B → Outcome B
err raised >> rest = err raised
ok _ >> rest = rest

-- `if c: raise e`
abbrev pub raise_if : Bool → Exception → Outcome (Unit {0})
raise_if c e = if c then err e else ok tt

abbrev pub or_raise {ℓ} : {A : Type ℓ} → Option A → Exception → Outcome A
or_raise none e = err e
or_raise (some a) e = ok a

pub Outcome-cases {ℓ} :
    {A : Type ℓ} (o : Outcome A) → ((a : A) × (o ≡ ok a)) ⊎ ((e : Exception) × (o ≡ err e))
Outcome-cases (ok a) = inl (a, refl)
Outcome-cases (err e) = inr (e, refl)

pub ok-injective {ℓ} : {A : Type ℓ} {a b : A} → ok a ≡ ok b → a ≡ b
ok-injective h = cc

pub >>=-eq-ok {ℓ κ} :
    {A : Type ℓ} {B : Type κ} (o : Outcome A) (next : A → Outcome B) {result : B}
    → (o >>= next) ≡ ok result
    → (value : A) × (o ≡ ok value) × (next value ≡ ok result)
>>=-eq-ok (err raised) next h = absurd (cc)
>>=-eq-ok (ok value) next h = (value, refl, h)

pub err_not_ok {ℓ} : {A : Type ℓ} {a : A} {e : Exception} → err e ≡ ok a → ⊥
err_not_ok h = absurd (cc)

pub ok_not_err {ℓ} : {A : Type ℓ} {a : A} {e : Exception} → ok a ≡ err e → ⊥
ok_not_err h = absurd (cc)

pub raise_if-passed :
    (c : Bool) (e : Exception) {A : Type 0} (rest : Outcome A) {a : A}
    → (raise_if c e >> rest) ≡ ok a
    → (c ≡ false) × (rest ≡ ok a)
raise_if-passed true e rest h = absurd (cc)
raise_if-passed false e rest h = (refl, h)

pub some-injective {ℓ} : {A : Type ℓ} {a b : A} → some a ≡ some b → a ≡ b
some-injective h = cc

pub some_not_none {ℓ} : {A : Type ℓ} {a : A} → some a ≡ none → ⊥
some_not_none h = absurd (cc)

-- `str(exc)`
abbrev pub message : Exception → String
message (value_error m) = m
message (type_error m) = m
message (key_error m) = m
message (os_error m) = m
message (runtime_error m) = m
message (timeout_error m) = m
message (grant_error m) = m
message (scope_denied m) = m
message (broker_error m) = m
message (audit_key_error m) = m
message (master_key_error m) = m
message (other c m) = m

-- `type(exc).__name__`
abbrev pub class_name : Exception → String
class_name (value_error m) = "ValueError"
class_name (type_error m) = "TypeError"
class_name (key_error m) = "KeyError"
class_name (os_error m) = "OSError"
class_name (runtime_error m) = "RuntimeError"
class_name (timeout_error m) = "TimeoutError"
class_name (grant_error m) = "GrantError"
class_name (scope_denied m) = "ScopeDenied"
class_name (broker_error m) = "BrokerError"
class_name (audit_key_error m) = "AuditKeyError"
class_name (master_key_error m) = "MasterKeyError"
class_name (other c m) = c

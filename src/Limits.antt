-- ===== src/Limits.antt =====
-- src/openmuse/evidence.py, src/openmuse/ephemeral.py, src/openmuse/effects.py: a bounded number of
-- retries, values that are handed out once, and the total of a purchase. Amounts are numbers of the
-- smallest unit of one scale; times are in the clock's ticks.
pub mod Once
mod Tests
use openmuse.Common.{
  ℕ, suc, ◌+◌, String, ◌≡◌, Bool, true, false, not, ◌&&◌, ◌||◌, Option, none, some, List, [], ◌∷◌,
  ◌==◌, ltb, leb, eqb, if◌then◌else◌, Dict, lookup, insert, erase, ℤ, ◌+ℤ◌, eqb_ℤ, Outcome, ok, err,
  value_error, key_error, ◌>>=◌, ◌>>◌, raise_if, or_raise,
}

pub record RetryBudget : Type 0 where
  pub maximum : ℕ
  pub attempts : ℕ

unfoldable pub take : RetryBudget → Bool → Bool × RetryBudget
take b retryable =
    if not retryable || leb b.maximum b.attempts
    then (false, b)
    else (true, record b { attempts = b.attempts + 1 })

-- A value with its expiry and its purpose.
pub record Held : Type 0 where
  pub value : String
  pub expires : ℕ
  pub bound : String

abbrev pub EphemeralBroker : Type 0
EphemeralBroker = Dict Held

unfoldable pub issue : EphemeralBroker → String → String → ℕ → String → ℕ → String × EphemeralBroker
issue values value purpose ttl_seconds fresh_handle now = (
  fresh_handle,
  insert fresh_handle (record { value = value; expires = now + ttl_seconds; bound = purpose })
      values,
)

abbrev pub fits : Held → String → ℕ → Outcome String
fits h purpose now =
    if not (h.bound == purpose) || ltb h.expires now
    then err (value_error "ephemeral grant invalid or expired")
    else ok h.value

-- `consume`, which removes the value before it looks at it
unfoldable pub consume : EphemeralBroker → String → String → ℕ → Outcome String × EphemeralBroker
consume values handle purpose now = elim (lookup handle values) [
  | none ↦ (err (key_error handle), values)
  | some h ↦ (fits h purpose now, erase handle values)
]

pub record CredentialUseGrant : Type 0 where
  pub credential_handle : String
  pub operation : String
  pub origin : String
  pub expires_at : ℕ

unfoldable pub permits : CredentialUseGrant → String → String → ℕ → Bool
permits g operation origin now =
    g.operation == operation && g.origin == origin && leb now g.expires_at

pub record PurchaseEffect : Type 0 where
  pub merchant : String
  pub currency : String
  pub subtotal : ℤ
  pub tax : ℤ
  pub shipping : ℤ
  pub fees : ℤ
  pub total : ℤ
  pub address_hint : String
  pub payment_hint : String

unfoldable pub validate : PurchaseEffect → Outcome (Unit {0})
validate p =
    raise_if (not (eqb_ℤ (p.subtotal +ℤ p.tax +ℤ p.shipping +ℤ p.fees) p.total))
      (value_error "final total mismatch")

-- ===== src/Policy.antt =====
-- src/openmuse/policy.py: which actions may run without a host approval. The approvals may be an
-- `ApprovalAuthority` or a `DelegatedAuthority`: whatever has a `verify`, as an interface.
pub mod Check
mod Tests
use openmuse.Common.{
  ℕ, String, Bool, true, false, ◌&&◌, Option, none, some, Text, Outcome, ok, err, if◌then◌else◌,
}
use openmuse.Models.{Action}

pub data Risk : Type 0 where
  read write represent money : Risk

-- `risk.value`
abbrev pub risk_value : Risk → String
risk_value read = "read"
risk_value write = "write"
risk_value represent = "represent"
risk_value money = "money"

pub record Decision : Type 0 where
  pub allowed : Bool
  pub reason : String

pub record Authority : Type 1 where
  pub State : Type 0
  pub verify : State → Action → Option Text → ℕ → Outcome Bool × State

pub record Policy (a : Authority) : Type 0 where
  pub allow_writes : Bool
  pub approvals : Option a.State

abbrev pub needs_approval : Risk → String
needs_approval read = "read action requires host approval"
needs_approval write = "write action requires host approval"
needs_approval represent = "represent action requires host approval"
needs_approval money = "money action requires host approval"

abbrev pub allow : String → Decision
allow reason = record { allowed = true; reason = reason }

abbrev pub deny : Risk → Decision
deny risk = record { allowed = false; reason = needs_approval risk }

abbrev pub is_read : Risk → Bool
is_read read = true
is_read _ = false

abbrev pub is_write : Risk → Bool
is_write write = true
is_write _ = false

module _ (a : Authority) where
  abbrev pub decide : Risk → Policy a → Outcome Bool × a.State → Outcome Decision × Policy a
  decide risk p (ok true, s) =
      (ok (allow "valid one-time approval"), record p { approvals = some s })
  decide risk p (ok false, s) = (ok (deny risk), record p { approvals = some s })
  decide risk p (err e, s) = (err e, record p { approvals = some s })

  -- `if self.approvals and self.approvals.verify(action, action.approval_token)`
  unfoldable pub ask : Policy a → Risk → Action → ℕ → Outcome Decision × Policy a
  ask p risk action now = elim p.approvals [
    | none ↦ (ok (deny risk), p)
    | some s ↦ decide risk p (a.verify s action action.approval_token now)
  ]

  unfoldable pub check : Policy a → Risk → Action → ℕ → Outcome Decision × Policy a
  check p risk action now =
      if is_read risk
      then (ok (allow "read-only action"), p)
      else if is_write risk && p.allow_writes
      then (ok (allow "writes enabled for this run"), p)
      else ask p risk action now

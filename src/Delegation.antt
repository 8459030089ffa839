-- ===== src/Delegation.antt =====
-- src/openmuse/approvals.py, src/openmuse/subagents.py and src/openmuse/policy.py together: the
-- authorities that a policy asks, as instances of its interface.
pub mod Through
mod Tests
use openmuse.Common.{ℕ, ◌+◌}
use openmuse.Runtime.{Runtime}
use openmuse.Policy.{Authority}
use openmuse.Approvals.{ApprovalAuthority}
use openmuse.Approvals
use openmuse.Subagents.{GrantLedger, DelegatedAuthority}
use openmuse.Subagents

-- The host's own approvals.
abbrev pub host_authority : Runtime → Authority
host_authority r = record { State = ApprovalAuthority; verify = Approvals.verify r }

-- A subagent's grant below them, with the host's ledger; `elapsed` is the time between the two readings
-- of the clock.
abbrev pub subagent_authority : Runtime → DelegatedAuthority → ℕ → Authority
subagent_authority r d elapsed = record {
  State = ApprovalAuthority × GrantLedger;
  verify = λ s action token now.
      Subagents.verify r (host_authority r) d s action token now (now + elapsed);
}

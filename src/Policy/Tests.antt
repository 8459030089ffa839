-- ===== src/Policy/Tests.antt =====
-- The policy with a counting authority (policy.py).
use openmuse.Common.{false, none, some}
use openmuse.Samples.{counter}
use openmuse.Policy.{Policy}

abbrev once : Policy counter
once = record { allow_writes = false; approvals = some 1 }

abbrev closed : Policy counter
closed = record { allow_writes = false; approvals = none }

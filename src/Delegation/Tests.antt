-- ===== src/Delegation/Tests.antt =====
-- A subagent that redeems an approval (policy.py, subagents.py, approvals.py).
use openmuse.Common.{
  ◌≡◌, ◌⊎◌, refl, true, false, some, [], ◌∷◌, ◌++◌, codes, text_eq, mem_text, hex, hex_digit,
  from_hex, digit_value, split_once, lookup, insert, ok, ◌+ℤ◌, pos,
}
use openmuse.Common.Json.{Json, field, end, get, json_eq, size}
use openmuse.Models.{Action}
use openmuse.Samples.{toy, send}
use openmuse.Policy.{Risk, Policy, allow, ask, check}
use openmuse.Approvals.{
  ApprovalAuthority, compare_digest, to_int, decode, is_expired, check_payload, checked, settle,
  verify_token,
}
use openmuse.Approvals
use openmuse.Subagents.{
  Grant, GrantLedger, DelegatedAuthority, constraints_of, holds, holds_all, within_grant, exhausted,
  charge, redeem,
}
use openmuse.Subagents
use openmuse.Delegation.{subagent_authority}
use openmuse.Delegation.Through.{Redeemed, check-Redeemed}

abbrev to_ann : Grant
to_ann = record {
  tools = "send" ∷ [];
  max_uses = some (pos 3);
  expires_at = some (pos 2000);
  constraints = ("send", field "to" (Json.str "ann") end) ∷ [];
}

abbrev child : DelegatedAuthority
child = record {
  grant = to_ann;
  grant_id = "child";
  has_ledger = true;
  budgets = ("child", pos 3) ∷ [];
}

-- The toy runtime's token for the action, and an authority and a ledger that have seen none.
abbrev approved : Action
approved = record send { approval_token = some (codes "7b7d." ++ 7 ∷ 8 ∷ b'{' ∷ b'}' ∷ []) }

abbrev host : ApprovalAuthority
host = record { secret = 7 ∷ 8 ∷ []; used = [] }

abbrev ledger : GrantLedger
ledger = record { quota = []; redemptions = [] }

abbrev policy : Policy (subagent_authority toy child 1)
policy = record { allow_writes = false; approvals = some (host, ledger) }

program : Unit {0}
unfolding check ask Subagents.verify redeem Subagents.consume within_grant constraints_of holds
    holds_all exhausted charge Approvals.verify verify_token checked check_payload is_expired to_int
    decode settle Approvals.consume compare_digest get json_eq size ◌+ℤ◌ hex hex_digit from_hex
    digit_value split_once text_eq mem_text lookup insert
program = tt

-- The action with its token is let through, where the authority reads its clock a second later.
let_through :
    (check (subagent_authority toy child 1) policy Risk.money approved 1298).0
    ≡ ok (allow "valid one-time approval")
unfolding program
let_through = refl

check-Redeemed_example :
    (Risk.money ≡ Risk.read)
    ⊎ (Risk.money ≡ Risk.write) × (policy.allow_writes ≡ true)
    ⊎ ((h : ApprovalAuthority) × (l : GrantLedger) × (after : ApprovalAuthority × GrantLedger)
        × (policy.approvals ≡ some (h, l))
        × ((check (subagent_authority toy child 1) policy Risk.money approved 1298).1.approvals
            ≡ some after)
        × Redeemed toy child 1 h l approved 1298 after)
check-Redeemed_example =
    check-Redeemed toy child 1 policy Risk.money approved 1298 (allow "valid one-time approval")
      let_through refl

-- ===== src/Delegation/Through.antt =====
-- What a subagent's policy lets through (policy.py, subagents.py, approvals.py).
use openmuse.Common.{
  ℕ, ◌+◌, ◌≡◌, ◌⊎◌, inl, inr, refl, ap, Bool, true, false, Option, some, ◌∷◌, Text, Outcome, ok,
  err, arith, Bool-cases,
}
use openmuse.Models.{Action}
use openmuse.Runtime.{Runtime}
use openmuse.Policy.{Risk, Decision, Policy, check}
use openmuse.Policy.Check.{Reason, check-allowed}
use openmuse.Approvals.{ApprovalAuthority}
use openmuse.Approvals
use openmuse.Approvals.Verify.{Accepted, verify_sound}
use openmuse.Subagents.{
  GrantLedger, Budgets, DelegatedAuthority, within_grant, no_budgets, consume, redeem, redeem_if,
}
use openmuse.Subagents
use openmuse.Delegation.{host_authority, subagent_authority}

module _ (r : Runtime) (d : DelegatedAuthority) (elapsed : ℕ) where
  -- The ledger after a redemption: untouched where there is no budget, else charged for the token.
  pub data Charged (l : GrantLedger) (token : Text) (after : GrantLedger) : Type 0 where
    free : no_budgets d.budgets ≡ true → after ≡ l → Charged l token after
    charged : consume l d.budgets (r.sha256 token) ≡ (true, after) → Charged l token after

  -- A call of the host's authority that accepted the action's token, inside the grant.
  pub record Redeemed (host : ApprovalAuthority) (ledger : GrantLedger) (action : Action) (now : ℕ)
      (after : ApprovalAuthority × GrantLedger) : Type 0 where
    pub within : within_grant d.grant action now ≡ true
    pub token : Text
    pub carried : action.approval_token ≡ some token
    pub accepted : Accepted r host action token (now + elapsed)
    pub marked : after.0 ≡ record host { used = token ∷ host.used }
    pub charges : Charged ledger token after.1

  redeem-true :
      (a : ApprovalAuthority) (l : GrantLedger) (token : Text)
      → (redeem r (host_authority r) d (some token) (a, l)).0 ≡ ok true
      → ((redeem r (host_authority r) d (some token) (a, l)).1.0 ≡ a)
        × Charged l token (redeem r (host_authority r) d (some token) (a, l)).1.1
  unfolding redeem
  redeem-true a l token h = elim (Bool-cases (no_budgets d.budgets)) [
    | inl none_ ↦ (ground (arith, none_), Charged.free none_ (ground (arith, none_)))
    | inr some_ ↦ elim (Bool-cases d.has_ledger) [
      | inl has ↦ (ground (arith, some_, has), Charged.charged (ground (arith, some_, has, h)))
      | inr missing ↦ absurd (ground (arith, some_, missing, h))
    ]
  ]

  redeem_if-true :
      (given : Option Text) (l : GrantLedger) (v : Outcome Bool × ApprovalAuthority)
      → (redeem_if r (host_authority r) d given l v).0 ≡ ok true
      → (v.0 ≡ ok true)
        × (redeem_if r (host_authority r) d given l v
            ≡ redeem r (host_authority r) d given (v.1, l))
  redeem_if-true given l (ok true, s) h = (refl, refl)
  redeem_if-true given l (ok false, s) h = absurd (ground arith)
  redeem_if-true given l (err e, s) h = cc

  redeemed :
      {host : ApprovalAuthority} {ledger : GrantLedger} {action : Action} {now : ℕ}
      {all : Outcome Bool × (ApprovalAuthority × GrantLedger)}
      → within_grant d.grant action now ≡ true
      → (v : Outcome Bool × ApprovalAuthority) (token : Text) → action.approval_token ≡ some token
      → Accepted r host action token (now + elapsed)
      → v.1 ≡ record host { used = token ∷ host.used }
      → all ≡ redeem r (host_authority r) d action.approval_token (v.1, ledger)
      → all.0 ≡ ok true
      → Redeemed host ledger action now all.1
  redeemed {ledger = ledger} {all = all} inside v token carried accepted marked e h =
      let same : all ≡ redeem r (host_authority r) d (some token) (v.1, ledger) = rw carried at e in
      let (kept, charges) = redeem-true v.1 ledger token (cc (same, h)) in
      record {
        within = inside;
        token = token;
        carried = carried;
        accepted = accepted;
        marked = cc (same, kept, marked);
        charges = rw same charges;
      }

  verify-Redeemed :
      (host : ApprovalAuthority) (ledger : GrantLedger) (action : Action) (now : ℕ)
      → (Subagents.verify r
          (host_authority r)
          d
          (host, ledger)
          action
          action.approval_token
          now
          (now + elapsed)).0
        ≡ ok true
      → Redeemed host ledger action now
          (Subagents.verify r
            (host_authority r)
            d
            (host, ledger)
            action
            action.approval_token
            now
            (now + elapsed)).1
  unfolding Subagents.verify
  verify-Redeemed host ledger action now h = elim (Bool-cases (within_grant d.grant action now)) [
    | inl inside ↦
        let v : Outcome Bool × ApprovalAuthority =
          Approvals.verify r host action action.approval_token (now + elapsed) in
        let asks : Subagents.verify r (host_authority r) d (host, ledger) action
              action.approval_token now (now + elapsed)
            ≡ redeem_if r (host_authority r) d action.approval_token ledger v =
          ground (arith, inside) in
        let (given, redeems) = redeem_if-true action.approval_token ledger v (cc (asks, h)) in
        let (token, carried, accepted, marked) =
          verify_sound r host action action.approval_token (now + elapsed) given in
        redeemed inside v token carried accepted marked (cc (asks, redeems)) h
    | inr outside ↦ absurd (ground (arith, outside, h))
  ]

  -- An action that a subagent's policy lets through only reads, or writes where writes are enabled;
  -- or it is inside the subagent's grant, its token is for this very action, carries the host's
  -- signature, has not expired and was not used before, the token is now used, and the subagent's
  -- budgets, if it has any, were charged for it.
  pub check-Redeemed :
      (p : Policy (subagent_authority r d elapsed)) (risk : Risk) (action : Action) (now : ℕ)
      (decision : Decision)
      → (check (subagent_authority r d elapsed) p risk action now).0 ≡ ok decision
      → decision.allowed ≡ true
      → (risk ≡ Risk.read)
        ⊎ (risk ≡ Risk.write) × (p.allow_writes ≡ true)
        ⊎ ((host : ApprovalAuthority) × (ledger : GrantLedger) × (after : ApprovalAuthority
              × GrantLedger)
            × (p.approvals ≡ some (host, ledger))
            × ((check (subagent_authority r d elapsed) p risk action now).1.approvals ≡ some after)
            × Redeemed host ledger action now after)
  check-Redeemed p risk action now decision h k =
      elim (check-allowed (subagent_authority r d elapsed) p risk action now decision h k) [
        | Reason.reads e same ↦ inl e
        | Reason.writes e on same ↦ inr (inl (e, on))
        | Reason.approved yes_ ↦
            let (host, ledger) = yes_.state in
            let after =
              (Subagents.verify r (host_authority r) d (host, ledger) action action.approval_token
                now (now + elapsed)).1 in
            inr (
              inr (
                host,
                ledger,
                after,
                yes_.held,
                ap (λ q. q.approvals) yes_.kept,
                verify-Redeemed host ledger action now yes_.verified,
              ))
      ]

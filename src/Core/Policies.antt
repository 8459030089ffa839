-- ===== src/Core/Policies.antt =====
-- What an execution does to the agent's policy (core.py).
use openmuse.Common.{
  ℕ, String, ◌≡◌, ◌⊎◌, inl, inr, refl, Bool, true, false, some, arith, Outcome, ok, err, Bool-cases,
  Option-cases, Outcome-cases,
}
use openmuse.Common.Json.{Fields, get}
use openmuse.Models.{Action, ToolResult}
use openmuse.Policy.{Risk, Authority, Policy, Decision, decide, ask, check}
use openmuse.Registry.{Tool, RegisteredTool, descriptor}
use openmuse.Core.{
  Host, State, Times, Tools, validate_arguments, validated, then_audit, give, completed_with,
  raised_with, blocked_with, failed_with, caught_from_tool, report, run_tool, decided, consult,
  execute,
}

decide-allow_writes :
    {a : Authority} (risk : Risk) (p : Policy a) (v : Outcome Bool × a.State)
    → (decide a risk p v).1.allow_writes ≡ p.allow_writes
decide-allow_writes risk p (ok true, s) = refl
decide-allow_writes risk p (ok false, s) = refl
decide-allow_writes risk p (err e, s) = refl

module _ (h : Host) where
  then_audit-policy :
      (s : State h) (f : Fields) (k : State h → Outcome ToolResult × State h)
      → ((s' : State h) → (k s').1.policy ≡ s'.policy)
      → (then_audit h s f k).1.policy ≡ s.policy
  then_audit-policy s f k keeps = elim (Outcome-cases (h.sink.append s.log f).0) [
    | inl (u, e) ↦ ground (arith, e, keeps (record s { log = (h.sink.append s.log f).1 }))
    | inr (x, e) ↦ ground (arith, e)
  ]

  report-policy :
      (tools : Tools h) (action : Action) (result : ToolResult) (at : String) (s : State h)
      → (report h tools action result at s).1.policy ≡ s.policy
  unfolding report
  report-policy tools action result at s = ground arith

  run_tool-policy :
      (tools : Tools h) (tool : Tool h.World) (action : Action) (at : String) (s : State h)
      → (run_tool h tools tool action at s).1.policy ≡ s.policy
  unfolding run_tool
  run_tool-policy tools tool action at s =
      elim (Outcome-cases (tool.run action.arguments s.world).0) [
        | inl (output, e) ↦ ground (
          arith,
          e,
          report-policy tools action (completed_with h action output) at
              (record s { world = (tool.run action.arguments s.world).1 }),
        )
        | inr (x, e) ↦ elim (Bool-cases (caught_from_tool x)) [
          | inl c ↦ ground (
            arith,
            e,
            c,
            report-policy tools action (raised_with h action x) at
                (record s { world = (tool.run action.arguments s.world).1 }),
          )
          | inr c ↦ ground (arith, e, c)
        ]
      ]

  decided-policy :
      (tools : Tools h) (tool : Tool h.World) (action : Action) (t : Times) (o : Outcome Decision)
      (s : State h)
      → (decided h tools tool action t o s).1.policy ≡ s.policy
  unfolding decided
  decided-policy tools tool action t (err e) s = refl
  decided-policy tools tool action t (ok d) s = elim (Bool-cases d.allowed) [
    | inl yes_ ↦ rw yes_ (
        then_audit-policy s _ (run_tool h tools tool action t.outcome)
          (λ s'. run_tool-policy tools tool action t.outcome s'))
    | inr no_ ↦
        rw no_ (then_audit-policy s _ (give h (blocked_with h action d.reason)) (λ s'. refl))
  ]

  -- An execution leaves the policy as it was, or as the one check of the action's registered tool did.
  pub execute-policy :
      (tools : Tools h) (action : Action) (t : Times) (s : State h)
      → ((execute h tools action t s).1.policy ≡ s.policy)
        ⊎ ((entry : RegisteredTool h.World) × (descriptor tools action.tool ≡ some entry)
            × ((execute h tools action t s).1.policy
                ≡ (check h.authority s.policy entry.risk action t.checked).1))
  unfolding execute consult
  execute-policy tools action t s = elim (Option-cases (descriptor tools action.tool)) [
    | inl e ↦ inl (
        rw (e, execute)
          (then_audit-policy s _ (give h (failed_with action "unknown_tool")) (λ s'. refl)))
    | inr (entry, e) ↦
        elim (by_validation entry
          (validate_arguments h action.arguments (get "schema" entry.descriptor))) [
            | inl same ↦ inl (rw (e, execute) same)
            | inr checked ↦ inr (entry, e, rw (e, execute) checked)
          ]
  ]
    where
      by_validation :
          (entry : RegisteredTool h.World) (o : Outcome Bool)
          → let after = (validated h tools entry action t s o).1.policy in
            (after ≡ s.policy)
            ⊎ (after ≡ (check h.authority s.policy entry.risk action t.checked).1)
      by_validation entry (err x) = inl refl
      by_validation entry (ok false) =
          inl (then_audit-policy s _ (give h (failed_with action "invalid_arguments")) (λ s'. refl))
      by_validation entry (ok true) =
          let v = check h.authority s.policy entry.risk action t.checked in
          inr (decided-policy tools entry.tool action t v.0 (record s { policy = v.1 }))

  check-allow_writes :
      (p : Policy h.authority) (risk : Risk) (action : Action) (now : ℕ)
      → (check h.authority p risk action now).1.allow_writes ≡ p.allow_writes
  unfolding check ask
  check-allow_writes p risk action now = elim (Option-cases p.approvals) [
    | inl e ↦ ground (arith, e)
    | inr (a, e) ↦ ground (
      arith,
      e,
      decide-allow_writes risk p (h.authority.verify a action action.approval_token now),
    )
  ]

  -- In particular the switch for writes is the host's.
  pub execute-allow_writes :
      (tools : Tools h) (action : Action) (t : Times) (s : State h)
      → (execute h tools action t s).1.policy.allow_writes ≡ s.policy.allow_writes
  execute-allow_writes tools action t s = elim (execute-policy tools action t s) [
    | inl same ↦ ground (arith, same)
    | inr (entry, found, e) ↦
        ground (arith, e, check-allow_writes s.policy entry.risk action t.checked)
  ]

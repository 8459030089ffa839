-- ===== src/Core/Gate.antt =====
-- What stands between an action and the outside world (core.py).
use openmuse.Common.{
  Bool, false, String, ◌≡◌, ◌⊎◌, inl, inr, refl, true, some, List, [], ◌∷◌, ◌++◌, arith, Outcome,
  ok, err, Exception, Outcome-cases, Bool-cases, Option-cases,
}
use openmuse.Common.Json.{Fields, get}
use openmuse.Models.{Action, ToolResult}
use openmuse.Policy.{Decision, check}
use openmuse.Registry.{Tool, RegisteredTool, descriptor}
use openmuse.Core.{
  Host, State, Times, Tools, validate_arguments, validated, audit_record, then_audit, give,
  intent_of, completed_with, raised_with, report, run_tool, decided, consult, execute,
  caught_from_tool,
}

module _ (h : Host) where
  abbrev pub records : State h → List Fields
  records s = h.sink.records s.log

  -- The state with one more record, or with none.
  report-log :
      (tools : Tools h) (action : Action) (result : ToolResult) (at : String) (s : State h)
      → let s' = (report h tools action result at s).1 in
        (s'.world ≡ s.world)
        × ((records s' ≡ records s)
            ⊎ (records s'
                ≡ records s
                  ++ h.sink.redact (audit_record h tools action result "outcome" at) ∷ []))
  unfolding report
  report-log tools action result at s =
      let f = audit_record h tools action result "outcome" at in
      elim (Outcome-cases (h.sink.append s.log f).0) [
        | inl (u, e) ↦ (ground (arith, e), inr (ground (arith, e, h.sink.appended s.log f e)))
        | inr (x, e) ↦ (
          ground (arith, e),
          elim (h.sink.refused s.log f x e) [
            | inl same ↦ inl (ground (arith, e, same))
            | inr more ↦ inr (ground (arith, e, more))
          ],
        )
      ]

  abbrev after_run : Tool h.World → Action → State h → State h
  after_run tool action s = record s { world = (tool.run action.arguments s.world).1 }

  run_tool-cases :
      (tools : Tools h) (tool : Tool h.World) (action : Action) (at : String) (s : State h)
      → ((result : ToolResult) × (run_tool h tools tool action at s
            ≡ report h tools action result at (after_run tool action s)))
        ⊎ ((e : Exception) × (run_tool h tools tool action at s ≡ (err e, after_run tool action s)))
  unfolding run_tool
  run_tool-cases tools tool action at s =
      elim (Outcome-cases (tool.run action.arguments s.world).0) [
        | inl (output, e) ↦ inl (completed_with h action output, ground (arith, e))
        | inr (x, e) ↦ elim (Bool-cases (caught_from_tool x)) [
          | inl c ↦ inl (raised_with h action x, ground (arith, e, c))
          | inr c ↦ inr (x, ground (arith, e, c))
        ]
      ]

  -- `s'` has the records of `s`, and at most one more.
  abbrev pub AtMostOne : State h → State h → Type 0
  AtMostOne s s' = (records s' ≡ records s) ⊎ ((f : Fields) × (records s' ≡ records s ++ f ∷ []))

  pub run_tool-log :
      (tools : Tools h) (tool : Tool h.World) (action : Action) (at : String) (s : State h)
      → ((run_tool h tools tool action at s).1.world ≡ (tool.run action.arguments s.world).1)
        × AtMostOne s (run_tool h tools tool action at s).1
  run_tool-log tools tool action at s = elim (run_tool-cases tools tool action at s) [
    | inl (result, e) ↦
        let (w, l) = report-log tools action result at (after_run tool action s) in
        rw e (
          w,
          elim l [
            | inl same ↦ inl same
            | inr more ↦ inr (h.sink.redact (audit_record h tools action result "outcome" at), more)
          ],
        )
    | inr (x, e) ↦ rw e (refl, inl refl)
  ]

  then_audit-give :
      (s : State h) (f : Fields) (result : ToolResult)
      → (then_audit h s f (give h result)).1.world ≡ s.world
  then_audit-give s f result = elim (Outcome-cases (h.sink.append s.log f).0) [
    | inl (u, e) ↦ ground (arith, e)
    | inr (x, e) ↦ ground (arith, e)
  ]

  -- The tool of a registered name was run: its arguments satisfy the copied schema, the policy let
  -- the action through, the intent was on the log before the run, and the log after it ends with
  -- the intent and at most one record more.
  pub record Ran (tools : Tools h) (action : Action) (t : Times) (s after : State h) : Type 0 where
    pub entry : RegisteredTool h.World
    pub found : descriptor tools action.tool ≡ some entry
    pub valid : validate_arguments h action.arguments (get "schema" entry.descriptor) ≡ ok true
    pub decision : Decision
    pub checked : (check h.authority s.policy entry.risk action t.checked).0 ≡ ok decision
    pub allowed : decision.allowed ≡ true
    pub before : State h
    pub intended :
        records before
        ≡ records s
          ++ h.sink.redact (audit_record h tools action (intent_of h action) "intent" t.intent) ∷ []
    pub ran : after.world ≡ (entry.tool.run action.arguments s.world).1
    pub recorded : AtMostOne before after

  abbrev pub intent_record : Tools h → Action → Times → Fields
  intent_record tools action t = audit_record h tools action (intent_of h action) "intent" t.intent

  abbrev with_log : State h → Fields → State h
  with_log s f = record s { log = (h.sink.append s.log f).1 }

  -- The decision was a permit and the intent was recorded; otherwise the world is as it was.
  decided-cases :
      (tools : Tools h) (tool : Tool h.World) (action : Action) (t : Times) (o : Outcome Decision)
      (s : State h)
      → ((decided h tools tool action t o s).1.world ≡ s.world)
        ⊎ ((d : Decision) × (o ≡ ok d)
            × (d.allowed ≡ true)
            × ((h.sink.append s.log (intent_record tools action t)).0 ≡ ok tt)
            × (decided h tools tool action t o s
                ≡ run_tool h tools tool action t.outcome
                    (with_log s (intent_record tools action t))))
  unfolding decided
  decided-cases tools tool action t (err e) s = inl refl
  decided-cases tools tool action t (ok d) s = elim (Bool-cases d.allowed) [
    | inr no_ ↦ inl (rw no_ (then_audit-give s _ _))
    | inl yes_ ↦ elim (Outcome-cases (h.sink.append s.log (intent_record tools action t)).0) [
      | inl (u, e) ↦ inr (d, refl, yes_, e, ground (arith, yes_, e))
      | inr (x, e) ↦ inl (ground (arith, yes_, e))
    ]
  ]

  consult-cases :
      (tools : Tools h) (entry : RegisteredTool h.World) (action : Action) (t : Times) (s : State h)
      → descriptor tools action.tool ≡ some entry
      → validate_arguments h action.arguments (get "schema" entry.descriptor) ≡ ok true
      → ((consult h tools entry action t s).1.world ≡ s.world)
        ⊎ Ran tools action t s (consult h tools entry action t s).1
  unfolding consult
  consult-cases tools entry action t s found valid =
      let verdict = check h.authority s.policy entry.risk action t.checked in
      let s' : State h = record s { policy = verdict.1 } in
      elim (decided-cases tools entry.tool action t verdict.0 s') [
        | inl same ↦ inl same
        | inr (d, checked, allowed, logged, e) ↦
            let before : State h = with_log s' (intent_record tools action t) in
            let (w, l) = run_tool-log tools entry.tool action t.outcome before in
            inr (record {
              entry = entry;
              found = found;
              valid = valid;
              decision = d;
              checked = checked;
              allowed = allowed;
              before = before;
              intended = h.sink.appended s.log (intent_record tools action t) logged;
              ran = rw e w;
              recorded = rw e l;
            })
      ]

  -- Executing an action leaves the outside world as it was, or it has run the action's registered
  -- tool, once: on arguments that satisfy the schema copied at registration, after the policy let
  -- the action through, and after an intent was durably recorded; the log then grew by that intent
  -- and at most one record more. It holds whatever the execution returns or raises.
  pub execute-gate :
      (tools : Tools h) (action : Action) (t : Times) (s : State h)
      → ((execute h tools action t s).1.world ≡ s.world)
        ⊎ Ran tools action t s (execute h tools action t s).1
  unfolding execute
  execute-gate tools action t s = elim (Option-cases (descriptor tools action.tool)) [
    | inl e ↦ inl (rw (e, execute) (then_audit-give s _ _))
    | inr (entry, e) ↦
        rw (e, execute)
          (by_validation entry e
            (validate_arguments h action.arguments (get "schema" entry.descriptor)) refl)
  ]
    where
      by_validation :
          (entry : RegisteredTool h.World)
          → descriptor tools action.tool ≡ some entry
          → (o : Outcome Bool)
          → validate_arguments h action.arguments (get "schema" entry.descriptor) ≡ o
          → let after = (validated h tools entry action t s o).1 in
            (after.world ≡ s.world) ⊎ Ran tools action t s after
      by_validation entry e (err x) valid = inl refl
      by_validation entry e (ok false) valid = inl (then_audit-give s _ _)
      by_validation entry e (ok true) valid = consult-cases tools entry action t s e valid

  abbrev after_run_with : State h → h.World → State h
  after_run_with s w = record s { world = w }

  abbrev outcome_record : Tools h → Action → String → Times → Fields
  outcome_record tools action output t =
      audit_record h tools action (completed_with h action output) "outcome" t.outcome

  -- An action whose tool is registered, whose arguments satisfy the schema and that the policy lets
  -- through is completed with the tool's own output, when the log takes the intent and the outcome
  -- and the tool returns; the log then has these two records more, in this order.
  pub execute-completed :
      (tools : Tools h) (action : Action) (t : Times) (s : State h) (entry : RegisteredTool h.World)
      (d : Decision) (output : String)
      → descriptor tools action.tool ≡ some entry
      → validate_arguments h action.arguments (get "schema" entry.descriptor) ≡ ok true
      → (check h.authority s.policy entry.risk action t.checked).0 ≡ ok d
      → d.allowed ≡ true
      → (entry.tool.run action.arguments s.world).0 ≡ ok output
      → (h.sink.append s.log (intent_record tools action t)).0 ≡ ok tt
      → (h.sink.append
          (h.sink.append s.log (intent_record tools action t)).1
          (outcome_record tools action output t)).0
        ≡ ok tt
      → ((execute h tools action t s).0 ≡ ok (completed_with h action output))
        × (records (execute h tools action t s).1
            ≡ (records s ++ h.sink.redact (intent_record tools action t) ∷ [])
              ++ h.sink.redact (outcome_record tools action output t) ∷ [])
  unfolding execute consult decided run_tool report
  execute-completed tools action t s entry d output found valid checked allowed ran intended
        reported =
      let l : h.sink.Log = (h.sink.append s.log (intent_record tools action t)).1 in
      ground (
        arith,
        found,
        valid,
        checked,
        allowed,
        ran,
        intended,
        reported,
        h.sink.appended s.log (intent_record tools action t) intended,
        h.sink.appended l (outcome_record tools action output t) reported,
      )

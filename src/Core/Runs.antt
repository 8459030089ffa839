-- ===== src/Core/Runs.antt =====
-- When an execution runs its tool (core.py).
use openmuse.Common.{◌≡◌, true, some, arith, ok}
use openmuse.Common.Json.{get}
use openmuse.Models.{Action}
use openmuse.Policy.{Decision, check}
use openmuse.Registry.{RegisteredTool, descriptor}
use openmuse.Core.{Host, State, Times, Tools, validate_arguments, decided, consult, execute}
use openmuse.Core.Gate.{intent_record, run_tool-log}

module _ (h : Host) where
  -- An action whose tool is registered, whose arguments satisfy the schema, that the policy lets
  -- through and whose intent the log takes is run, whatever the tool then does.
  pub execute-ran :
      (tools : Tools h) (action : Action) (t : Times) (s : State h) (entry : RegisteredTool h.World)
      (d : Decision)
      → descriptor tools action.tool ≡ some entry
      → validate_arguments h action.arguments (get "schema" entry.descriptor) ≡ ok true
      → (check h.authority s.policy entry.risk action t.checked).0 ≡ ok d
      → d.allowed ≡ true
      → (h.sink.append s.log (intent_record h tools action t)).0 ≡ ok tt
      → (execute h tools action t s).1.world ≡ (entry.tool.run action.arguments s.world).1
  unfolding execute consult decided
  execute-ran tools action t s entry d found valid checked allowed intended =
      let before : State h = record s {
        policy = (check h.authority s.policy entry.risk action t.checked).1;
        log = (h.sink.append s.log (intent_record h tools action t)).1;
      } in
      ground (
        arith,
        found,
        valid,
        checked,
        allowed,
        intended,
        (run_tool-log h tools entry.tool action t.outcome before).0,
      )

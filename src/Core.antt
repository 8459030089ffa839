-- ===== src/Core.antt =====
-- src/openmuse/core.py: the agent's execution of one action, and its loop. What the agent works on
-- is a state: the policy with its approvals, the audit log and the outside world. The log is an
-- interface, which Logged fills with that of audit.py; JSON Schema validation is a third party's, and
-- a parameter.
pub mod Gate
pub mod Loop
pub mod Policies
pub mod Runs
pub mod Logged
mod Tests
use openmuse.Common.{
  ◌⊎◌, ℕ, zero, suc, String, ◌≡◌, Bool, true, false, ◌||◌, Option, none, some, List, [], ◌∷◌, ◌++◌,
  if◌then◌else◌, Dict, Text, codes, Outcome, ok, err, Exception, value_error, type_error, key_error,
  os_error, runtime_error, timeout_error, grant_error, scope_denied, broker_error, audit_key_error,
  master_key_error, other, message, class_name,
}
use openmuse.Common.Json.{Json, Fields, field, end, get}
use openmuse.Models.{
  Action, ActionStatus, proposed, completed, failed, blocked, canceled, ToolResult,
}
use openmuse.Policy.{Authority, Policy, Decision, check}
use openmuse.Registry.{Tool, RegisteredTool, descriptor, get_tool, catalogue}
use openmuse.Runtime.{Runtime}

-- Where the agent appends its records, which are seen without the fields that the chain adds. An append
-- that returns adds the redacted record at the end; one that raises adds nothing, or has added it
-- already.
pub record AuditSink : Type 1 where
  pub Log : Type 0
  pub append : Log → Fields → Outcome (Unit {0}) × Log
  pub records : Log → List Fields
  pub redact : Fields → Fields
  pub appended :
      (l : Log) (f : Fields)
      → (append l f).0 ≡ ok tt
      → records (append l f).1 ≡ records l ++ redact f ∷ []
  pub refused :
      (l : Log) (f : Fields) (e : Exception)
      → (append l f).0 ≡ err e
      → (records (append l f).1 ≡ records l) ⊎ (records (append l f).1 ≡ records l ++ redact f ∷ [])

abbrev pub status_value : ActionStatus → String
status_value proposed = "proposed"
status_value completed = "completed"
status_value failed = "failed"
status_value blocked = "blocked"
status_value canceled = "canceled"

-- `except (OSError, ValueError, TypeError, KeyError, RuntimeError, TimeoutError)`, with subclasses
abbrev pub caught_from_tool : Exception → Bool
caught_from_tool (other c m) = false
caught_from_tool _ = true

-- `except (OSError, ValueError, AuditKeyError)`, with subclasses
abbrev pub caught_from_audit : Exception → Bool
caught_from_audit (type_error m) = false
caught_from_audit (key_error m) = false
caught_from_audit (runtime_error m) = false
caught_from_audit (master_key_error m) = false
caught_from_audit (other c m) = false
caught_from_audit _ = true

abbrev pub failed_with : Action → String → ToolResult
failed_with action code = record {
  action_id = action.id;
  status = failed;
  output = "";
  error_code = some code;
  retryable = false;
}

abbrev pub text_or_null : Option String → Json
text_or_null none = Json.null
text_or_null (some s) = Json.str s

-- What the agent is given: its libraries, its authority, its log, the world that tools act on, and
-- what jsonschema says of arguments and a schema: whether they satisfy it, where SchemaError and
-- ValidationError say that they do not, or what else it raises.
pub record Host : Type 1 where
  pub runtime : Runtime
  pub authority : Authority
  pub sink : AuditSink
  pub World : Type 0
  pub validates : Fields → Fields → Outcome Bool

pub record State (h : Host) : Type 0 where
  pub policy : Policy h.authority
  pub log : h.sink.Log
  pub world : h.World

-- The readings of the clock in one `execute`: for the policy, and for each record, as ISO text.
pub record Times : Type 0 where
  pub checked : ℕ
  pub decision : String
  pub intent : String
  pub outcome : String

-- What a planner is: its next action from the results so far, with a state of its own.
abbrev pub Planner : Type 0 → Type 0
Planner P = List Fields → List ToolResult → P → Option Action × P

abbrev pub stops : ActionStatus → Bool
stops blocked = true
stops failed = true
stops _ = false

module _ (h : Host) where
  abbrev pub Tools : Type 0
  Tools = Dict (RegisteredTool h.World)

  -- `validate_arguments` of validation.py, where false is SchemaValidationError: no schema accepts
  -- everything.
  unfoldable pub validate_arguments : Fields → Option Json → Outcome Bool
  validate_arguments arguments (some (Json.obj schema)) = h.validates arguments schema
  validate_arguments arguments _ = ok true

  -- The record that `Agent._audit` appends: digests in place of arguments and output.
  unfoldable pub audit_record : Tools → Action → ToolResult → String → String → Fields
  audit_record tools action result event at = field "at" (Json.str at) (
      field "event" (Json.str event) (
        field "action"
          (Json.obj (
            field "id" (Json.str action.id) (
              field "tool"
                (Json.str
                  (elim (get_tool tools action.tool) [ none ↦ "[unknown]" | some t ↦ action.tool ]))
                (field "arguments_sha256"
                  (Json.str (
                    h.runtime.as_string
                      (h.runtime.sha256 (h.runtime.dumps (Json.obj action.arguments)))))
                  end))))
          (field "status" (Json.str (status_value result.status)) (
            field "error_code" (text_or_null result.error_code) (
              field "output_sha256"
                (Json.str (h.runtime.as_string (h.runtime.sha256 (codes result.output)))) end)))))

  -- Appends a record and goes on with `k`, unless the append raises.
  abbrev pub then_audit :
      State h → Fields → (State h → Outcome ToolResult × State h) → Outcome ToolResult × State h
  then_audit s f k =
      let (o, l) = h.sink.append s.log f in
      elim o [ ok _ ↦ k (record s { log = l }) | err e ↦ (err e, record s { log = l }) ]

  abbrev pub give : ToolResult → State h → Outcome ToolResult × State h
  give result s = (ok result, s)

  abbrev pub intent_of : Action → ToolResult
  intent_of action = record {
    action_id = action.id;
    status = proposed;
    output = "";
    error_code = none;
    retryable = false;
  }

  abbrev pub completed_with : Action → String → ToolResult
  completed_with action output = record {
    action_id = action.id;
    status = completed;
    output = output;
    error_code = none;
    retryable = false;
  }

  abbrev pub raised_with : Action → Exception → ToolResult
  raised_with action e = record {
    action_id = action.id;
    status = failed;
    output = message e;
    error_code = some (class_name e);
    retryable = false;
  }

  abbrev pub blocked_with : Action → String → ToolResult
  blocked_with action reason = record {
    action_id = action.id;
    status = blocked;
    output = reason;
    error_code = some "approval_required";
    retryable = false;
  }

  -- The last `try`: an outcome that cannot be recorded is reported as unknown.
  unfoldable pub report :
      Tools → Action → ToolResult → String → State h → Outcome ToolResult × State h
  report tools action result at s =
      let (o, l) = h.sink.append s.log (audit_record tools action result "outcome" at) in
      let s' : State h = record s { log = l } in
      elim o [
        | ok _ ↦ (ok result, s')
        | err e ↦
            if caught_from_audit e
            then (ok (failed_with action "audit_outcome_unknown"), s')
            else (err e, s')
      ]

  -- Runs the tool, once its intent is recorded.
  unfoldable pub run_tool :
      Tools → Tool h.World → Action → String → State h → Outcome ToolResult × State h
  run_tool tools tool action at s =
      let (o, w) = tool.run action.arguments s.world in
      let s' : State h = record s { world = w } in
      elim o [
        | ok output ↦ report tools action (completed_with action output) at s'
        | err e ↦
            if caught_from_tool e
            then report tools action (raised_with action e) at s'
            else (err e, s')
      ]

  -- From the policy's decision on.
  unfoldable pub decided :
      Tools
      → Tool h.World
      → Action
      → Times
      → Outcome Decision
      → State h
      → Outcome ToolResult × State h
  decided tools tool action t (err e) s = (err e, s)
  decided tools tool action t (ok d) s =
      if d.allowed
      then then_audit s (audit_record tools action (intent_of action) "intent" t.intent)
          (run_tool tools tool action t.outcome)
      else then_audit s
          (audit_record tools action (blocked_with action d.reason) "decision" t.decision)
          (give (blocked_with action d.reason))

  -- `self.policy.check`, whose approvals may change
  unfoldable pub consult :
      Tools → RegisteredTool h.World → Action → Times → State h → Outcome ToolResult × State h
  consult tools e action t s =
      let (d, p) = check h.authority s.policy e.risk action t.checked in
      decided tools e.tool action t d (record s { policy = p })

  -- After the validation: only SchemaValidationError is caught.
  abbrev pub validated :
      Tools
      → RegisteredTool h.World
      → Action
      → Times
      → State h
      → Outcome Bool
      → Outcome ToolResult × State h
  validated tools e action t s (err x) = (err x, s)
  validated tools e action t s (ok false) =
      then_audit s
        (audit_record tools action (failed_with action "invalid_arguments") "decision" t.decision)
        (give (failed_with action "invalid_arguments"))
  validated tools e action t s (ok true) = consult tools e action t s

  -- `Agent.execute`
  unfoldable pub execute : Tools → Action → Times → State h → Outcome ToolResult × State h
  execute tools action t s = elim (descriptor tools action.tool) [
    | none ↦
        then_audit s
          (audit_record tools action (failed_with action "unknown_tool") "decision" t.decision)
          (give (failed_with action "unknown_tool"))
    | some e ↦
        validated tools e action t s
          (validate_arguments action.arguments (get "schema" e.descriptor))
  ]

  -- `Agent.run`: the results so far are in order; `times` reads the clock for each round.
  unfoldable pub run_steps :
      {P : Type 0}
      → Tools
      → Planner P
      → (ℕ → Times)
      → ℕ
      → List ToolResult
      → P
      → State h
      → Outcome (List ToolResult) × State h
  run_steps tools plan times zero history p s = (ok history, s)
  run_steps tools plan times (suc n) history p s =
      let (proposal, p') = plan (catalogue tools) history p in
      elim proposal [
        | none ↦ (ok history, s)
        | some action ↦
            let (o, s') = execute tools action (times n) s in
            elim o [
              | err e ↦ (err e, s')
              | ok result ↦
                  let rest = run_steps tools plan times n (history ++ result ∷ []) p' s' in
                  if stops result.status then (ok (history ++ result ∷ []), s') else rest
            ]
      ]

  unfoldable pub run :
      {P : Type 0}
      → Tools
      → Planner P
      → (ℕ → Times)
      → ℕ
      → P
      → State h
      → Outcome (List ToolResult) × State h
  run tools plan times max_steps p s = run_steps tools plan times max_steps [] p s

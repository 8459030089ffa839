-- ===== src/WebChat.antt =====
-- src/openmuse/web_chat.py: ChatSession. Its agent, its approval service, its channel and its
-- pending approvals are one state. The authority that issues tokens is the object that the agent's
-- policy asks, so what is left of it here is its secret. The planner, the workspace's paths, fresh
-- identifiers and the clock's readings are parameters; the page of a request is left out.
pub mod Rounds
pub mod Reads
pub mod Decides
pub mod Once
pub mod Server
pub mod Linked
pub mod Honoured
mod Tests
use openmuse.Common.{
  ℕ, zero, suc, ◌-◌, String, codes, Text, decimal, Bool, true, false, not, ◌&&◌, Option, none, some,
  List, [], ◌∷◌, ◌++◌, ◌==◌, ltb, if◌then◌else◌, length, take, drop, Dict, lookup, insert, erase,
  pos, Outcome, ok, err, Exception, value_error, runtime_error,
}
use openmuse.Common.Json.{Json, Fields, field, end, get, json_eq}
use openmuse.Models.{Action, ActionStatus, completed, blocked, ToolResult}
use openmuse.Runtime.{Runtime}
use openmuse.Registry.{catalogue}
use openmuse.Approvals.{ApprovalAuthority, compare_digest, issue}
use openmuse.ApprovalService.{ApprovalRequest, Table, create}
use openmuse.ApprovalService
use openmuse.Core.{AuditSink, Host, State, Times, Tools, execute}
use openmuse.Delegation.{host_authority}
use openmuse.Channels.{IncomingMessage, WebChannel, submit, receive, send}

pub record WebHost : Type 1 where
  pub runtime : Runtime
  pub sink : AuditSink
  pub World : Type 0
  pub validates : Fields → Fields → Outcome Bool
  -- `str(self.workspace / path)`
  pub in_workspace : String → String

abbrev pub host : WebHost → Host
host w = record {
  runtime = w.runtime;
  authority = host_authority w.runtime;
  sink = w.sink;
  World = w.World;
  validates = w.validates;
}

-- `ChatPlanner`, with a state of its own; `plan` may raise.
pub record ChatPlanner (P : Type 0) : Type 0 where
  pub plan : Text → List Fields → List ToolResult → P → Outcome (Option Action) × P
  pub last_reply : P → Option Text

pub data ChatEvent : Type 0 where
  message : Text → ChatEvent
  tool : String → Fields → ActionStatus → Option String → Text → ChatEvent
  approval : String → Text → ℕ → ChatEvent
  decision : String → String → ChatEvent

-- `_Pending`
pub record Pending : Type 0 where
  pub action : Action
  pub conversation_id : String
  pub session : Text

pub record ChatSession (w : WebHost) (P : Type 0) : Type 0 where
  pub agent : State (host w)
  pub planner : P
  pub approvals : Table
  pub channel : WebChannel
  pub transcripts : Dict (List (Text × Text))
  pub pending : Dict Pending

abbrev pub or_empty {ℓ} : {A : Type ℓ} → Option (List A) → List A
or_empty none = []
or_empty (some l) = l

-- `transcripts.setdefault(conversation_id, []).append(line)`
unfoldable pub append_line :
    String → Text × Text → Dict (List (Text × Text)) → Dict (List (Text × Text))
append_line conversation line d =
    insert conversation (or_empty (lookup conversation d) ++ line ∷ []) d

abbrev pub history_turns : ℕ
history_turns = 12

abbrev pub max_output_chars : ℕ
max_output_chars = 2000

abbrev pub help_text : Text
help_text =
    codes
      "I'm the offline demo planner. Try:\n  read README.md\n  write notes/hello.txt: Hello from the web chat\n  fetch https://example.com\nReads run right away. Writes stop for your approval first.\nSet OPENAI_API_KEY to chat with a real model instead."

unfoldable pub join_lines : List (Text × Text) → Text
join_lines [] = []
join_lines ((role, body) ∷ []) = role ++ codes ": " ++ body
join_lines ((role, body) ∷ l ∷ ls) = (role ++ codes ": " ++ body) ++ 10 ∷ join_lines (l ∷ ls)

-- The goal: the last turns of the transcript.
unfoldable pub goal_of : List (Text × Text) → Text
goal_of transcript = join_lines (drop transcript (length transcript - history_turns))

unfoldable pub clip : Text → Text
clip output =
    if ltb max_output_chars (length output)
    then take output max_output_chars
      ++ (codes "\n... ("
          ++ decimal (length output - max_output_chars)
          ++ codes " more characters)")
    else output

-- `_result_event`
unfoldable pub result_event : Action → ToolResult → ChatEvent
result_event action result =
    ChatEvent.tool action.tool action.arguments result.status result.error_code
      (clip (codes result.output))

abbrev pub is_completed : ActionStatus → Bool
is_completed completed = true
is_completed _ = false

abbrev pub is_blocked : ActionStatus → Bool
is_blocked blocked = true
is_blocked _ = false

abbrev pub is_code : Option String → String → Bool
is_code none s = false
is_code (some c) s = c == s

abbrev pub needs_approval : ToolResult → Bool
needs_approval result = is_blocked result.status && is_code result.error_code "approval_required"

-- `self.planner.last_reply or ("Done." if history else HELP)`
unfoldable pub reply_of : Option Text → List ToolResult → Text
reply_of (some (c ∷ t)) history = c ∷ t
reply_of _ [] = help_text
reply_of _ (r ∷ rs) = codes "Done."

abbrev pub waiting : Text
waiting = codes "Waiting for your approval before running this action."

-- What a message draws: an identifier and the clock for each round, and those of a request.
pub record Draws : Type 0 where
  pub action_ids : ℕ → String
  pub times : ℕ → Times
  pub request_id : String
  pub now : ℕ

-- `{"id": ..., "tool": ..., "arguments": ...}`
abbrev pub action_object : Action → Json
action_object a = Json.obj (
    field "id" (Json.str a.id)
      (field "tool" (Json.str a.tool) (field "arguments" (Json.obj a.arguments) end)))

-- The planner's action without its token, under a fresh identifier.
abbrev pub own_action : Action → String → Action
own_action proposed id = record {
  tool = proposed.tool;
  arguments = proposed.arguments;
  id = id;
  approval_token = none;
}

-- `_destination`
unfoldable pub destination : WebHost → Action → String
destination w action = elim (get "path" action.arguments) [
  | some (Json.str path) ↦ w.in_workspace path
  | _ ↦ action.tool
]

module _ (w : WebHost) {P : Type 0} where
  -- `_say`
  unfoldable pub say : ChatSession w P → String → Text → ChatSession w P
  say s conversation text = record s {
    channel = (send s.channel conversation text).1;
    transcripts = append_line conversation (codes "assistant", text) s.transcripts;
  }

  -- `handle` up to the planner, with what the channel received: the message joins the transcript, and
  -- the goal is made of it.
  unfoldable pub heard :
      ChatSession w P
      → String
      → Option IncomingMessage × WebChannel
      → Outcome Text × ChatSession w P
  heard s conversation (none, channel) =
      (err (Exception.other "AssertionError" ""), record s { channel = channel })
  heard s conversation (some m, channel) =
      let transcripts = append_line conversation (codes "user", m.text) s.transcripts in
      (
        ok (goal_of (or_empty (lookup conversation transcripts))),
        record s { channel = channel; transcripts = transcripts },
      )

-- What a session is built with.
pub record Setup (w : WebHost) (P : Type 0) : Type 0 where
  pub planner : ChatPlanner P
  pub tools : Tools (host w)
  pub secret : Text
  pub session_key : Text
  pub identity : String

module _ (w : WebHost) {P : Type 0} (u : Setup w P) where
  -- The end of `handle`
  unfoldable pub finish :
      String
      → List ChatEvent
      → List ToolResult
      → ChatSession w P
      → Outcome (List ChatEvent) × ChatSession w P
  finish conversation events history s =
      let reply = reply_of (u.planner.last_reply s.planner) history in
      (ok (events ++ ChatEvent.message reply ∷ []), say w s conversation reply)

  -- `_request_approval` with what the service made, and the return after it
  unfoldable pub asked :
      String
      → Action
      → List ChatEvent
      → ChatSession w P
      → Outcome ((ApprovalRequest × Text) × Table)
      → Outcome (List ChatEvent) × ChatSession w P
  asked conversation action events s (err e) = (err e, s)
  asked conversation action events s (ok ((request, session), table)) =
      let entry =
        let q : Pending = record {
          action = action;
          conversation_id = conversation;
          session = session;
        } in
        q in
      let s' : ChatSession w P = record s {
        approvals = table;
        pending = insert request.id entry s.pending;
      } in
      (
        ok (
            events
            ++ ChatEvent.approval request.id session request.expires_at
              ∷ ChatEvent.message waiting
              ∷ []),
        say w s' conversation waiting,
      )

  unfoldable pub pause :
      Draws
      → String
      → Action
      → List ChatEvent
      → ChatSession w P
      → Outcome (List ChatEvent) × ChatSession w P
  pause d conversation action events s = asked conversation action events s (
      create w.runtime u.session_key s.approvals action u.identity (destination w action) 300
        d.request_id d.now)

  -- The loop of `handle`, with `n` rounds left
  unfoldable pub rounds :
      Draws
      → String
      → Text
      → ℕ
      → List ChatEvent
      → List ToolResult
      → ChatSession w P
      → Outcome (List ChatEvent) × ChatSession w P
  rounds d conversation goal zero events history s = finish conversation events history s
  rounds d conversation goal (suc n) events history s =
      let (proposal, p) = u.planner.plan goal (catalogue u.tools) history s.planner in
      let s' : ChatSession w P = record s { planner = p } in
      elim proposal [
        | err e ↦ (err e, s')
        | ok none ↦ finish conversation events history s'
        | ok (some proposed) ↦
            let action = own_action proposed (d.action_ids n) in
            let (o, a) = execute (host w) u.tools action (d.times n) s'.agent in
            let s'' : ChatSession w P = record s' { agent = a } in
            elim o [
              | err e ↦ (err e, s'')
              | ok result ↦
                  let events' = events ++ result_event action result ∷ [] in
                  let history' = history ++ result ∷ [] in
                  let more = rounds d conversation goal n events' history' s'' in
                  if needs_approval result
                  then pause d conversation action events s''
                  else if is_completed result.status
                  then more
                  else finish conversation events' history' s''
            ]
      ]

  -- `handle`
  unfoldable pub handle :
      ℕ → ChatSession w P → String → Text → Draws → Outcome (List ChatEvent) × ChatSession w P
  handle max_steps s conversation text d =
      let (o, s') =
        heard w s conversation (receive (submit s.channel conversation "local-user" text)) in
      elim o [ err e ↦ (err e, s') | ok goal ↦ rounds d conversation goal max_steps [] [] s' ]

  -- `decide`, once the request is approved: the action runs under a token of its own.
  unfoldable pub run_approved :
      String → Pending → ℕ → Times → ChatSession w P → Outcome (List ChatEvent) × ChatSession w P
  run_approved request_id p issued t s =
      let authority = let a : ApprovalAuthority = record { secret = u.secret; used = [] } in a in
      let token = issue w.runtime authority p.action (pos 300) issued in
      let (o, a) =
        execute (host w) u.tools (record p.action { approval_token = some token }) t s.agent in
      let s' : ChatSession w P = record s { agent = a } in
      elim o [
        | err e ↦ (err e, s')
        | ok result ↦
            let reply =
              if is_completed result.status
              then codes "Approved and ran once."
              else codes "Approved, but the action failed." in
            (
              ok (
                  ChatEvent.decision request_id "approved"
                  ∷ result_event p.action result
                  ∷ ChatEvent.message reply
                  ∷ []),
              say w s' p.conversation_id reply,
            )
      ]

  unfoldable pub deny :
      String → Pending → ChatSession w P → Outcome (List ChatEvent) × ChatSession w P
  deny request_id p s =
      let reply = codes "Denied. " ++ codes p.action.tool ++ codes " did not run." in
      (
        ok (ChatEvent.decision request_id "denied" ∷ ChatEvent.message reply ∷ []),
        say w s p.conversation_id reply,
      )

  abbrev pub is_stored : Option Json → Action → Bool
  is_stored none action = false
  is_stored (some v) action = json_eq v (action_object action)

  -- `decide`, once the service has decided
  unfoldable pub settle :
      String
      → Pending
      → ApprovalRequest
      → ℕ
      → Times
      → ChatSession w P
      → Outcome (List ChatEvent) × ChatSession w P
  settle request_id p decided issued t s =
      if is_stored (w.runtime.loads decided.action_json) p.action
      then if decided.status == "approved"
        then run_approved request_id p issued t s
        else deny request_id p s
      else (err (value_error "stored action does not match pending action"), s)

  -- The readings of the clock in `decide`: of the service, for the token, and in `execute`
  unfoldable pub decide :
      ChatSession w P
      → String
      → Text
      → String
      → ℕ
      → ℕ
      → Times
      → Outcome (List ChatEvent) × ChatSession w P
  decide s request_id session verdict now issued t = elim (lookup request_id s.pending) [
    | none ↦ (err (value_error "unknown approval"), s)
    | some p ↦ elim (compare_digest session p.session) [
      | err e ↦ (err e, s)
      | ok false ↦ (err (value_error "unknown approval"), s)
      | ok true ↦
          elim (ApprovalService.decide w.runtime u.session_key s.approvals request_id session
            verdict now) [
              | err e ↦ (err e, s)
              | ok (decided, table) ↦
                  settle request_id p decided issued t
                    (record s { approvals = table; pending = erase request_id s.pending })
            ]
    ]
  ]

-- ===== src/WebChat/Tests.antt =====
-- A chat that asks to send mail, and the answer to it (web_chat.py).
use openmuse.Common.{
  ℕ, ◌+◌, ◌<◌, codes, Text, decimal, digits_onto, text_eq, mem_text, ◌≡◌, ◌≢◌, ◌⊎◌, refl, subst,
  true, false, Option, none, some, List, [], ◌∷◌, ◌++◌, ◌==◌, arith, map, ◌%◌, if◌then◌else◌,
  lookup, insert, erase, Bool-cases, inl, inr, eq_iff, hex, hex_digit, from_hex, digit_value,
  split_once, pos, ◌+ℤ◌, All, Outcome, ok, err, value_error,
}
use openmuse.Common.Json.{Json, end, get, json_eq, size, has_key}
use openmuse.Models.{Action}
use openmuse.Runtime.{Runtime, RoundTrips, AsciiDigests}
use openmuse.Policy.{Risk, check, ask}
use openmuse.Registry.{Tool, RegisteredTool, descriptor, catalogue}
use openmuse.Samples.{send, memory_log}
use openmuse.Approvals.{
  payload, is_ascii, compare_digest, to_int, issue, decode, is_expired, check_payload, checked,
  settle, verify_token, consume,
}
use openmuse.Approvals
use openmuse.ApprovalService.{ApprovalRequest, session_of, create, check_request}
use openmuse.ApprovalService
use openmuse.Core.{
  Times, validate_arguments, audit_record, report, run_tool, decided, consult, execute,
}
use openmuse.Channels.{WebChannel, submit, receive}
use openmuse.Channels
use openmuse.WebChat.{
  WebHost, host, ChatPlanner, ChatEvent, Pending, ChatSession, Setup, Draws, append_line,
  join_lines, goal_of, clip, result_event, reply_of, action_object, destination, say, heard, finish,
  asked, pause, rounds, handle, run_approved, deny, is_stored, decide,
}
use openmuse.WebChat
use openmuse.WebChat.Reads.{OnlyReads, handle-OnlyReads}
use openmuse.WebChat.Decides.{Ruled, decide-Ruled, approved_action}
use openmuse.WebChat.Once.{Call, serve_all, decide-last}
use openmuse.WebChat.Linked.{Link, IsLinked, serve_all-IsLinked}
use openmuse.WebChat.Honoured.{decide-runs}
use openmuse.WebChat.Server.{Request, Draw, post}
use openmuse.WebChat.Server.Guards.{Admitted, post-Admitted}

-- Two texts of JSON: that of a token and that of a stored action.
abbrev is_payload : Json → Text
is_payload (Json.obj fs) = if has_key "exp" fs then codes "{}" else codes "[]"
is_payload v = codes "[]"

abbrev asked_action : Action
asked_action = record send { id = "n0" }

abbrev written : Text → Option Json
written t =
    if text_eq t (codes "{}")
    then some (payload asked_action (Json.num (pos 410)))
    else if text_eq t (codes "[]")
    then some (action_object asked_action)
    else none

abbrev mail_runtime : Runtime
mail_runtime = record {
  sha256 = λ t. t;
  hmac = λ k m. map (λ b. b % 128) (k ++ m);
  dumps = is_payload;
  loads = written;
  as_string = λ t. "";
  int_text = λ s. some (pos 2);
}

abbrev mail : WebHost
mail = record {
  runtime = mail_runtime;
  sink = memory_log;
  World = ℕ;
  validates = λ arguments schema. ok true;
  in_workspace = λ p. p;
}

abbrev mailer : Tool ℕ
mailer = record {
  name = some "send";
  risk = some Risk.represent;
  manifest = end;
  run = λ arguments n. (ok "sent", n + 1);
}

abbrev entry : RegisteredTool ℕ
entry = record { tool = mailer; risk = Risk.represent; descriptor = end }

-- Proposes to send at once.
abbrev eager : ChatPlanner (Unit {0})
eager = record { plan = λ goal tools history p. (ok (some send), p); last_reply = λ p. none }

abbrev setup : Setup mail (Unit {0})
setup = record {
  planner = eager;
  tools = ("send", entry) ∷ [];
  secret = 7 ∷ [];
  session_key = 9 ∷ [];
  identity = "local web chat user";
}

abbrev clock : Times
clock = record { checked = 120; decision = "d"; intent = "i"; outcome = "o" }

abbrev draws : Draws
draws = record { action_ids = λ n. "n0"; times = λ n. clock; request_id = "q"; now = 100 }

abbrev start : ChatSession mail (Unit {0})
start = record {
  agent = record {
    policy = record {
      allow_writes = false;
      approvals = some (record { secret = 7 ∷ []; used = [] });
    };
    log = [];
    world = 0;
  };
  planner = tt;
  approvals = [];
  channel = record { inbox = []; outbox = [] };
  transcripts = [];
  pending = [];
}

program : Unit {0}
unfolding WebChat.handle WebChat.decide rounds heard finish asked pause run_approved deny
    WebChat.settle say destination append_line join_lines goal_of clip result_event reply_of submit
    receive Channels.send create session_of ApprovalService.decide check_request execute consult
    decided run_tool report audit_record validate_arguments check ask descriptor catalogue lookup
    insert erase get size json_eq Approvals.verify verify_token checked check_payload is_expired
    to_int decode Approvals.settle consume compare_digest issue hex hex_digit from_hex digit_value
    split_once text_eq mem_text ◌+ℤ◌ decimal digits_onto
program = tt

abbrev waits : ChatSession mail (Unit {0})
waits = (handle mail setup 6 start "c" (codes "mail ann") draws).1

-- The message waits for an approval, and nothing was sent.
pauses :
    (lookup "q" waits.pending
      ≡ some (record {
        action = asked_action;
        conversation_id = "c";
        session = 9 ∷ 113 ∷ 46 ∷ 52 ∷ 48 ∷ 48 ∷ [];
      }))
    × (waits.agent.world ≡ 0)
unfolding program
pauses = (refl, refl)

abbrev session : Text
session = 9 ∷ 113 ∷ 46 ∷ 52 ∷ 48 ∷ 48 ∷ []

abbrev approves : Outcome (List ChatEvent) × ChatSession mail (Unit {0})
approves = decide mail setup waits "q" session "approved" 200 110 clock

-- Approved in time it is sent once; one second too late the service refuses.
sends :
    (approves.1.agent.world ≡ 1)
    × ((decide mail setup waits "q" session "approved" 400 110 clock).0
        ≡ err (value_error "approval expired"))
unfolding program
sends = (refl, refl)

handle-OnlyReads_example : OnlyReads mail setup 0 waits
handle-OnlyReads_example = handle-OnlyReads mail setup 6 start "c" (codes "mail ann") draws refl

decide-Ruled_example :
    (approves.1.agent.world ≡ waits.agent.world)
    ⊎ Ruled mail setup waits "q" session "approved" 200 110 clock approves.1
decide-Ruled_example = decide-Ruled mail setup waits "q" session "approved" 200 110 clock

taken : lookup "q" approves.1.pending ≢ lookup "q" waits.pending
unfolding program
taken h = cc

abbrev later : ChatSession mail (Unit {0})
later = serve_all mail setup 6 approves.1 (Call.message "c" (codes "again") draws ∷ [])

decide-last_example :
    decide mail setup later "q" session "approved" 210 110 clock
    ≡ (err (value_error "unknown approval"), later)
decide-last_example =
    decide-last mail setup 6 waits "q" session session "approved" "approved" 200 210 110 110 clock
      clock (Call.message "c" (codes "again") draws ∷ []) taken

none_pending : IsLinked mail setup start
unfolding lookup
none_pending id p h = absurd (cc)

abbrev first_message : List Call
first_message = Call.message "c" (codes "mail ann") draws ∷ []

serve_all-IsLinked_example : IsLinked mail setup waits
serve_all-IsLinked_example = serve_all-IsLinked mail setup 6 first_message start none_pending

mail-AsciiDigests : AsciiDigests mail_runtime
mail-AsciiDigests k m = below (k ++ m)
  where
    below : (t : Text) → All (λ c. c < 128) (map (λ b. b % 128) t)
    below [] = tt
    below (b ∷ t) = (omega arith, below t)

-- The state of the chat that waits, written out.
abbrev pending_mail : Pending
pending_mail = record { action = asked_action; conversation_id = "c"; session = session }

abbrev waiting_chat : ChatSession mail (Unit {0})
waiting_chat = record start {
  approvals =
      (
        "q",
        record {
          id = "q";
          action_json = codes "[]";
          identity = "local web chat user";
          destination = "send";
          expires_at = 400;
          status = "pending";
        },
      )
      ∷ [];
  pending = ("q", pending_mail) ∷ [];
}

link : Link mail setup "q" pending_mail waiting_chat.approvals
unfolding lookup session_of decimal digits_onto get
link = record {
  row = record {
    id = "q";
    action_json = codes "[]";
    identity = "local web chat user";
    destination = "send";
    expires_at = 400;
    status = "pending";
  };
  found = refl;
  named = refl;
  waits = refl;
  action_json = refl;
  session = refl;
}

linked : IsLinked mail setup waiting_chat
unfolding lookup
linked id p h = elim (Bool-cases ("q" == id)) [
  | inr differs ↦ absurd (ground (arith, h, differs))
  | inl same ↦
      let is_q : "q" ≡ id = (eq_iff "q" id).0 same in
      let is_p : pending_mail ≡ p = ground (arith, h, same) in
      subst (λ i. Link mail setup i p waiting_chat.approvals) is_q
        (subst (λ x. Link mail setup "q" x waiting_chat.approvals) is_p link)
]

expires_late :
    (q : ApprovalRequest) → lookup "q" waiting_chat.approvals ≡ some q → 200 < q.expires_at
unfolding lookup
expires_late q h = ground (arith, h)

found : lookup "q" waiting_chat.pending ≡ some pending_mail
unfolding lookup
found = refl

action_RoundTrips : RoundTrips mail_runtime (action_object asked_action)
unfolding text_eq json_eq get size
action_RoundTrips = record {
  read = action_object asked_action;
  reads = refl;
  same = refl;
  bytes = omega arith;
}

token_RoundTrips :
    RoundTrips mail_runtime
      (payload (approved_action mail setup pending_mail 110) (Json.num (pos 110 +ℤ pos 300)))
unfolding text_eq json_eq get size ◌+ℤ◌
token_RoundTrips = record {
  read = payload asked_action (Json.num (pos 410));
  reads = refl;
  same = refl;
  bytes = omega arith;
}

decide-runs_example :
    (decide mail setup waiting_chat "q" session "approved" 200 110 clock).1.agent.world ≡ 1
decide-runs_example =
    decide-runs mail setup waiting_chat linked "q" pending_mail found mail-AsciiDigests
      action_RoundTrips 200 110 clock
      (expires_late (linked "q" pending_mail found).row (linked "q" pending_mail found).found) []
      entry refl token_RoundTrips (unfold mem_text in refl) (omega arith)
      (unfold descriptor lookup in refl) (unfold validate_arguments get in refl) refl

abbrev posted : Request
posted = record {
  path = "/api/chat";
  csrf = codes "t";
  content_type = codes "application/json";
  content_length = "2";
  stream = codes "[]";
}

abbrev draw : Draw
draw = record { message = draws; now = 200; issued = 110; times = clock }

post-Admitted_example :
    ((post mail setup 6 (codes "t") draw posted start).1 ≡ start)
    ⊎ Admitted mail setup 6 (codes "t") draw posted start
post-Admitted_example = post-Admitted mail setup 6 (codes "t") draw posted start

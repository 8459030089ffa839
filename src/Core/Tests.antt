-- ===== src/Core/Tests.antt =====
-- The agent with one tool that sends mail, on approval (core.py, policy.py, registry.py).
use openmuse.Common.{String, ◌≡◌, ◌⊎◌, refl, false, some, List, [], ◌∷◌, ok, is_some, lookup}
use openmuse.Common.Json.{Json, Fields, field, end, get}
use openmuse.Policy.{Risk, check, ask}
use openmuse.Registry.{Tool, RegisteredTool, descriptor, catalogue}
use openmuse.Samples.{toy, send, counter, memory_log}
use openmuse.Core.{
  Host, State, Times, Tools, Planner, validate_arguments, report, run_tool, decided, consult,
  execute, run_steps, run,
}
use openmuse.Core.Gate.{Ran, execute-gate}

abbrev mail : Host
mail = record {
  runtime = toy;
  authority = counter;
  sink = memory_log;
  World = List String;
  validates = λ arguments schema. ok (is_some (get "to" arguments));
}

abbrev manifest : Fields
manifest =
    field "name" (Json.str "send")
      (field "risk" (Json.str "represent") (field "schema" (Json.obj end) end))

abbrev mailer : Tool (List String)
mailer = record {
  name = some "send";
  risk = some Risk.represent;
  manifest = manifest;
  run = λ arguments w. (ok "sent", "mail" ∷ w);
}

abbrev entry : RegisteredTool (List String)
entry = record { tool = mailer; risk = Risk.represent; descriptor = manifest }

abbrev tools : Tools mail
tools = ("send", entry) ∷ []

abbrev clock : Times
clock = record { checked = 5; decision = "d"; intent = "i"; outcome = "o" }

-- One approval is left, writes are off.
abbrev start : State mail
start = record {
  policy = record { allow_writes = false; approvals = some 1 };
  log = [];
  world = [];
}

-- Sends until it is stopped.
abbrev again : Planner (Unit {0})
again catalogue history p = (some send, p)

program : Unit {0}
unfolding execute consult decided run_tool report run_steps run check ask validate_arguments
    descriptor lookup get
program = tt

sends : (execute mail tools send clock start).1.world ≡ "mail" ∷ []
unfolding program
sends = refl

-- The second mail is blocked, and ends the run.
run_again : (run mail tools again (λ n. clock) 5 tt start).1.world ≡ "mail" ∷ []
unfolding program
run_again = refl

execute-gate_example :
    ((execute mail tools send clock start).1.world ≡ [])
    ⊎ Ran mail tools send clock start (execute mail tools send clock start).1
execute-gate_example = execute-gate mail tools send clock start

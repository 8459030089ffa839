-- ===== src/WebChat/Reads.antt =====
-- What a chat message can do to the outside world (web_chat.py).
use openmuse.Common.{ℕ, String, Text, ◌≡◌, inl, inr, refl, true, false, none, some, arith, ◌∙◌, ok}
use openmuse.Common.Json.{Fields, get}
use openmuse.Models.{Action}
use openmuse.Policy.{Risk, Policy, Decision, check}
use openmuse.Policy.Check.{Reason, check-allowed}
use openmuse.Approvals
use openmuse.Registry.{RegisteredTool, descriptor}
use openmuse.Core.{State, Times, validate_arguments, execute}
use openmuse.Core.Gate.{execute-gate}
use openmuse.Core.Policies.{execute-allow_writes}
use openmuse.Delegation.{host_authority}
use openmuse.WebChat.Rounds.{Keeps, handle-keeps}
use openmuse.WebChat.{WebHost, host, ChatSession, Setup, Draws, own_action, handle}

module _ (w : WebHost) {P : Type 0} (u : Setup w P) where
  -- The second world is the first one after some runs of registered tools whose risk is reading, each
  -- on arguments that its schema accepts.
  pub data Reads (x : w.World) : w.World → Type 0 where
    here : Reads x x
    next :
        {y z : w.World} (entry : RegisteredTool w.World) (arguments : Fields) (name : String)
        → Reads x y
        → descriptor u.tools name ≡ some entry
        → entry.risk ≡ Risk.read
        → validate_arguments (host w) arguments (get "schema" entry.descriptor) ≡ ok true
        → z ≡ (entry.tool.run arguments y).1
        → Reads x z

  -- Without a token and with writes off, only reads are let through.
  check-read :
      (p : Policy (host_authority w.runtime)) (risk : Risk) (action : Action) (now : ℕ)
      (d : Decision)
      → p.allow_writes ≡ false
      → action.approval_token ≡ none
      → (check (host_authority w.runtime) p risk action now).0 ≡ ok d
      → d.allowed ≡ true
      → risk ≡ Risk.read
  unfolding Approvals.verify
  check-read p risk action now d off bare h k =
      elim (check-allowed (host_authority w.runtime) p risk action now d h k) [
        | Reason.reads e same ↦ e
        | Reason.writes e on same ↦ absurd (ground (arith, on, off))
        | Reason.approved given ↦ let v = given.verified in absurd (refuses given.state v)
      ]
    where
      refuses :
          (a : Approvals.ApprovalAuthority)
          → (Approvals.verify w.runtime a action action.approval_token now).0 ≡ ok true
          → ⊥
      refuses a v = ground (arith, bare, v)

  execute-Reads :
      {x : w.World} (action : Action) (t : Times) (s : State (host w))
      → s.policy.allow_writes ≡ false
      → action.approval_token ≡ none
      → Reads x s.world
      → Reads x (execute (host w) u.tools action t s).1.world
  execute-Reads {x} action t s off bare r = elim (execute-gate (host w) u.tools action t s) [
    | inl same ↦ rw same r
    | inr ran ↦
        Reads.next ran.entry action.arguments action.tool r ran.found
          (check-read s.policy ran.entry.risk action t.checked ran.decision off bare ran.checked
            ran.allowed)
          ran.valid ran.ran
  ]

  -- The world is as it was but for reads, and writes are still off.
  abbrev pub OnlyReads : w.World → ChatSession w P → Type 0
  OnlyReads x s = Reads x s.agent.world × (s.agent.policy.allow_writes ≡ false)

  -- A message, whatever the planner proposes and whichever way its handling ends, changes the outside
  -- world by reads only, where writes are off: everything else waits for a decision. Writes stay off.
  pub handle-OnlyReads :
      (max_steps : ℕ) (s : ChatSession w P) (conversation : String) (text : Text) (d : Draws)
      → s.agent.policy.allow_writes ≡ false
      → OnlyReads s.agent.world (handle w u max_steps s conversation text d).1
  handle-OnlyReads max_steps s conversation text d off =
      handle-keeps w u (OnlyReads s.agent.world) rules max_steps s conversation text
        (Reads.here, off)
    where
      rules : Keeps w u (OnlyReads s.agent.world) d
      rules = record {
        hears = λ s' c t only. only;
        plans = λ s' p only. only;
        asks = λ s' proposed id conversation' q session table made only. only;
        executes = λ s' proposed id t only. (
          execute-Reads (own_action proposed id) t s'.agent only.1 refl only.0,
          execute-allow_writes (host w) u.tools (own_action proposed id) t s'.agent ∙ only.1,
        );
      }

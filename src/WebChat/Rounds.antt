-- ===== src/WebChat/Rounds.antt =====
-- What every message keeps: a rule for the loop of `ChatSession.handle` (web_chat.py).
use openmuse.Common.{
  ℕ, zero, suc, String, Text, ◌≡◌, refl, Option, none, some, List, [], ◌∷◌, ◌++◌, Outcome, ok, err,
  Exception, Bool-cases, Outcome-cases, ◌⊎◌, inl, inr, if◌then◌else◌, insert, Dict,
}
use openmuse.Models.{Action, ToolResult}
use openmuse.ApprovalService.{ApprovalRequest, Table, create}
use openmuse.Registry.{catalogue}
use openmuse.Core.{State, Times, execute}
use openmuse.Channels.{WebChannel, IncomingMessage, submit, receive}
use openmuse.WebChat.{
  WebHost, host, ChatEvent, ChatSession, Setup, Draws, needs_approval, is_completed, own_action,
  result_event, destination, heard, say, finish, asked, pause, rounds, handle,
}

module _ (w : WebHost) {P : Type 0} (u : Setup w P) (Inv : ChatSession w P → Type 0) where
  -- Each change that handling a message makes to the session keeps `Inv`.
  pub record Keeps (d : Draws) : Type 0 where
    pub hears :
        (s : ChatSession w P) (channel : WebChannel) (transcripts : Dict (List (Text × Text)))
        → Inv s
        → Inv (record s { channel = channel; transcripts = transcripts })
    pub plans : (s : ChatSession w P) (p : P) → Inv s → Inv (record s { planner = p })
    pub executes :
        (s : ChatSession w P) (proposed : Action) (id : String) (t : Times)
        → Inv s
        → Inv (record s { agent = (execute (host w) u.tools (own_action proposed id) t s.agent).1 })
    pub asks :
        (s : ChatSession w P) (proposed : Action) (id conversation : String) (q : ApprovalRequest)
        (session : Text) (table : Table)
        → create w.runtime u.session_key s.approvals
            (own_action proposed id)
            u.identity
            (destination w (own_action proposed id))
            300
            d.request_id
            d.now
          ≡ ok ((q, session), table)
        → Inv s
        → Inv (record s {
          approvals = table;
          pending =
              insert q.id
                (record {
                  action = own_action proposed id;
                  conversation_id = conversation;
                  session = session;
                })
                s.pending;
        })

  module _ {d : Draws} (keeps : Keeps d) where
    finish-keeps :
        (conversation : String) (events : List ChatEvent) (history : List ToolResult)
        (s : ChatSession w P)
        → Inv s
        → Inv (finish w u conversation events history s).1
    unfolding finish say
    finish-keeps conversation events history s i = keeps.hears s _ _ i

    pause-keeps :
        (conversation : String) (proposed : Action) (id : String) (events : List ChatEvent)
        (s : ChatSession w P)
        → Inv s
        → Inv (pause w u d conversation (own_action proposed id) events s).1
    unfolding pause asked say
    pause-keeps conversation proposed id events s i =
        by_made
          (create w.runtime u.session_key s.approvals (own_action proposed id) u.identity
            (destination w (own_action proposed id)) 300 d.request_id d.now)
          refl
      where
        by_made :
            (o : Outcome ((ApprovalRequest × Text) × Table))
            → create w.runtime u.session_key s.approvals
                (own_action proposed id)
                u.identity
                (destination w (own_action proposed id))
                300
                d.request_id
                d.now
              ≡ o
            → Inv (asked w u conversation (own_action proposed id) events s o).1
        by_made (err x) e = i
        by_made (ok ((q, session), table)) e =
            keeps.hears _ _ _ (keeps.asks s proposed id conversation q session table e i)

    abbrev planned : Text → List ToolResult → ChatSession w P → ChatSession w P
    planned goal history s = record s {
      planner = (u.planner.plan goal (catalogue u.tools) history s.planner).1;
    }

    abbrev ran : ℕ → Action → ChatSession w P → Outcome ToolResult × State (host w)
    ran n proposed s =
        execute (host w) u.tools (own_action proposed (d.action_ids n)) (d.times n) s.agent

    abbrev Rest : Text → ℕ → String → Type 0
    Rest goal n conversation =
        (events : List ChatEvent) (history : List ToolResult) (s : ChatSession w P)
        → Inv s
        → Inv (rounds w u d conversation goal n events history s).1

    rounds-suc :
        (conversation : String) (goal : Text) (n : ℕ)
        → Rest goal n conversation
        → Rest goal (suc n) conversation
    unfolding rounds
    rounds-suc conversation goal n rest events history s i =
        by_plan (Outcome-cases (u.planner.plan goal (catalogue u.tools) history s.planner).0)
      where
        by_result :
            (proposed : Action) (result : ToolResult) (s' : ChatSession w P)
            → Inv s'
            → let more =
                rounds w u d conversation goal n
                  (events ++ result_event (own_action proposed (d.action_ids n)) result ∷ [])
                  (history ++ result ∷ [])
                  s' in
              Inv
                (if needs_approval result
                  then pause w u d conversation (own_action proposed (d.action_ids n)) events s'
                  else if is_completed result.status
                  then more
                  else finish w u conversation
                      (events ++ result_event (own_action proposed (d.action_ids n)) result ∷ [])
                      (history ++ result ∷ [])
                      s').1
        by_result proposed result s' i' = elim (Bool-cases (needs_approval result)) [
          | inl asks ↦ rw asks (pause-keeps conversation proposed (d.action_ids n) events s' i')
          | inr runs ↦ elim (Bool-cases (is_completed result.status)) [
            | inl done ↦ rw (runs, done) (rest _ _ s' i')
            | inr fails ↦ rw (runs, fails) (finish-keeps conversation _ _ s' i')
          ]
        ]

        by_execute :
            (proposed : Action)
            → (u.planner.plan goal (catalogue u.tools) history s.planner).0 ≡ ok (some proposed)
            → Inv (record (planned goal history s) { agent = (ran n proposed s).1 })
            → ((result : ToolResult) × ((ran n proposed s).0 ≡ ok result))
              ⊎ ((x : Exception) × ((ran n proposed s).0 ≡ err x))
            → Inv (rounds w u d conversation goal (suc n) events history s).1
        by_execute proposed e after (inr (x, e')) = rw (e, e', rounds) after
        by_execute proposed e after (inl (result, e')) =
            rw (e, e', rounds)
              (by_result proposed result
                (record (planned goal history s) { agent = (ran n proposed s).1 }) after)

        by_plan :
            ((proposal : Option Action) × ((u.planner.plan goal
                    (catalogue u.tools)
                    history
                    s.planner).0
                  ≡ ok proposal))
              ⊎ ((x : Exception) × ((u.planner.plan goal (catalogue u.tools) history s.planner).0
                    ≡ err x))
            → Inv (rounds w u d conversation goal (suc n) events history s).1
        by_plan (inr (x, e)) =
            rw (e, rounds)
              (keeps.plans s (u.planner.plan goal (catalogue u.tools) history s.planner).1 i)
        by_plan (inl (none, e)) =
            rw (e, rounds)
              (finish-keeps conversation events history (planned goal history s)
                (keeps.plans s (u.planner.plan goal (catalogue u.tools) history s.planner).1 i))
        by_plan (inl (some proposed, e)) =
            by_execute proposed e
              (keeps.executes (planned goal history s) proposed (d.action_ids n) (d.times n)
                (keeps.plans s (u.planner.plan goal (catalogue u.tools) history s.planner).1 i))
              (Outcome-cases (ran n proposed s).0)

    rounds-keeps : (conversation : String) (goal : Text) (n : ℕ) → Rest goal n conversation
    unfolding rounds
    rounds-keeps conversation goal zero events history s i =
        finish-keeps conversation events history s i
    rounds-keeps conversation goal (suc n) events history s i =
        rounds-suc conversation goal n (rounds-keeps conversation goal n) events history s i

    heard-keeps :
        (conversation : String) (s : ChatSession w P) (o : Option IncomingMessage × WebChannel)
        → Inv s
        → Inv (heard w s conversation o).1
    unfolding heard
    heard-keeps conversation s (none, channel) i = keeps.hears s channel s.transcripts i
    heard-keeps conversation s (some m, channel) i = keeps.hears s channel _ i

    -- Whichever way the handling of a message ends, `Inv` holds of the session after it.
    pub handle-keeps :
        (max_steps : ℕ) (s : ChatSession w P) (conversation : String) (text : Text)
        → Inv s
        → Inv (handle w u max_steps s conversation text d).1
    unfolding handle
    handle-keeps max_steps s conversation text i =
        let o = receive (submit s.channel conversation "local-user" text) in
        elim (Outcome-cases (heard w s conversation o).0) [
          | inr (x, e) ↦ rw (e, handle) (heard-keeps conversation s o i)
          | inl (goal, e) ↦
              rw (e, handle)
                (rounds-keeps conversation goal max_steps [] [] _ (heard-keeps conversation s o i))
        ]

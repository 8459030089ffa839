-- ===== src/WebChat/Honoured.antt =====
-- What a person's answer in time brings about (web_chat.py, approval_service.py, approvals.py).
use openmuse.Common.{
  ℕ, ◌<◌, ◌+◌, String, Text, mem_text, ◌≡◌, refl, ap, ◌∙◌, true, false, some, List, ◌∷◌, arith, pos,
  leb, leb_ℤ, ◌+ℤ◌, Outcome, ok, ◌==◌, eq_iff, lookup, insert, erase,
}
use openmuse.Common.Json.{Json, get}
use openmuse.Policy.Check.{check-given}
use openmuse.Runtime.{RoundTrips, AsciiDigests}
use openmuse.Approvals.{ApprovalAuthority, compare_digest, payload, issue, verify}
use openmuse.Approvals.Issue.{compare_digest_refl, verify-issue}
use openmuse.ApprovalService.{ApprovalRequest, Table, session_of, is_verdict, check_request}
use openmuse.ApprovalService
use openmuse.Registry.{RegisteredTool, descriptor}
use openmuse.Core.{Times, validate_arguments}
use openmuse.Core.Gate.{intent_record}
use openmuse.Core.Runs.{execute-ran}
use openmuse.Delegation.{host_authority}
use openmuse.WebChat.{
  WebHost, host, ChatEvent, Pending, ChatSession, Setup, action_object, decide, is_stored, settle,
  run_approved, deny,
}
use openmuse.WebChat.Decides.{approved_action, run_approved-agent}
use openmuse.WebChat.Linked.{Link, IsLinked}

unexpired : (issued now : ℕ) → now < issued + 300 → leb_ℤ (pos issued +ℤ pos 300) (pos now) ≡ false
unfolding ◌+ℤ◌
unexpired issued now h = ground arith

module _ (w : WebHost) {P : Type 0} (u : Setup w P) where
  session_holds :
      (id : String) (p : Pending) (t : Table) (l : Link w u id p t)
      → AsciiDigests w.runtime
      → compare_digest p.session p.session ≡ ok true
  unfolding session_of
  session_holds id p t l ascii = rw l.session (
      compare_digest_refl (session_of w.runtime u.session_key id l.row.expires_at)
        (ascii u.session_key _))

  row_passes :
      (id : String) (p : Pending) (t : Table) (now : ℕ) (l : Link w u id p t)
      → AsciiDigests w.runtime
      → now < l.row.expires_at
      → check_request w.runtime u.session_key l.row p.session now ≡ ok tt
  unfolding check_request
  row_passes id p t now l ascii early =
      let same : session_of w.runtime u.session_key l.row.id l.row.expires_at ≡ p.session =
        cc (l.session, l.named) in
      let is_early : leb l.row.expires_at now ≡ false = ground (arith, early) in
      let waits : (l.row.status == "pending") ≡ true = (eq_iff l.row.status "pending").1 l.waits in
      rw (same, session_holds id p t l ascii, is_early, waits) refl

  service-decides :
      (id : String) (p : Pending) (t : Table) (v : String) (now : ℕ) (l : Link w u id p t)
      → AsciiDigests w.runtime
      → is_verdict v ≡ true
      → now < l.row.expires_at
      → (compare_digest p.session p.session ≡ ok true)
        × (ApprovalService.decide w.runtime u.session_key t id p.session v now
            ≡ ok (record l.row { status = v }, insert id (record l.row { status = v }) t))
  unfolding ApprovalService.decide
  service-decides id p t v now l ascii valid early = (
    session_holds id p t l ascii,
    ground (arith, valid, l.found, row_passes id p t now l ascii early),
  )

  module _ (s : ChatSession w P) (linked : IsLinked w u s) (id : String) (p : Pending)
      (found : lookup id s.pending ≡ some p) (ascii : AsciiDigests w.runtime)
      (read_back : RoundTrips w.runtime (action_object p.action)) (now issued : ℕ) (t : Times)
      (early : now < (linked id p found).row.expires_at) where
    -- The session after the service has ruled.
    abbrev pub ruled : String → ChatSession w P
    ruled v = record s {
      approvals = insert id (record (linked id p found).row { status = v }) s.approvals;
      pending = erase id s.pending;
    }

    decide-settles :
        (v : String)
        → is_verdict v ≡ true
        → decide w u s id p.session v now issued t
          ≡ settle w u id p (record (linked id p found).row { status = v }) issued t (ruled v)
    unfolding decide
    decide-settles v valid =
        let (holds, decides) =
          service-decides id p s.approvals v now (linked id p found) ascii valid early in
        rw (found, holds, decides, decide) refl

    is_own :
        (v : String)
        → is_stored w u (w.runtime.loads (linked id p found).row.action_json) p.action ≡ true
    is_own v = ground (arith, (linked id p found).action_json, read_back.reads, read_back.same)

    -- An answer in time, on the session of the request, is carried out: a denial is reported and
    -- nothing runs, an approval goes on to the execution under a fresh token. No other check can fail.
    pub decide-honoured :
        (decide w u s id p.session "denied" now issued t ≡ deny w u id p (ruled "denied"))
        × (decide w u s id p.session "approved" now issued t
            ≡ run_approved w u id p issued t (ruled "approved"))
    unfolding settle
    decide-honoured = (
      decide-settles "denied" refl ∙ ground (arith, is_own "denied"),
      decide-settles "approved" refl ∙ ground (arith, is_own "approved"),
    )

    -- The world after an approval in time is the one after the tool of the pending action has run on
    -- its arguments: the token that is issued for it passes the policy, where the tool is registered,
    -- the schema accepts the arguments, the token is new and the log takes the intent.
    pub decide-runs :
        (used : List Text) (entry : RegisteredTool w.World)
        → s.agent.policy.approvals ≡ some (record { secret = u.secret; used = used })
        → RoundTrips w.runtime
            (payload (approved_action w u p issued) (Json.num (pos issued +ℤ pos 300)))
        → mem_text
            (issue w.runtime (record { secret = u.secret; used = used }) p.action (pos 300) issued)
            used
          ≡ false
        → t.checked < issued + 300
        → descriptor u.tools p.action.tool ≡ some entry
        → validate_arguments (host w) p.action.arguments (get "schema" entry.descriptor) ≡ ok true
        → (w.sink.append s.agent.log
            (intent_record (host w) u.tools (approved_action w u p issued) t)).0
          ≡ ok tt
        → (decide w u s id p.session "approved" now issued t).1.agent.world
          ≡ (entry.tool.run p.action.arguments s.agent.world).1
    unfolding issue
    decide-runs used entry holds written fresh in_time registered valid intended =
        let action = approved_action w u p issued in
        let a : ApprovalAuthority = record { secret = u.secret; used = used } in
        let accepted =
          verify-issue w.runtime a action (pos 300) issued t.checked written ascii fresh in
        let after : ApprovalAuthority = record a {
          used = issue w.runtime a action (pos 300) issued ∷ used;
        } in
        let accepts : verify w.runtime a action action.approval_token t.checked ≡ (ok true, after) =
          accepted ∙ rw (unexpired issued t.checked in_time) refl in
        let (decision, checked, allowed) =
          check-given (host_authority w.runtime) s.agent.policy entry.risk action t.checked a after
            holds accepts in
        let (agent, _, _) = run_approved-agent w u id p issued t (ruled "approved") in
        ap (λ (o : Outcome (List ChatEvent) × ChatSession w P). o.1.agent.world) decide-honoured.1
        ∙ ap (λ x. x.world) agent
        ∙ execute-ran (host w) u.tools action t s.agent entry decision registered valid checked
            allowed intended

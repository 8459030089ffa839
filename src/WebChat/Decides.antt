-- ===== src/WebChat/Decides.antt =====
-- What a decision on a pending request does (web_chat.py).
use openmuse.Common.{
  ℕ, String, Text, ◌≡◌, ◌⊎◌, inl, inr, refl, sym, ap, ◌∙◌, subst, true, false, none, some, [],
  arith, pos, ok, Bool-cases, Option-cases, Outcome-cases, ◌==◌, eq_iff, eq_refl, lookup, erase,
  lookup-erase,
}
use openmuse.Models.{Action}
use openmuse.Approvals.{compare_digest, issue}
use openmuse.ApprovalService.{ApprovalRequest, Table}
use openmuse.ApprovalService
use openmuse.Core.{Times, execute}
use openmuse.Core.Gate.{Ran, execute-gate}
use openmuse.WebChat.{
  WebHost, host, Pending, ChatSession, Setup, say, run_approved, deny, is_stored, settle, decide,
}

module _ (w : WebHost) {P : Type 0} (u : Setup w P) where
  -- The pending action under the token that the authority issues for it.
  abbrev pub approved_action : Pending → ℕ → Action
  approved_action p issued = record p.action {
    approval_token =
        some (issue w.runtime (record { secret = u.secret; used = [] }) p.action (pos 300) issued);
  }

  -- The action of a pending request ran: the session is the request's own, the service has decided it
  -- as approved, what the service stored is the pending action, and the request is pending no more.
  pub record Ruled (s : ChatSession w P) (id : String) (session : Text) (verdict : String)
      (now issued : ℕ) (t : Times) (after : ChatSession w P) : Type 0 where
    pub entry : Pending
    pub waiting : lookup id s.pending ≡ some entry
    pub holder : compare_digest session entry.session ≡ ok true
    pub request : ApprovalRequest
    pub table : Table
    pub ruled :
        ApprovalService.decide w.runtime u.session_key s.approvals id session verdict now
        ≡ ok (request, table)
    pub stored : is_stored w u (w.runtime.loads request.action_json) entry.action ≡ true
    pub approved : request.status ≡ "approved"
    pub ran : Ran (host w) u.tools (approved_action entry issued) t s.agent after.agent
    pub gone : lookup id after.pending ≡ none
    pub kept : after.approvals ≡ table

  pub run_approved-agent :
      (id : String) (p : Pending) (issued : ℕ) (t : Times) (s : ChatSession w P)
      → let after = (run_approved w u id p issued t s).1 in
        (after.agent ≡ (execute (host w) u.tools (approved_action p issued) t s.agent).1)
        × (after.pending ≡ s.pending)
        × (after.approvals ≡ s.approvals)
  unfolding run_approved say
  run_approved-agent id p issued t s =
      elim (Outcome-cases (execute (host w) u.tools (approved_action p issued) t s.agent).0) [
        | inl (result, e) ↦ rw (e, run_approved) (refl, refl, refl)
        | inr (x, e) ↦ rw (e, run_approved) (refl, refl, refl)
      ]

  module _ (s : ChatSession w P) (id : String) (session : Text) (verdict : String) (now issued : ℕ)
      (t : Times) where
    -- The session once the service has decided.
    abbrev ruled_session : Table → ChatSession w P
    ruled_session table = record s { approvals = table; pending = erase id s.pending }

    erased : lookup id (erase id s.pending) ≡ none
    erased = ground (arith, lookup-erase id id s.pending, eq_refl id)

    ran_or_same :
        (p : Pending) (q : ApprovalRequest) (table : Table) {after : ChatSession w P}
        → lookup id s.pending ≡ some p
        → compare_digest session p.session ≡ ok true
        → ApprovalService.decide w.runtime u.session_key s.approvals id session verdict now
          ≡ ok (q, table)
        → is_stored w u (w.runtime.loads q.action_json) p.action ≡ true
        → q.status ≡ "approved"
        → after.agent ≡ (execute (host w) u.tools (approved_action p issued) t s.agent).1
        → after.pending ≡ erase id s.pending
        → after.approvals ≡ table
        → ((execute (host w) u.tools (approved_action p issued) t s.agent).1.world ≡ s.agent.world)
          ⊎ Ran
              (host w)
              u.tools
              (approved_action p issued)
              t
              s.agent
              (execute (host w) u.tools (approved_action p issued) t s.agent).1
        → (after.agent.world ≡ s.agent.world) ⊎ Ruled s id session verdict now issued t after
    ran_or_same p q table found holds ruled same approved agent pending approvals (inl still) =
        inl (ap (λ a. a.world) agent ∙ still)
    ran_or_same p q table found holds ruled same approved agent pending approvals (inr ran) =
        inr (record {
          entry = p;
          waiting = found;
          holder = holds;
          request = q;
          table = table;
          ruled = ruled;
          stored = same;
          approved = approved;
          ran =
              subst (λ a. Ran (host w) u.tools (approved_action p issued) t s.agent a) (sym agent)
                ran;
          gone = ap (lookup id) pending ∙ erased;
          kept = approvals;
        })

    settle-cases :
        (p : Pending) (q : ApprovalRequest) (table : Table)
        → lookup id s.pending ≡ some p
        → compare_digest session p.session ≡ ok true
        → ApprovalService.decide w.runtime u.session_key s.approvals id session verdict now
          ≡ ok (q, table)
        → let after = (settle w u id p q issued t (ruled_session table)).1 in
          (after.pending ≡ erase id s.pending)
          × (after.approvals ≡ table)
          × ((after.agent.world ≡ s.agent.world) ⊎ Ruled s id session verdict now issued t after)
    unfolding settle deny say
    settle-cases p q table found holds ruled =
        elim (Bool-cases (is_stored w u (w.runtime.loads q.action_json) p.action)) [
          | inr differs ↦ rw (differs, settle) (refl, refl, inl refl)
          | inl same ↦ elim (Bool-cases (q.status == "approved")) [
            | inr denied ↦ rw (same, denied, settle) (refl, refl, inl refl)
            | inl approved ↦
                let (agent, pending, approvals) =
                  run_approved-agent id p issued t (ruled_session table) in
                rw (same, approved, settle)
                  (
                    pending,
                    approvals,
                    ran_or_same p q table found holds ruled same
                        ((eq_iff q.status "approved").0 approved) agent pending approvals
                        (execute-gate (host w) u.tools (approved_action p issued) t s.agent),
                  )
          ]
        ]

    -- A decision leaves the outside world as it was, or it ran the action of a request that was pending,
    -- on a valid session, as approved by the service in time, from what the service has stored, and
    -- under a token issued for this action; the request is then gone.
    pub decide-Ruled :
        let after = (decide w u s id session verdict now issued t).1 in
        (after.agent.world ≡ s.agent.world) ⊎ Ruled s id session verdict now issued t after
    unfolding decide
    decide-Ruled = elim (Option-cases (lookup id s.pending)) [
      | inl missing ↦ rw (missing, decide) (inl refl)
      | inr (p, found) ↦ elim (Outcome-cases (compare_digest session p.session)) [
        | inr (x, raised) ↦ rw (found, raised, decide) (inl refl)
        | inl (true, holds) ↦
            elim (Outcome-cases
              (ApprovalService.decide w.runtime u.session_key s.approvals id session verdict now)) [
                | inr (x, e) ↦ rw (found, holds, e, decide) (inl refl)
                | inl ((q, table), e) ↦
                    rw (found, holds, e, decide) (settle-cases p q table found holds e).2
              ]
        | inl (false, differs) ↦ rw (found, differs, decide) (inl refl)
      ]
    ]

    -- A decision leaves the session as it was, or the service has ruled and the request is gone.
    pub decide-pending :
        let after = (decide w u s id session verdict now issued t).1 in
        (after ≡ s)
        ⊎ ((q : ApprovalRequest) × (table : Table) × (ApprovalService.decide w.runtime u.session_key
                s.approvals id session verdict now
              ≡ ok (q, table))
            × (after.pending ≡ erase id s.pending)
            × (after.approvals ≡ table))
    unfolding decide
    decide-pending = elim (Option-cases (lookup id s.pending)) [
      | inl missing ↦ inl (rw (missing, decide) refl)
      | inr (p, found) ↦ elim (Outcome-cases (compare_digest session p.session)) [
        | inr (x, raised) ↦ inl (rw (found, raised, decide) refl)
        | inl (true, holds) ↦
            elim (Outcome-cases
              (ApprovalService.decide w.runtime u.session_key s.approvals id session verdict now)) [
                | inr (x, e) ↦ inl (rw (found, holds, e, decide) refl)
                | inl ((q, table), e) ↦
                    let (pending, approvals, _) = settle-cases p q table found holds e in
                    inr (
                      q,
                      table,
                      e,
                      rw (found, holds, e, decide) pending,
                      rw (found, holds, e, decide) approvals,
                    )
              ]
        | inl (false, differs) ↦ inl (rw (found, differs, decide) refl)
      ]
    ]

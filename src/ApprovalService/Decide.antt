-- ===== src/ApprovalService/Decide.antt =====
-- When a decision is taken, and that it is taken once (approval_service.py).
use openmuse.Common.{
  ℕ, ◌<◌, String, Text, ◌≡◌, ◌≢◌, ◌⊎◌, inl, inr, true, some, [], ◌∷◌, ◌==◌, eq_iff, eq_refl, arith,
  lookup, insert, lookup-insert, ok, Bool-cases, Option-cases, Outcome-cases,
}
use openmuse.Runtime.{Runtime}
use openmuse.Approvals.{compare_digest}
use openmuse.ApprovalService.{
  ApprovalRequest, Table, restart, is_verdict, session_of, check_request, decide,
}

module _ (r : Runtime) (session_key : Text) where
  check_request-ok :
      (q : ApprovalRequest) (session : Text) (now : ℕ)
      → check_request r session_key q session now ≡ ok tt
      → (compare_digest session (session_of r session_key q.id q.expires_at) ≡ ok true)
        × (now < q.expires_at)
        × (q.status ≡ "pending")
  unfolding check_request
  check_request-ok q session now h =
      elim (Outcome-cases (compare_digest session (session_of r session_key q.id q.expires_at))) [
        | inr (x, e) ↦ absurd (ground (arith, e, h))
        | inl (b, e) ↦ (
          ground (arith, e, h),
          ground (arith, e, h),
          ground (arith, e, h, eq_iff q.status "pending"),
        )
      ]

  -- What a decision has checked, what it returns and what it stores.
  pub record Decided (t : Table) (id : String) (session : Text) (decision : String) (now : ℕ)
      (q' : ApprovalRequest) (t' : Table) : Type 0 where
    pub request : ApprovalRequest
    pub stored : lookup id t ≡ some request
    pub verdict : (decision ≡ "approved") ⊎ (decision ≡ "denied")
    pub authenticated :
        compare_digest session (session_of r session_key request.id request.expires_at) ≡ ok true
    pub unexpired : now < request.expires_at
    pub pending : request.status ≡ "pending"
    pub result : q' ≡ record request { status = decision }
    pub after : t' ≡ insert id (record request { status = decision }) t

  verdict-cases : (d : String) → is_verdict d ≡ true → (d ≡ "approved") ⊎ (d ≡ "denied")
  verdict-cases d h = ground (arith, eq_iff d "approved", eq_iff d "denied")

  -- A decision that is returned was on a stored request, still pending and not expired, by the
  -- holder of its session; the table then differs in that request's status alone.
  pub decide-Decided :
      (t t' : Table) (id : String) (session : Text) (decision : String) (now : ℕ)
      (q' : ApprovalRequest)
      → decide r session_key t id session decision now ≡ ok (q', t')
      → Decided t id session decision now q' t'
  unfolding decide
  decide-Decided t t' id session decision now q' h = elim (Option-cases (lookup id t)) [
    | inl e ↦ absurd (ground (arith, e, h))
    | inr (q, e) ↦ elim (Outcome-cases (check_request r session_key q session now)) [
      | inr (x, f) ↦ absurd (ground (arith, e, f, h))
      | inl (u, f) ↦
          let (signed, early, waits) = check_request-ok q session now f in
          record {
            request = q;
            stored = e;
            verdict = verdict-cases decision (ground (arith, e, f, h));
            authenticated = signed;
            unexpired = early;
            pending = waits;
            result = ground (arith, e, f, h);
            after = ground (arith, e, f, h);
          }
    ]
  ]

  -- A request is no longer pending, whichever way it was left so.
  abbrev pub IsClosed : Table → String → Type 0
  IsClosed t id = (q : ApprovalRequest) → lookup id t ≡ some q → q.status ≢ "pending"

  -- A closed request is never decided, by any session and at any time.
  closed-refused :
      (t : Table) (id : String) (session : Text) (decision : String) (now : ℕ)
      → IsClosed t id
      → (x : ApprovalRequest × Table) → decide r session_key t id session decision now ≢ ok x
  closed-refused t id session decision now closed (q', t') h =
      let d = decide-Decided t t' id session decision now q' h in
      closed d.request d.stored d.pending

  -- A closed request stays closed under decisions on any request.
  pub IsClosed-stays :
      (t t' : Table) (id other_id : String) (session : Text) (decision : String) (now : ℕ)
      (q' : ApprovalRequest)
      → IsClosed t id
      → decide r session_key t other_id session decision now ≡ ok (q', t')
      → IsClosed t' id
  IsClosed-stays t t' id other_id session decision now q' closed h q found =
      let d = decide-Decided t t' other_id session decision now q' h in
      let q'' : ApprovalRequest = record d.request { status = decision } in
      elim (Bool-cases (other_id == id)) [
        | inr other ↦
            closed q (ground (arith, d.after, found, other, lookup-insert other_id id q'' t))
        | inl same ↦
            absurd (closed d.request (ground (arith, d.stored, same, eq_iff other_id id)) d.pending)
      ]

  -- A request is decided at most once: after a decision on it every further one raises.
  pub decide_once :
      (t t' : Table) (id : String) (session session' : Text) (decision decision' : String)
      (now now' : ℕ) (q' : ApprovalRequest) (x : ApprovalRequest × Table)
      → decide r session_key t id session decision now ≡ ok (q', t')
      → decide r session_key t' id session' decision' now' ≢ ok x
  decide_once t t' id session session' decision decision' now now' q' x h =
      closed-refused t' id session' decision' now' closed x
    where
      closed : IsClosed t' id
      closed q found waits =
          let d = decide-Decided t t' id session decision now q' h in
          let q'' : ApprovalRequest = record d.request { status = decision } in
          let set : decision ≡ "pending" =
            ground (arith, d.after, found, waits, lookup-insert id id q'' t, eq_refl id) in
          elim d.verdict [
            | inl e ↦ ground (arith, eq_iff "approved" "pending", e, set)
            | inr e ↦ ground (arith, eq_iff "denied" "pending", e, set)
          ]

  restart-IsClosed : (t : Table) (id : String) → IsClosed (restart t) id
  unfolding restart lookup
  restart-IsClosed [] id q h e = cc
  restart-IsClosed ((j, x) ∷ t) id q h e = elim (Bool-cases (j == id)) [
    | inr other ↦ restart-IsClosed t id q (ground (arith, h, other)) e
    | inl same ↦
        ground (arith, h, e, same, eq_iff x.status "pending", eq_iff "interrupted" "pending")
  ]

  -- After a restart no request from before can be decided.
  pub restart_refuses :
      (t : Table) (id : String) (session : Text) (decision : String) (now : ℕ)
      (x : ApprovalRequest × Table)
      → decide r session_key (restart t) id session decision now ≢ ok x
  restart_refuses t id session decision now x =
      closed-refused (restart t) id session decision now (restart-IsClosed t id) x

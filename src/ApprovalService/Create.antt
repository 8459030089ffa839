-- ===== src/ApprovalService/Create.antt =====
-- What a created request is (approval_service.py).
use openmuse.Common.{
  ℕ, ◌+◌, String, Text, ◌≡◌, inl, inr, false, ok, arith, Bool-cases, contains, insert,
}
use openmuse.Common.Json.{Json, field, end}
use openmuse.Models.{Action}
use openmuse.Runtime.{Runtime}
use openmuse.ApprovalService.{ApprovalRequest, Table, session_of, create}

module _ (r : Runtime) (session_key : Text) where
  -- A request that was created: its identifier was free, it is the stored row, it is pending, and its
  -- session is the one that `decide` expects.
  pub record Created (t : Table) (action : Action) (ttl_seconds : ℕ) (fresh_id : String) (now : ℕ)
      (q : ApprovalRequest) (session : Text) (t' : Table) : Type 0 where
    pub free : contains fresh_id t ≡ false
    pub named : q.id ≡ fresh_id
    pub expiry : q.expires_at ≡ now + ttl_seconds
    pub pending : q.status ≡ "pending"
    pub holder : session ≡ session_of r session_key fresh_id (now + ttl_seconds)
    pub action_json :
        q.action_json
        ≡ r.dumps (
            Json.obj (
              field "id" (Json.str action.id) (
                field "tool"
                  (Json.str action.tool)
                  (field "arguments" (Json.obj action.arguments) end))))
    pub stored : t' ≡ insert fresh_id q t

  pub create-Created :
      (t t' : Table) (action : Action) (identity destination : String) (ttl_seconds : ℕ)
      (fresh_id : String) (now : ℕ) (q : ApprovalRequest) (session : Text)
      → create r session_key t action identity destination ttl_seconds fresh_id now
        ≡ ok ((q, session), t')
      → Created t action ttl_seconds fresh_id now q session t'
  unfolding create
  create-Created t t' action identity destination ttl_seconds fresh_id now q session h =
      elim (Bool-cases (contains fresh_id t)) [
        | inl taken ↦ absurd (ground (arith, h, taken))
        | inr free ↦ record {
          free = free;
          named = ground (arith, h, free);
          expiry = ground (arith, h, free);
          pending = ground (arith, h, free);
          holder = ground (arith, h, free);
          action_json = ground (arith, h, free);
          stored = ground (arith, h, free);
        }
      ]

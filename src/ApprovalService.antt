-- ===== src/ApprovalService.antt =====
-- src/openmuse/approval_service.py: approval requests in a table, decided once. The clock's reading is
-- in whole seconds. A transaction that raises is rolled back, so the table is then as it was.
pub mod Create
pub mod Decide
mod Tests
use openmuse.Common.{
  ℕ, ◌+◌, String, codes, Text, decimal, ◌≡◌, Bool, true, false, not, ◌&&◌, ◌||◌, Option, none, some,
  List, [], ◌∷◌, ◌++◌, ◌==◌, leb, if◌then◌else◌, Dict, lookup, insert, contains, Outcome, ok, err,
  value_error, other, ◌>>=◌, ◌>>◌, raise_if, or_raise,
}
use openmuse.Common.Json.{Json, field, end}
use openmuse.Models.{Action}
use openmuse.Runtime.{Runtime}
use openmuse.Approvals.{compare_digest}

pub record ApprovalRequest : Type 0 where
  pub id : String
  pub action_json : Text
  pub identity : String
  pub destination : String
  pub expires_at : ℕ
  pub status : String

-- The table `approvals`, by primary key.
abbrev pub Table : Type 0
Table = Dict ApprovalRequest

abbrev pub interrupt : ApprovalRequest → ApprovalRequest
interrupt q = if q.status == "pending" then record q { status = "interrupted" } else q

-- `__init__`: `UPDATE approvals SET status='interrupted' WHERE status='pending'`
unfoldable pub restart : Table → Table
restart [] = []
restart ((id, q) ∷ t) = (id, interrupt q) ∷ restart t

abbrev pub is_verdict : String → Bool
is_verdict decision = decision == "approved" || decision == "denied"

module _ (r : Runtime) (session_key : Text) where
  -- `_session`
  unfoldable pub session_of : String → ℕ → Text
  session_of request_id expires_at =
      r.hmac session_key (codes request_id ++ 46 ∷ decimal expires_at)

  -- The new request, by its fresh id; a repeated id violates the primary key.
  unfoldable pub create :
      Table → Action → String → String → ℕ → String → ℕ → Outcome ((ApprovalRequest × Text) × Table)
  create t action identity destination ttl_seconds fresh_id now = do
    let request =
        let q : ApprovalRequest = record {
          id = fresh_id;
          action_json = r.dumps (
              Json.obj (
                field "id" (Json.str action.id) (
                  field "tool" (Json.str action.tool)
                    (field "arguments" (Json.obj action.arguments) end))));
          identity = identity;
          destination = destination;
          expires_at = now + ttl_seconds;
          status = "pending";
        } in
        q
    raise_if (contains fresh_id t) (other "IntegrityError" "UNIQUE constraint failed: approvals.id")
    ok ((request, session_of fresh_id (now + ttl_seconds)), insert fresh_id request t)

  -- The checks of `decide` on the row that it found, in their order.
  unfoldable pub check_request : ApprovalRequest → Text → ℕ → Outcome (Unit {0})
  check_request q session now = do
    same ← compare_digest session (session_of q.id q.expires_at)
    raise_if (not same) (value_error "invalid approval session")
    raise_if (leb q.expires_at now) (value_error "approval expired")
    raise_if (not (q.status == "pending")) (value_error "approval already decided")

  -- `decide`: what it returns and the table with the decision.
  unfoldable pub decide : Table → String → Text → String → ℕ → Outcome (ApprovalRequest × Table)
  decide t request_id session decision now = do
    raise_if (not (is_verdict decision)) (value_error "invalid decision")
    q ← or_raise (lookup request_id t) (value_error "unknown approval")
    check_request q session now
    ok (record q { status = decision }, insert request_id (record q { status = decision }) t)

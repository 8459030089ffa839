-- ===== src/ApprovalService/Tests.antt =====
-- One request, decided by the holder of its session (approval_service.py).
use openmuse.Common.{Text, text_eq, decimal, ◌≡◌, refl, [], ◌∷◌, lookup, insert, ok}
use openmuse.Samples.{toy, send}
use openmuse.Approvals.{compare_digest}
use openmuse.ApprovalService.{ApprovalRequest, session_of, create, check_request, decide}

abbrev request : ApprovalRequest
request = record {
  id = "r";
  action_json = b'{' ∷ b'}' ∷ [];
  identity = "ann";
  destination = "desk";
  expires_at = 20;
  status = "pending";
}

abbrev session : Text
session = 3 ∷ b'r' ∷ b'.' ∷ b'2' ∷ b'0' ∷ []

abbrev approved : ApprovalRequest
approved = record request { status = "approved" }

program : Unit {0}
unfolding create session_of decide check_request compare_digest text_eq lookup insert decimal
program = tt

creates :
    create toy (3 ∷ []) [] send "ann" "desk" 15 "r" 5 ≡ ok ((request, session), ("r", request) ∷ [])
unfolding program
creates = refl

decides :
    decide toy (3 ∷ []) (("r", request) ∷ []) "r" session "approved" 10
    ≡ ok (approved, ("r", approved) ∷ [])
unfolding program
decides = refl

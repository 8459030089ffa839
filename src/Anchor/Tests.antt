-- ===== src/Anchor/Tests.antt =====
-- A chain of one line with a line separator in it (audit_anchor.py, checkpoint_publisher.py).
use openmuse.Common.{
  String, Text, text_eq, ◌≡◌, refl, Option, none, some, [], ◌∷◌, if◌then◌else◌, Outcome, ok, err,
  value_error,
}
use openmuse.Common.Json.{Json, field, end, get, drop_key}
use openmuse.Approvals.{compare_digest}
use openmuse.Audit.{
  Codec, zero_hash, AuditFile, last, verify_chain, check_lines, check_line, check_link,
  check_algorithm, check_unkeyed, check_keyed, finish,
}
use openmuse.Anchor.{
  AuditCheckpoint, last_piece, checkpoint_message, head_of, head_hash_of, sign, create_checkpoint,
  verify_checkpoint, Parsed, PublicationReceipt, Web, publish,
}

abbrev first : Json
first = Json.obj (field "previous_hash" (Json.str zero_hash) (field "hash" (Json.str "h") end))

-- Lines 1, and 1, a separator, 2, are records; 2 alone is not.
abbrev toy : Codec
toy = record {
  sha256 = λ t. "h";
  hmac = λ k t. "m";
  canonical = λ v. [];
  dumps = λ v. [];
  loads = λ t. if text_eq t (2 ∷ []) then none else some first;
  lower = λ s. s;
}

abbrev resolve : String → Outcome (Option Text)
resolve k = ok none

abbrev one : AuditFile
one = record { lines = (1 ∷ []) ∷ []; rest = [] }

abbrev separated : AuditFile
separated = record { lines = (1 ∷ 8232 ∷ 2 ∷ []) ∷ []; rest = [] }

abbrev signed : AuditCheckpoint
signed = record { records = 1; head_hash = "h"; created_at = 9; signature = "m" }

program : Unit {0}
unfolding last verify_chain check_lines check_line check_link check_algorithm check_unkeyed
    check_keyed finish get drop_key text_eq compare_digest last_piece checkpoint_message head_of
    head_hash_of sign create_checkpoint verify_checkpoint publish
program = tt

-- At a raw line separator, which JSON allows within a text, `splitlines` breaks the last line, and the
-- chain that verifies is not anchored.
not_anchored : create_checkpoint toy resolve separated (7 ∷ []) 9 ≡ err (value_error "invalid JSON")
unfolding program
not_anchored = refl

abbrev host : Parsed
host = record {
  scheme = "https";
  hostname = some "store";
  username = none;
  password = none;
  fragment = "";
}

abbrev web : Web
web = record {
  fill = λ t k. "https://store/k";
  urlsplit = λ u. ok host;
  canonical = λ p. [];
  put = λ p t d. ok (201, some "v1");
}

abbrev receipt : PublicationReceipt
receipt = record { url = "https://store/k"; sha256 = "h"; status = 201; version = some "v1" }

-- ===== src/Anchor.antt =====
-- src/openmuse/audit_anchor.py, src/openmuse/checkpoint_publisher.py: signed checkpoints of the audit
-- chain, and their publication. The lines of the file are texts of code points; `urlsplit`, the
-- canonical JSON of a checkpoint and the HTTPS exchange are parameters.
pub mod Signed
mod Tests
use openmuse.Common.{
  is_break, has_break, ℕ, ◌+◌, String, codes, Text, decimal, ◌≡◌, Bool, true, false, not, ◌&&◌,
  ◌||◌, Option, none, some, List, [], ◌∷◌, ◌++◌, ◌==◌, leb, eqb, if◌then◌else◌, all, is_some,
  Outcome, ok, err, value_error, type_error, runtime_error, ◌>>=◌, ◌>>◌, raise_if, or_raise,
}
use openmuse.Common.Json.{Json, Fields, get}
use openmuse.Approvals.{compare_digest}
use openmuse.Audit.{Codec, zero_hash, AuditFile, last, verify_chain, all_lines}

pub record AuditCheckpoint : Type 0 where
  pub records : ℕ
  pub head_hash : String
  pub created_at : ℕ
  pub signature : String

-- The last of the lines that `splitlines` makes of one line of the file.
unfoldable pub last_piece : Text → Text
last_piece [] = []
last_piece (c ∷ t) =
    let rest = last_piece t in if has_break t then rest else if is_break c then t else c ∷ t

module _ (c : Codec) where
  unfoldable pub checkpoint_message : ℕ → String → ℕ → Text
  checkpoint_message records head created_at =
      decimal records ++ 46 ∷ (codes head ++ 46 ∷ decimal created_at)

  -- `json.loads(line)["hash"]`, which has to be a text where the chain is intact
  unfoldable pub head_of : Option Json → Outcome String
  head_of none = err (value_error "invalid JSON")
  head_of (some (Json.obj fs)) = elim (get "hash" fs) [
    | some (Json.str h) ↦ ok h
    | _ ↦ err (type_error "invalid hash")
  ]
  head_of (some _) = err (type_error "invalid record")

  unfoldable pub head_hash_of : List Text → Outcome String
  head_hash_of lines = elim (last lines) [
    | none ↦ ok zero_hash
    | some l ↦ head_of (c.loads (last_piece l))
  ]

  unfoldable pub sign : Text → ℕ → String → ℕ → AuditCheckpoint
  sign signing_key records head created_at = record {
    records = records;
    head_hash = head;
    created_at = created_at;
    signature = c.hmac signing_key (checkpoint_message records head created_at);
  }

  abbrev pub counted : Bool × ℕ × Option String → Outcome ℕ
  counted (true, n, e) = ok n
  counted (false, n, e) = err (value_error "cannot anchor broken audit chain")

  unfoldable pub create_checkpoint :
      (String → Outcome (Option Text)) → AuditFile → Text → ℕ → Outcome AuditCheckpoint
  create_checkpoint resolve f signing_key now = do
    checked ← verify_chain c resolve false (ok f)
    n ← counted checked
    head ← head_hash_of (all_lines c resolve false f)
    ok (sign signing_key n head now)

  unfoldable pub verify_checkpoint : AuditCheckpoint → Text → Outcome Bool
  verify_checkpoint p signing_key =
      compare_digest (codes p.signature)
        (codes (c.hmac signing_key (checkpoint_message p.records p.head_hash p.created_at)))

-- What `urlsplit` finds in the URL.
pub record Parsed : Type 0 where
  pub scheme : String
  pub hostname : Option String
  pub username : Option String
  pub password : Option String
  pub fragment : String

pub record PublicationReceipt : Type 0 where
  pub url : String
  pub sha256 : String
  pub status : ℕ
  pub version : Option String

-- `str.replace`, `urlsplit`, the canonical text of a checkpoint, and the PUT, which gives the status
-- and the version that the server names.
pub record Web : Type 0 where
  pub fill : String → String → String
  pub urlsplit : String → Outcome Parsed
  pub canonical : AuditCheckpoint → Text
  pub put : Parsed → Text → String → Outcome (ℕ × Option String)

-- Letters, digits, `-`, `_` and `.`
abbrev pub is_safe : ℕ → Bool
is_safe c =
    (leb 97 c && leb c 122)
    || (leb 65 c && leb c 90)
    || (leb 48 c && leb c 57)
    || eqb c 45
    || eqb c 95
    || eqb c 46

abbrev pub is_set : Option String → Bool
is_set none = false
is_set (some s) = not (s == "")

abbrev pub is_plain_https : Parsed → Bool
is_plain_https p =
    p.scheme == "https"
    && is_set p.hostname
    && not (is_set p.username)
    && not (is_set p.password)
    && p.fragment == ""

abbrev pub is_stored : ℕ → Bool
is_stored status = eqb status 200 || eqb status 201 || eqb status 204

module _ (c : Codec) (w : Web) where
  -- `HTTPSPutPublisher.publish`
  unfoldable pub publish : String → AuditCheckpoint → String → Outcome PublicationReceipt
  publish url_template checkpoint object_key = do
    raise_if (object_key == "" || not (all is_safe (codes object_key)))
        (value_error "object key contains unsafe characters")
    parsed ← w.urlsplit (w.fill url_template object_key)
    raise_if (not (is_plain_https parsed))
        (value_error "publisher requires a credential-free HTTPS URL")
    response ← w.put parsed (w.canonical checkpoint) (c.sha256 (w.canonical checkpoint))
    raise_if (not (is_stored response.0)) (runtime_error "checkpoint publication failed")
    ok (record {
      url = w.fill url_template object_key;
      sha256 = c.sha256 (w.canonical checkpoint);
      status = response.0;
      version = response.1;
    })

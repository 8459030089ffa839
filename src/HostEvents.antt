-- ===== src/HostEvents.antt =====
-- src/openmuse/host_events.py: signed host events, each consumed once. The verifier and its store
-- read the clock one after the other, in whole seconds: two arguments. Timestamps are not negative.
pub mod Once
mod Tests
use openmuse.Common.{
  ℕ, ◌+◌, ◌-◌, String, codes, Text, decimal, ◌≡◌, Bool, true, false, not, ◌&&◌, ◌||◌, Option, none,
  some, List, [], ◌∷◌, ◌++◌, ◌==◌, ltb, if◌then◌else◌, Dict, lookup, contains, Outcome, ok, err,
  value_error, type_error, key_error, ◌>>=◌, ◌>>◌, raise_if, or_raise, ℤ, pos, eqb_ℤ,
}
use openmuse.Common.Json.{Json, Items, Fields, field, end, get}
use openmuse.Runtime.{Runtime}
use openmuse.Approvals.{compare_digest}

-- The table `seen`, by event id.
abbrev pub Seen : Type 0
Seen = Dict ℕ

-- `DELETE FROM seen WHERE expires_at < now`
unfoldable pub purge : ℕ → Seen → Seen
purge now [] = []
purge now ((id, e) ∷ seen) = let rest = purge now seen in if ltb e now then rest else (id, e) ∷ rest

-- `ReplayStore.consume`: one transaction, whose deletions are undone where the insertion fails.
unfoldable pub consume : Seen → String → ℕ → ℕ → Outcome (Unit {0}) × Seen
consume seen event_id expires_at now =
    if contains event_id (purge now seen)
    then (err (value_error "replayed host event"), seen)
    else (ok tt, (event_id, expires_at) ∷ purge now seen)

pub record HostEventVerifier : Type 0 where
  pub secret : Text
  pub maximum_age_seconds : ℕ

-- `abs(now - timestamp)`
abbrev pub distance : ℕ → ℕ → ℕ
distance a b = (a - b) + (b - a)

module _ (r : Runtime) (v : HostEventVerifier) where
  -- `_message`
  unfoldable pub event_message : String → ℕ → Fields → Text
  event_message event_id timestamp payload =
      codes event_id ++ 46 ∷ (decimal timestamp ++ 46 ∷ r.dumps (Json.obj payload))

  unfoldable pub sign : String → ℕ → Fields → Text
  sign event_id timestamp payload = r.hmac v.secret (event_message event_id timestamp payload)

  -- The checks of `HostEventVerifier.verify` before it consumes the event.
  unfoldable pub check_event : String → ℕ → Fields → Text → ℕ → Outcome (Unit {0})
  check_event event_id timestamp payload signature now = do
    raise_if (ltb v.maximum_age_seconds (distance now timestamp)) (value_error "stale host event")
    same ← compare_digest (sign event_id timestamp payload) signature
    raise_if (not same) (value_error "invalid host signature")

  abbrev pub then_consume :
      Outcome (Unit {0}) → Outcome (Unit {0}) × Seen → Seen → Outcome (Unit {0}) × Seen
  then_consume (ok u) next seen = next
  then_consume (err e) next seen = (err e, seen)

  unfoldable pub verify : Seen → String → ℕ → Fields → Text → ℕ → ℕ → Outcome (Unit {0}) × Seen
  verify seen event_id timestamp payload signature now store_now =
      then_consume (check_event event_id timestamp payload signature now)
        (consume seen event_id (timestamp + v.maximum_age_seconds) store_now) seen

-- `not value`, for what `dict.get` returns
unfoldable pub is_falsy : Option Json → Bool
is_falsy none = true
is_falsy (some Json.null) = true
is_falsy (some (Json.bool b)) = not b
is_falsy (some (Json.num n)) = eqb_ℤ n (pos 0)
is_falsy (some (Json.str s)) = s == ""
is_falsy (some (Json.arr xs)) = elim xs [ Items.nil ↦ true | Items.item _ _ ↦ false ]
is_falsy (some (Json.obj fs)) = elim fs [ end ↦ true | field _ _ _ ↦ false ]

-- `value not in {"approve", "deny"}`, which raises on a value that cannot be hashed
unfoldable pub is_decision : Option Json → Outcome Bool
is_decision (some (Json.str s)) = ok (s == "approve" || s == "deny")
is_decision (some (Json.arr xs)) = err (type_error "unhashable type: 'list'")
is_decision (some (Json.obj fs)) = err (type_error "unhashable type: 'dict'")
is_decision _ = ok false

-- The three headers that `post` reads, and what it returns.
pub record Headers : Type 0 where
  pub event_id : Option String
  pub timestamp : Option (Option ℕ)
  pub signature : Option Text

pub record Accepted : Type 0 where
  pub event_id : String
  pub action_id : Option Json
  pub decision : Option Json

unfoldable pub parse_headers : Headers → Outcome (String × ℕ × Text)
parse_headers h = do
  event_id ← or_raise h.event_id (key_error "x-openmuse-event-id")
  raw ← or_raise h.timestamp (key_error "x-openmuse-timestamp")
  timestamp ← or_raise raw (value_error "invalid literal for int()")
  signature ← or_raise h.signature (key_error "x-openmuse-signature")
  ok (event_id, timestamp, signature)

unfoldable pub as_payload : Option Json → Outcome Fields
as_payload none = err (value_error "invalid JSON")
as_payload (some (Json.obj fs)) = ok fs
as_payload (some _) = err (type_error "host event payload must be an object")

-- The checks after the event was consumed.
unfoldable pub conclude : String → Fields → Outcome Accepted
conclude event_id payload = do
  known ← is_decision (get "decision" payload)
  raise_if (not known || is_falsy (get "action_id" payload)) (value_error "invalid decision event")
  ok (record {
    event_id = event_id;
    action_id = get "action_id" payload;
    decision = get "decision" payload;
  })

module _ (r : Runtime) (v : HostEventVerifier) where
  abbrev pub conclude_if : String → Fields → Outcome (Unit {0}) × Seen → Outcome Accepted × Seen
  conclude_if event_id payload (ok u, seen) = (conclude event_id payload, seen)
  conclude_if event_id payload (err e, seen) = (err e, seen)

  abbrev pub post_parsed :
      Fields → Outcome (String × ℕ × Text) → Seen → ℕ → ℕ → Outcome Accepted × Seen
  post_parsed payload (err e) seen now store_now = (err e, seen)
  post_parsed payload (ok (event_id, timestamp, signature)) seen now store_now =
      conclude_if event_id payload
        (verify r v seen event_id timestamp payload signature now store_now)

  abbrev pub post_payload : Outcome Fields → Headers → Seen → ℕ → ℕ → Outcome Accepted × Seen
  post_payload (err e) headers seen now store_now = (err e, seen)
  post_payload (ok payload) headers seen now store_now =
      post_parsed payload (parse_headers headers) seen now store_now

  -- `HostDecisionEndpoint.post`
  unfoldable pub post : Headers → Text → Seen → ℕ → ℕ → Outcome Accepted × Seen
  post headers body seen now store_now =
      post_payload (as_payload (r.loads body)) headers seen now store_now

-- ===== src/Samples.antt =====
-- Concrete parameters for the tests: toy digests, a codec that knows one payload, and an authority,
-- a log and a world to run the agent in.
use openmuse.Common.{
  ok_not_err, ℕ, ◌-◌, ◌%◌, refl, true, false, none, some, List, [], ◌∷◌, ◌++◌, map, if◌then◌else◌,
  eqb, text_eq, ok, pos,
}
use openmuse.Common.Json.{Json, Fields, field, end}
use openmuse.Models.{Action}
use openmuse.Runtime.{Runtime}
use openmuse.Approvals.{payload}
use openmuse.Policy.{Authority}
use openmuse.Core.{AuditSink}

abbrev pub send : Action
send = record {
  tool = "send";
  arguments = field "to" (Json.str "ann") end;
  id = "a1";
  approval_token = none;
}

abbrev pub signed : Json
signed = payload send (Json.num (pos 1300))

abbrev pub toy : Runtime
toy = record {
  sha256 = λ t. t;
  hmac = λ k m. map (λ b. b % 128) (k ++ m);
  dumps = λ v. b'{' ∷ b'}' ∷ [];
  loads = λ t. if text_eq t (b'{' ∷ b'}' ∷ []) then some signed else none;
  as_string = λ t. "";
  int_text = λ s. none;
}

-- An authority that approves as often as its state says.
abbrev pub counter : Authority
counter = record {
  State = ℕ;
  verify = λ n action token now. if eqb n 0 then (ok false, n) else (ok true, n - 1);
}

-- A log that takes every record.
abbrev pub memory_log : AuditSink
memory_log = record {
  Log = List Fields;
  append = λ l f. (ok tt, l ++ f ∷ []);
  records = λ l. l;
  appended = λ l f h. refl;
  redact = λ f. f;
  refused = λ l f e h. absurd (ok_not_err h);
}

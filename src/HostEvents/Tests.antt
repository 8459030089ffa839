-- ===== src/HostEvents/Tests.antt =====
-- One signed event, presented three times (host_events.py).
use openmuse.Common.{decimal, Text, text_eq, ◌≡◌, ◌≢◌, refl, [], ◌∷◌, lookup, ok, arith}
use openmuse.Common.Json.{end}
use openmuse.Samples.{toy}
use openmuse.Approvals.{compare_digest}
use openmuse.HostEvents.{
  purge, consume, HostEventVerifier, event_message, sign, check_event, verify,
}
use openmuse.HostEvents.Once.{Call, call, calls, verify_once, verify_tick}

abbrev host : HostEventVerifier
host = record { secret = 9 ∷ []; maximum_age_seconds = 300 }

abbrev signature : Text
signature = 9 ∷ b'e' ∷ b'.' ∷ b'7' ∷ b'.' ∷ b'{' ∷ b'}' ∷ []

abbrev event : Call
event = record {
  event_id = "e";
  timestamp = 7;
  payload = end;
  signature = signature;
  now = 8;
  store_now = 8;
}

program : Unit {0}
unfolding verify check_event consume purge sign event_message compare_digest text_eq lookup calls
    decimal
program = tt

accepts : (call toy host [] event).0 ≡ ok tt
unfolding program
accepts = refl

abbrev later : Call
later = record event { now = 307; store_now = 307 }

verify_once_example :
    (call toy host (calls toy host (call toy host [] event).1 (event ∷ [])) later).0 ≢ ok tt
verify_once_example =
    verify_once toy host [] event (event ∷ []) later accepts refl (omega arith, tt) (omega arith)

verify_tick_example :
    (call toy host (call toy host [] event).1 (record event { now = 307; store_now = 308 })).0
    ≡ ok tt
unfolding lookup
verify_tick_example = verify_tick toy host [] event accepts refl

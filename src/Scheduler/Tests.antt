-- ===== src/Scheduler/Tests.antt =====
-- Two jobs that fire every minute (scheduler.py).
use openmuse.Common.{
  ◌≡◌, refl, false, none, some, [], ◌∷◌, lookup, insert, erase, mem, Text, text_eq, split_once, ok,
  err, value_error,
}
use openmuse.Cron.{
  split_all, range_from, range, parse_step, parse_bounds, parse_part, parse_parts, parse_field,
  cron_schedule, day_matches, matches, search, next_after,
}
use openmuse.Scheduler.{
  Job, Calendar, place, jobs, add, is_due, due, claim_each, claim_due, remove, heartbeat, mark_run,
  retry_unknown, claim_token_of,
}
use openmuse.Scheduler.Steps.{IsClaimed}
use openmuse.Scheduler.Claims.{Call, calls, call, claim_due-exclusive}

abbrev star : Text
star = b'*' ∷ []

abbrev utc : Calendar
utc = record {
  int_text = λ t. none;
  split = λ s. star ∷ star ∷ star ∷ star ∷ star ∷ [];
  local = λ m. record { month = 1; day = 1; weekday = 0; hour = 0; minute = 0 };
}

abbrev free : Job
free = record {
  schedule = "* * * * *";
  goal = "g";
  last_run = none;
  lease_until = none;
  claim_token = none;
}

abbrev held : Job
held = record free { lease_until = some 400; claim_token = some "t" }

program : Unit {0}
unfolding split_all range_from range parse_step parse_bounds parse_part parse_parts parse_field
    cron_schedule day_matches matches search next_after place jobs add is_due due claim_each
    claim_due remove heartbeat mark_run retry_unknown claim_token_of calls call lookup insert erase
    text_eq split_once
program = tt

-- The held job is left out, though its lease ran out long ago.
claims :
    claim_due utc (("b", free) ∷ ("a", held) ∷ []) 900 60 (λ id. id)
    ≡ ok (
      "b" ∷ [],
      ("b", record free { lease_until = some 960; claim_token = some "b" }) ∷ ("a", held) ∷ [],
    )
unfolding program
claims = refl

too_early :
    retry_unknown (("a", held) ∷ []) "a" 399 ≡ err (value_error "no expired claim to reconcile")
unfolding program
too_early = refl

held-IsClaimed : IsClaimed (("b", free) ∷ ("a", held) ∷ []) "a" "t"
unfolding lookup
held-IsClaimed = record { job = held; stored = refl; held = refl }

claim_due-exclusive_example :
    (mem "a" ("b" ∷ []) ≡ false)
    × IsClaimed
        (("b", record free { lease_until = some 960; claim_token = some "b" }) ∷ ("a", held) ∷ [])
        "a"
        "t"
claim_due-exclusive_example =
    claim_due-exclusive utc (Call.marking "a" 500 (some "other") ∷ [])
      (("b", free) ∷ ("a", held) ∷ []) "a" "t" 900 60 (λ id. id)
      (
        "b" ∷ [],
        ("b", record free { lease_until = some 960; claim_token = some "b" }) ∷ ("a", held) ∷ [],
      )
      held-IsClaimed (refl, tt) (unfold program in refl)

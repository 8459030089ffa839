-- ===== src/Cron/Tests.antt =====
-- Half past, on weekdays (scheduler.py).
use openmuse.Common.{
  ℕ, ◌+◌, ◌-◌, ◌*◌, ◌/◌, ◌%◌, ◌≡◌, refl, false, Option, none, some, [], ◌∷◌, Text, text_eq,
  split_once, codes, ℤ, pos, ok, err, value_error,
}
use openmuse.Cron.{
  split_all, range_from, range, parse_step, parse_bounds, parse_part, parse_parts, parse_field,
  CronSchedule, cron_schedule, Local, day_matches, matches, search, next_after, search_minutes,
}
use openmuse.Cron.Next.{IsFirst, next_after-IsFirst}

-- `int` of one digit, and of two
abbrev digits : Text → Option ℤ
digits (a ∷ []) = some (pos (a - 48))
digits (a ∷ b ∷ []) = some (pos ((a - 48) * 10 + (b - 48)))
digits _ = none

abbrev star : Text
star = b'*' ∷ []

abbrev half_past : CronSchedule
half_past = record {
  minutes = 0 ∷ 30 ∷ [];
  hours = 9 ∷ 10 ∷ 17 ∷ [];
  dom = 1 ∷ [];
  months = 1 ∷ [];
  dow = 0 ∷ 5 ∷ 6 ∷ 0 ∷ [];
  dom_any = false;
  dow_any = false;
}

program : Unit {0}
unfolding split_all range_from range parse_step parse_bounds parse_part parse_parts parse_field
    cron_schedule day_matches matches search next_after text_eq split_once
program = tt

parses :
    cron_schedule digits
      (codes "*/30" ∷ codes "9-10,17" ∷ codes "1" ∷ codes "1" ∷ codes "0,5-7" ∷ [])
    ≡ ok half_past
unfolding program
parses = refl

refuses :
    cron_schedule digits (codes "60" ∷ star ∷ star ∷ star ∷ star ∷ [])
    ≡ err (value_error "field value out of range")
unfolding program
refuses = refl

-- A day of 24 hours of 60 minutes, all on 1 January.
abbrev new_year : ℕ → Local
new_year m = record { month = 1; day = 1; weekday = 2; hour = m / 60; minute = m % 60 }

fires : next_after new_year half_past 600 ≡ ok 630
unfolding program
fires = refl

next_after-IsFirst_example :
    IsFirst new_year half_past search_minutes 601 (next_after new_year half_past 600)
next_after-IsFirst_example = next_after-IsFirst new_year half_past 600

-- ===== src/Cron.antt =====
-- src/openmuse/scheduler.py: cron expressions and their next time. Times are minutes since the epoch
-- in UTC; the calendar of a time zone (zoneinfo) is a parameter that gives the local fields of a
-- minute. `int` of a text and `str.split` are parameters as well.
pub mod Values
pub mod Next
mod Tests
use openmuse.Common.{
  ℕ, zero, suc, ◌+◌, ◌-◌, ◌*◌, ◌%◌, String, ◌≡◌, Bool, true, false, not, ◌&&◌, ◌||◌, Option, none,
  some, List, [], ◌∷◌, ◌++◌, map, ltb, leb, eqb, if◌then◌else◌, ℤ, pos, pos_part, ltb_ℤ, Text,
  text_eq, split_once, Outcome, ok, err, value_error, ◌>>=◌, ◌>>◌, raise_if, or_raise,
}

-- `n in values`
abbrev pub has : ℕ → List ℕ → Bool
has n [] = false
has n (v ∷ vs) = eqb v n || has n vs

-- `spec.split(",")`
unfoldable pub split_all : ℕ → Text → List Text
split_all sep [] = [] ∷ []
split_all sep (c ∷ s) =
    let rest = split_all sep s in
    if eqb c sep then [] ∷ rest else elim rest [ [] ↦ (c ∷ []) ∷ [] | x ∷ xs ↦ (c ∷ x) ∷ xs ]

-- `range(start, end + 1, step)`; the fuel `end + 1 - start` is enough for a positive step.
unfoldable pub range_from : ℕ → ℕ → ℕ → ℕ → List ℕ
range_from zero start end step = []
range_from (suc fuel) start end step =
    let rest = range_from fuel (start + step) end step in if leb start end then start ∷ rest else []

unfoldable pub range : ℕ → ℕ → ℕ → List ℕ
range start end step = range_from (end + 1 - start) start end step

-- `0 if v == 7 else v`
abbrev pub as_weekday : ℕ → ℕ
as_weekday v = if eqb v 7 then 0 else v

-- `"*"` or the empty text
abbrev pub is_any : Text → Bool
is_any t = text_eq t [] || text_eq t (b'*' ∷ [])

abbrev pub invalid_literal : {A : Type 0} → Option A → Outcome A
invalid_literal o = or_raise o (value_error "invalid literal for int()")

module _ (int_text : Text → Option ℤ) where
  -- `part.split("/", 1)` and the positive step
  unfoldable pub parse_step : Text → Outcome (Text × ℕ)
  parse_step part = elim (split_once b'/' part) [
    | none ↦ ok (part, 1)
    | some (before, raw_step) ↦ do
      step ← invalid_literal (int_text raw_step)
      raise_if (ltb_ℤ step (pos 1)) (value_error "step must be positive")
      ok (before, pos_part step)
  ]

  unfoldable pub parse_bounds : Text → ℕ → ℕ → Outcome (ℤ × ℤ)
  parse_bounds part low high =
      if is_any part then ok (pos low, pos high) else elim (split_once b'-' part) [
        | none ↦ do n ← invalid_literal (int_text part); ok (n, n)
        | some (a, b) ↦ do
          start ← invalid_literal (int_text a)
          end ← invalid_literal (int_text b)
          ok (start, end)
      ]

  -- The loop's body for one part.
  unfoldable pub parse_part : Text → ℕ → ℕ → Outcome (List ℕ)
  parse_part part low high = do
    stepped ← parse_step part
    bounds ← parse_bounds stepped.0 low high
    raise_if (ltb_ℤ bounds.0 (pos low) || ltb_ℤ (pos high) bounds.1 || ltb_ℤ bounds.1 bounds.0)
        (value_error "field value out of range")
    ok (range (pos_part bounds.0) (pos_part bounds.1) stepped.1)

  unfoldable pub parse_parts : List Text → ℕ → ℕ → Outcome (List ℕ)
  parse_parts [] low high = ok []
  parse_parts (p ∷ ps) low high = do
    values ← parse_part p low high
    others ← parse_parts ps low high
    ok (values ++ others)

  -- `_parse_field`
  unfoldable pub parse_field : Text → ℕ → ℕ → Outcome (List ℕ)
  parse_field spec low high = do
    values ← parse_parts (split_all b',' spec) low high
    ok (if eqb high 7 then map as_weekday values else values)

pub record CronSchedule : Type 0 where
  pub minutes : List ℕ
  pub hours : List ℕ
  pub dom : List ℕ
  pub months : List ℕ
  pub dow : List ℕ
  pub dom_any : Bool
  pub dow_any : Bool

-- `CronSchedule.__init__` on the fields of the expression
unfoldable pub cron_schedule : (Text → Option ℤ) → List Text → Outcome CronSchedule
cron_schedule int_text (minute ∷ hour ∷ dom ∷ month ∷ dow ∷ []) = do
  minutes ← parse_field int_text minute 0 59
  hours ← parse_field int_text hour 0 23
  days ← parse_field int_text dom 1 31
  months ← parse_field int_text month 1 12
  weekdays ← parse_field int_text dow 0 7
  ok (record {
    minutes = minutes;
    hours = hours;
    dom = days;
    months = months;
    dow = weekdays;
    dom_any = text_eq dom (b'*' ∷ []);
    dow_any = text_eq dow (b'*' ∷ []);
  })
cron_schedule int_text _ = err (value_error "cron expression needs five fields")

-- The fields of a local time that the schedule reads; `weekday` is 0 on Monday.
pub record Local : Type 0 where
  pub month : ℕ
  pub day : ℕ
  pub weekday : ℕ
  pub hour : ℕ
  pub minute : ℕ

-- `_day_matches`
unfoldable pub day_matches : CronSchedule → Local → Bool
day_matches s t =
    let dom_hit = has t.day s.dom in
    let dow_hit = has ((t.weekday + 1) % 7) s.dow in
    if s.dom_any && s.dow_any
    then true
    else if s.dom_any
    then dow_hit
    else if s.dow_any
    then dom_hit
    else dom_hit || dow_hit

unfoldable pub matches : CronSchedule → Local → Bool
matches s t =
    has t.month s.months && day_matches s t && has t.hour s.hours && has t.minute s.minutes

-- Five years of minutes: the loop's bound, since each round is one minute.
abbrev pub search_minutes : ℕ
search_minutes = 2635200

module _ (calendar : ℕ → Local) where
  -- The loop from a candidate, for as many rounds as there are minutes to the deadline.
  unfoldable pub search : CronSchedule → ℕ → ℕ → Outcome ℕ
  search s zero candidate = err (value_error "schedule has no fire time within five years")
  search s (suc rounds) candidate =
      let rest = search s rounds (candidate + 1) in
      if matches s (calendar candidate) then ok candidate else rest

  -- `next_after` an aware moment in this minute
  unfoldable pub next_after : CronSchedule → ℕ → Outcome ℕ
  next_after s minute = search s search_minutes (minute + 1)

-- ===== src/Cron/Values.antt =====
-- The values that a cron field can have (scheduler.py).
use openmuse.Common.{
  ℕ, zero, suc, ◌+◌, ◌-◌, ◌*◌, ◌≤◌, ◌<◌, ◌≡◌, inl, inr, refl, true, false, Option, List, [], ◌∷◌,
  map, eqb, leb, arith, ℤ, pos_part, Text, ok, >>=-eq-ok, ok-injective, All, All-append, All-map,
  Bool-cases, subst,
}
use openmuse.Cron.{
  has, split_all, range_from, range, as_weekday, parse_step, parse_bounds, parse_part, parse_parts,
  parse_field, CronSchedule, cron_schedule,
}

-- From `low` to `high`.
abbrev pub Within : ℕ → ℕ → ℕ → Type 0
Within low high v = (low ≤ v) × (v ≤ high)

range_from-Within :
    (fuel start end step low : ℕ)
    → low ≤ start
    → All (Within low end) (range_from fuel start end step)
unfolding range_from
range_from-Within zero start end step low h = tt
range_from-Within (suc fuel) start end step low h = elim (Bool-cases (leb start end)) [
  | inl fits ↦
      rw (fits, range_from)
        (
          (h, ground (arith, fits)),
          range_from-Within fuel (start + step) end step low (omega arith),
        )
  | inr past ↦ rw (past, range_from) tt
]

All-widen :
    (low high end : ℕ) (vs : List ℕ)
    → end ≤ high
    → All (Within low end) vs
    → All (Within low high) vs
All-widen low high end vs h a =
    All-map (Within low end) (Within low high) vs (λ v b. (b.0, omega (arith, b.1))) a

module _ (int_text : Text → Option ℤ) where
  parse_part-Within :
      (part : Text) (low high : ℕ) (vs : List ℕ)
      → parse_part int_text part low high ≡ ok vs
      → All (Within low high) vs
  unfolding parse_part range
  parse_part-Within part low high vs h =
      let ((before, step), stepped, h') = >>=-eq-ok (parse_step int_text part) _ h in
      let ((start, end), bounds, h'') = >>=-eq-ok (parse_bounds int_text before low high) _ h' in
      let is_range : range_from (pos_part end + 1 - pos_part start) (pos_part start) (pos_part end)
            step
          ≡ vs =
        ground (arith, h'') in
      subst (All (Within low high)) is_range (
        All-widen low high (pos_part end) _ (ground (arith, h'')) (
          range_from-Within (pos_part end + 1 - pos_part start) (pos_part start) (pos_part end) step
            low (ground (arith, h''))))

  parse_parts-Within :
      (parts : List Text) (low high : ℕ) (vs : List ℕ)
      → parse_parts int_text parts low high ≡ ok vs
      → All (Within low high) vs
  unfolding parse_parts
  parse_parts-Within [] low high vs h = subst (All (Within low high)) (ok-injective h) tt
  parse_parts-Within (p ∷ ps) low high vs h =
      let (values, parsed, h') = >>=-eq-ok (parse_part int_text p low high) _ h in
      let (others, rest, h'') = >>=-eq-ok (parse_parts int_text ps low high) _ h' in
      subst (All (Within low high)) (ok-injective h'') (
        All-append (Within low high) values others (parse_part-Within p low high values parsed)
          (parse_parts-Within ps low high others rest))

  parse_field-Within :
      (spec : Text) (low high : ℕ) (vs : List ℕ)
      → eqb high 7 ≡ false
      → parse_field int_text spec low high ≡ ok vs
      → All (Within low high) vs
  unfolding parse_field
  parse_field-Within spec low high vs plain h =
      let (values, parsed, h') =
        >>=-eq-ok (parse_parts int_text (split_all b',' spec) low high) _ h in
      let same : values ≡ vs = ground (arith, h', plain) in
      subst (All (Within low high)) same
        (parse_parts-Within (split_all b',' spec) low high values parsed)

  weekdays : (vs : List ℕ) → All (Within 0 7) vs → All (Within 0 6) (map as_weekday vs)
  weekdays [] a = tt
  weekdays (v ∷ vs) a = (ground (arith, a.0), weekdays vs a.1)

  parse_field-weekday :
      (spec : Text) (vs : List ℕ) → parse_field int_text spec 0 7 ≡ ok vs → All (Within 0 6) vs
  unfolding parse_field
  parse_field-weekday spec vs h =
      let (values, parsed, h') = >>=-eq-ok (parse_parts int_text (split_all b',' spec) 0 7) _ h in
      subst (All (Within 0 6)) (ok-injective h')
        (weekdays values (parse_parts-Within (split_all b',' spec) 0 7 values parsed))

  -- Every value of a schedule is one that a clock or a calendar can show.
  pub record IsCalendar (s : CronSchedule) : Type 0 where
    pub minutes : All (Within 0 59) s.minutes
    pub hours : All (Within 0 23) s.hours
    pub dom : All (Within 1 31) s.dom
    pub months : All (Within 1 12) s.months
    pub dow : All (Within 0 6) s.dow

  -- A schedule that is accepted has only minutes from 0 to 59, hours to 23, days from 1 to 31, months
  -- from 1 to 12 and weekdays from 0 to 6, whatever the five texts are and however `int` reads them.
  pub cron_schedule-IsCalendar :
      (minute hour dom month dow : Text) (s : CronSchedule)
      → cron_schedule int_text (minute ∷ hour ∷ dom ∷ month ∷ dow ∷ []) ≡ ok s
      → IsCalendar s
  unfolding cron_schedule
  cron_schedule-IsCalendar minute hour dom month dow s h =
      let (m, is_m, h1) = >>=-eq-ok (parse_field int_text minute 0 59) _ h in
      let (o, is_o, h2) = >>=-eq-ok (parse_field int_text hour 0 23) _ h1 in
      let (d, is_d, h3) = >>=-eq-ok (parse_field int_text dom 1 31) _ h2 in
      let (n, is_n, h4) = >>=-eq-ok (parse_field int_text month 1 12) _ h3 in
      let (w, is_w, h5) = >>=-eq-ok (parse_field int_text dow 0 7) _ h4 in
      subst IsCalendar (ok-injective h5) (record {
        minutes = parse_field-Within minute 0 59 m refl is_m;
        hours = parse_field-Within hour 0 23 o refl is_o;
        dom = parse_field-Within dom 1 31 d refl is_d;
        months = parse_field-Within month 1 12 n refl is_n;
        dow = parse_field-weekday dow w is_w;
      })

-- A range holds every value that is a number of steps from its start, up to its end.
range_from-has :
    (k fuel start end step : ℕ)
    → 0 < step
    → start + k * step ≤ end
    → end < start + fuel
    → has (start + k * step) (range_from fuel start end step) ≡ true
unfolding range_from
range_from-has k zero start end step h a b = absurd (omega arith)
range_from-has zero (suc fuel) start end step h a b = ground (arith, a)
range_from-has (suc k) (suc fuel) start end step h a b =
    let next : start + suc k * step ≡ (start + step) + k * step = omega arith in
    let rest = range_from-has k fuel (start + step) end step h (omega arith) (omega arith) in
    ground (arith, a, next, rest)

-- The range of a part holds every value that is a number of steps from its start and not past its end.
pub range-has :
    (start end step k : ℕ)
    → 0 < step
    → start + k * step ≤ end
    → has (start + k * step) (range start end step) ≡ true
unfolding range
range-has start end step k h a = range_from-has k (end + 1 - start) start end step h a (omega arith)

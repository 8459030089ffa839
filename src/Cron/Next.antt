-- ===== src/Cron/Next.antt =====
-- That the next time is the first one that matches (scheduler.py).
use openmuse.Common.{
  ℕ, zero, suc, ◌+◌, ◌≤◌, ◌<◌, ◌≡◌, ◌⊎◌, inl, inr, true, false, arith, Outcome, ok, err, Bool-cases,
}
use openmuse.Cron.{CronSchedule, Local, matches, search, next_after, search_minutes}

module _ (calendar : ℕ → Local) where
  abbrev pub Fires : CronSchedule → ℕ → Type 0
  Fires s t = matches s (calendar t) ≡ true

  -- The first match among the next `rounds` minutes, or none among them.
  abbrev pub IsFirst : CronSchedule → ℕ → ℕ → Outcome ℕ → Type 0
  IsFirst s rounds start (ok t) =
      Fires s t
      × (start ≤ t)
      × (t < start + rounds)
      × ((u : ℕ) → start ≤ u → u < t → matches s (calendar u) ≡ false)
  IsFirst s rounds start (err e) =
      (u : ℕ) → start ≤ u → u < start + rounds → matches s (calendar u) ≡ false

  from_next :
      (s : CronSchedule) (start u : ℕ)
      → matches s (calendar start) ≡ false
      → start ≤ u
      → (start + 1 ≤ u → matches s (calendar u) ≡ false)
      → matches s (calendar u) ≡ false
  from_next s start u here h later = elim (le_cases start u h) [
    | inl e ↦ rw e at here
    | inr k ↦ later k
  ]
    where
      le_cases : (a b : ℕ) → a ≤ b → (a ≡ b) ⊎ (a + 1 ≤ b)
      le_cases a b k = ground arith

  IsFirst-suc :
      (s : CronSchedule) (rounds start : ℕ) (o : Outcome ℕ)
      → matches s (calendar start) ≡ false
      → IsFirst s rounds (start + 1) o
      → IsFirst s (suc rounds) start o
  IsFirst-suc s rounds start (ok t) here (fires, low, high, before) =
      (fires, omega arith, omega arith, λ u h k. from_next s start u here h (λ l. before u l k))
  IsFirst-suc s rounds start (err e) here all_before =
      λ u h k. from_next s start u here h (λ l. all_before u l (omega arith))

  search-IsFirst :
      (s : CronSchedule) (rounds start : ℕ)
      → IsFirst s rounds start (search calendar s rounds start)
  unfolding search
  search-IsFirst s zero start = λ u h k. absurd (omega arith)
  search-IsFirst s (suc rounds) start = elim (Bool-cases (matches s (calendar start))) [
    | inl here ↦ rw (here, search) (here, omega arith, omega arith, λ u h k. absurd (omega arith))
    | inr not_here ↦
        rw (not_here, search)
          (IsFirst-suc s rounds start (search calendar s rounds (start + 1)) not_here
            (search-IsFirst s rounds (start + 1)))
  ]

  -- `next_after` gives the first minute after the moment's at which the schedule matches, if one of
  -- the next five years' minutes does, and raises exactly when none of them does.
  pub next_after-IsFirst :
      (s : CronSchedule) (minute : ℕ)
      → IsFirst s search_minutes (minute + 1) (next_after calendar s minute)
  unfolding next_after
  next_after-IsFirst s minute = search-IsFirst s search_minutes (minute + 1)

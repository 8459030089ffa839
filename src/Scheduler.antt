-- ===== src/Scheduler.antt =====
-- src/openmuse/scheduler.py: the table of jobs, its leases and claims. Times are seconds since the
-- epoch; the source keeps them as ISO texts of one time zone, whose order is that of the times. A
-- transaction that raises leaves the table alone.
pub mod Steps
pub mod Claims
mod Tests
use Prim.Native.String.{compare}
use Prim.Native.Nat.{Ordering}
use openmuse.Common.{
  ℕ, ◌+◌, ◌-◌, ◌*◌, ◌/◌, String, ◌≡◌, Bool, true, false, not, ◌&&◌, ◌||◌, Option, none, some, List,
  [], ◌∷◌, ◌++◌, ◌==◌, ltb, leb, if◌then◌else◌, Dict, lookup, insert, erase, is_some, ℤ, Text,
  Outcome, ok, err, value_error, ◌>>=◌, ◌>>◌, raise_if, or_raise, contains, other,
}
use openmuse.Cron.{CronSchedule, cron_schedule, Local, next_after}

-- A row of `jobs`, without its id.
pub record Job : Type 0 where
  pub schedule : String
  pub goal : String
  pub last_run : Option ℕ
  pub lease_until : Option ℕ
  pub claim_token : Option String

abbrev pub Jobs : Type 0
Jobs = Dict Job

-- `int` and `str.split` of texts, and the calendar of UTC, by minutes.
pub record Calendar : Type 0 where
  pub int_text : Text → Option ℤ
  pub split : String → List Text
  pub local : ℕ → Local

unfoldable pub place : String × Job → Jobs → Jobs
place e [] = e ∷ []
place e (x ∷ xs) =
    let rest = place e xs in elim (compare e.0 x.0) [ Ordering.gt ↦ x ∷ rest | _ ↦ e ∷ x ∷ xs ]

-- `ORDER BY id`
unfoldable pub jobs : Jobs → Jobs
jobs [] = []
jobs (x ∷ xs) = place x (jobs xs)

module _ (cal : Calendar) where
  abbrev pub parse : String → Outcome CronSchedule
  parse expression = cron_schedule cal.int_text (cal.split expression)

  unfoldable pub add : Jobs → String → String → String → Outcome Jobs
  add t schedule goal fresh_id = do
    s ← parse schedule
    raise_if (contains fresh_id t) (other "IntegrityError" "UNIQUE constraint failed: jobs.id")
    ok (
        insert fresh_id
          (record {
            schedule = schedule;
            goal = goal;
            last_run = none;
            lease_until = none;
            claim_token = none;
          })
          t)

  -- `datetime.fromisoformat(job.last_run) if job.last_run else now - timedelta(minutes=1)`
  abbrev pub anchor : Option ℕ → ℕ → ℕ
  anchor none now = now - 60
  anchor (some t) now = t

  unfoldable pub is_due : Job → ℕ → Outcome Bool
  is_due job now = do
    s ← parse job.schedule
    minute ← next_after cal.local s (anchor job.last_run now / 60)
    ok (leb (minute * 60) now)

  unfoldable pub due : Jobs → ℕ → Outcome (List String)
  due [] now = ok []
  due ((id, job) ∷ rest) now = do
    ready ← is_due job now
    others ← due rest now
    ok (if ready then id ∷ others else others)

-- The loop of `claim_due`: `token` gives the fresh token of a job.
unfoldable pub claim_each : Jobs → List String → ℕ → (String → String) → List String × Jobs
claim_each t [] until token = ([], t)
claim_each t (id ∷ ids) until token = elim (lookup id t) [
  | none ↦ claim_each t ids until token
  | some job ↦ elim job.claim_token [
    | some held ↦ claim_each t ids until token
    | none ↦
        let (claimed, t') =
          claim_each
            (insert id (record job { lease_until = some until; claim_token = some (token id) }) t)
            ids until token in
        (id ∷ claimed, t')
  ]
]

abbrev pub unexpired : Option ℕ → ℕ → Bool
unexpired none now = false
unexpired (some until) now = ltb now until

abbrev pub lapsed : Option ℕ → ℕ → Bool
lapsed none now = false
lapsed (some until) now = leb until now

abbrev pub holds : Option String → String → Bool
holds none token = false
holds (some held) token = held == token

module _ (cal : Calendar) where
  unfoldable pub claim_due : Jobs → ℕ → ℕ → (String → String) → Outcome (List String × Jobs)
  claim_due t now lease_seconds token = do
    raise_if (ltb lease_seconds 1) (value_error "lease must be positive")
    ids ← due cal (jobs t) now
    ok (claim_each t ids (now + lease_seconds) token)

unfoldable pub remove : Jobs → String → Jobs
remove t job_id = erase job_id t

unfoldable pub heartbeat : Jobs → String → ℕ → String → ℕ → Outcome Jobs
heartbeat t job_id now claim_token lease_seconds = do
  raise_if (ltb lease_seconds 1) (value_error "lease must be positive")
  job ← or_raise (lookup job_id t) (value_error "claim missing or expired")
  raise_if (not (holds job.claim_token claim_token && unexpired job.lease_until now))
      (value_error "claim missing or expired")
  ok (insert job_id (record job { lease_until = some (now + lease_seconds) }) t)

unfoldable pub claim_token_of : Jobs → String → Option String
claim_token_of t job_id = elim (lookup job_id t) [ none ↦ none | some job ↦ job.claim_token ]

-- `mark_run` without and with a token
unfoldable pub mark_run : Jobs → String → ℕ → Option String → Outcome Jobs
mark_run t job_id ran_at none = do
  job ← or_raise (lookup job_id t) (value_error "claim token required for leased job")
  raise_if (is_some job.claim_token) (value_error "claim token required for leased job")
  ok (insert job_id (record job { last_run = some ran_at }) t)
mark_run t job_id ran_at (some token) = do
  job ← or_raise (lookup job_id t) (value_error "claim token mismatch")
  raise_if (not (holds job.claim_token token)) (value_error "claim token mismatch")
  ok (
      insert job_id (record job { last_run = some ran_at; lease_until = none; claim_token = none })
        t)

unfoldable pub retry_unknown : Jobs → String → ℕ → Outcome Jobs
retry_unknown t job_id now = do
  job ← or_raise (lookup job_id t) (value_error "no expired claim to reconcile")
  raise_if (not (is_some job.claim_token && lapsed job.lease_until now))
      (value_error "no expired claim to reconcile")
  ok (insert job_id (record job { lease_until = none; claim_token = none }) t)

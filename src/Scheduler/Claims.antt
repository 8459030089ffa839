-- ===== src/Scheduler/Claims.antt =====
-- That a claimed job is not given out again (scheduler.py).
use openmuse.Common.{
  raise_if-passed, ℕ, ◌+◌, String, ◌≡◌, inl, inr, refl, true, false, ◌&&◌, Option, none, some, List,
  [], ◌∷◌, ◌==◌, arith, mem, Outcome, ok, err, >>=-eq-ok, ok-injective, Outcome-cases, subst,
}
use openmuse.Scheduler.{
  Jobs, Calendar, jobs, parse, add, due, claim_each, claim_due, remove, heartbeat, mark_run,
  retry_unknown, claim_token_of,
}
use openmuse.Scheduler.Steps.{
  IsClaimed, claim_each-IsClaimed, claim_each-free, insert-other, remove-IsClaimed,
  heartbeat-IsClaimed, unheld_mark-IsClaimed, mark_run-IsClaimed, retry_unknown-IsClaimed,
}

module _ (cal : Calendar) where
  claim_due-ok :
      (t t' : Jobs) (now lease_seconds : ℕ) (token : String → String) (claimed : List String)
      → claim_due cal t now lease_seconds token ≡ ok (claimed, t')
      → (ids : List String) × (claim_each t ids (now + lease_seconds) token ≡ (claimed, t'))
  unfolding claim_due
  claim_due-ok t t' now lease_seconds token claimed h =
      elim (Outcome-cases (due cal (jobs t) now)) [
        | inr (x, e) ↦ absurd (ground (arith, h, e))
        | inl (ids, e) ↦ (ids, ground (arith, h, e))
      ]

  -- `claim_due` gives out only jobs that nobody holds, and each one is then held under the token that
  -- was drawn for it.
  pub claim_due-IsClaimed :
      (t t' : Jobs) (now lease_seconds : ℕ) (token : String → String) (claimed : List String)
      (id : String)
      → claim_due cal t now lease_seconds token ≡ ok (claimed, t')
      → mem id claimed ≡ true
      → (claim_token_of t id ≡ none) × IsClaimed t' id (token id)
  claim_due-IsClaimed t t' now lease_seconds token claimed id h m =
      let (ids, e) = claim_due-ok t t' now lease_seconds token claimed h in
      let (free, c) = claim_each-free ids t (now + lease_seconds) token id (rw e m) in
      (free, rw e at c)

  -- What the host and the holders do to the table.
  pub data Call : Type 0 where
    adding : String → String → String → Call
    removing : String → Call
    claiming : ℕ → ℕ → (String → String) → Call
    beating : String → ℕ → String → ℕ → Call
    marking : String → ℕ → Option String → Call
    retrying : String → ℕ → Call

  abbrev pub kept : {A : Type 0} → (A → Jobs) → Jobs → Outcome A → Jobs
  kept f t (ok a) = f a
  kept f t (err e) = t

  unfoldable pub call : Jobs → Call → Jobs
  call t (Call.adding schedule goal fresh_id) = kept (λ x. x) t (add cal t schedule goal fresh_id)
  call t (Call.removing id) = remove t id
  call t (Call.claiming now lease_seconds token) =
      kept (λ x. x.1) t (claim_due cal t now lease_seconds token)
  call t (Call.beating id now token lease_seconds) =
      kept (λ x. x) t (heartbeat t id now token lease_seconds)
  call t (Call.marking id ran_at token) = kept (λ x. x) t (mark_run t id ran_at token)
  call t (Call.retrying id now) = kept (λ x. x) t (retry_unknown t id now)

  unfoldable pub calls : Jobs → List Call → Jobs
  calls t [] = t
  calls t (c ∷ cs) = calls (call t c) cs

  -- The calls that may end a claim: the holder's own mark, a retry and a removal; and a new job has a
  -- new id.
  abbrev pub Spares : String → String → Call → Type 0
  Spares id held (Call.adding schedule goal fresh_id) = (fresh_id == id) ≡ false
  Spares id held (Call.removing job_id) = (job_id == id) ≡ false
  Spares id held (Call.claiming now lease_seconds token) = Unit
  Spares id held (Call.beating job_id now token lease_seconds) = Unit
  Spares id held (Call.marking job_id ran_at none) = Unit
  Spares id held (Call.marking job_id ran_at (some token)) = (job_id == id && held == token) ≡ false
  Spares id held (Call.retrying job_id now) = (job_id == id) ≡ false

  abbrev pub AllSpare : String → String → List Call → Type 0
  AllSpare id held [] = Unit
  AllSpare id held (c ∷ cs) = Spares id held c × AllSpare id held cs

  add-IsClaimed :
      (t t' : Jobs) (schedule goal fresh_id id held : String)
      → (fresh_id == id) ≡ false
      → IsClaimed t id held
      → add cal t schedule goal fresh_id ≡ ok t'
      → IsClaimed t' id held
  unfolding add
  add-IsClaimed t t' schedule goal fresh_id id held differs c h =
      let (s, parsed, h') = >>=-eq-ok (parse cal schedule) _ h in
      let (new, h') = raise_if-passed _ _ _ h' in
      subst (λ y. IsClaimed y id held) (ok-injective h')
        (insert-other t fresh_id id held _ differs c)

  kept-IsClaimed :
      {A : Type 0} (f : A → Jobs) (t : Jobs) (o : Outcome A) (id held : String)
      → IsClaimed t id held
      → ((a : A) → o ≡ ok a → IsClaimed (f a) id held)
      → IsClaimed (kept f t o) id held
  kept-IsClaimed f t (ok a) id held c k = k a refl
  kept-IsClaimed f t (err e) id held c k = c

  claiming-IsClaimed :
      (t : Jobs) (now lease_seconds : ℕ) (token : String → String) (id held : String)
      (x : List String × Jobs)
      → IsClaimed t id held
      → claim_due cal t now lease_seconds token ≡ ok x
      → (mem id x.0 ≡ false) × IsClaimed x.1 id held
  claiming-IsClaimed t now lease_seconds token id held (claimed, t') c h =
      let (ids, e) = claim_due-ok t t' now lease_seconds token claimed h in
      let (out, still) = claim_each-IsClaimed ids t (now + lease_seconds) token id held c in
      (rw e at out, rw e at still)

  call-IsClaimed :
      (t : Jobs) (c : Call) (id held : String)
      → Spares id held c
      → IsClaimed t id held
      → IsClaimed (call t c) id held
  unfolding call
  call-IsClaimed t (Call.adding schedule goal fresh_id) id held s claim =
      kept-IsClaimed (λ x. x) t (add cal t schedule goal fresh_id) id held claim
        (λ t' h. add-IsClaimed t t' schedule goal fresh_id id held s claim h)
  call-IsClaimed t (Call.removing job_id) id held s claim =
      remove-IsClaimed t job_id id held s claim
  call-IsClaimed t (Call.claiming now lease_seconds token) id held s claim =
      kept-IsClaimed (λ x. x.1) t (claim_due cal t now lease_seconds token) id held claim
        (λ x h. (claiming-IsClaimed t now lease_seconds token id held x claim h).1)
  call-IsClaimed t (Call.beating job_id now token lease_seconds) id held s claim =
      kept-IsClaimed (λ x. x) t (heartbeat t job_id now token lease_seconds) id held claim
        (λ t' h. heartbeat-IsClaimed t t' job_id now token lease_seconds id held claim h)
  call-IsClaimed t (Call.marking job_id ran_at none) id held s claim =
      kept-IsClaimed (λ x. x) t (mark_run t job_id ran_at none) id held claim
        (λ t' h. unheld_mark-IsClaimed t t' job_id ran_at id held claim h)
  call-IsClaimed t (Call.marking job_id ran_at (some token)) id held s claim =
      kept-IsClaimed (λ x. x) t (mark_run t job_id ran_at (some token)) id held claim
        (λ t' h. mark_run-IsClaimed t t' job_id ran_at token id held s claim h)
  call-IsClaimed t (Call.retrying job_id now) id held s claim =
      kept-IsClaimed (λ x. x) t (retry_unknown t job_id now) id held claim
        (λ t' h. retry_unknown-IsClaimed t t' job_id now id held s claim h)

  calls-IsClaimed :
      (cs : List Call) (t : Jobs) (id held : String)
      → AllSpare id held cs
      → IsClaimed t id held
      → IsClaimed (calls t cs) id held
  unfolding calls
  calls-IsClaimed [] t id held s claim = claim
  calls-IsClaimed (c ∷ cs) t id held s claim =
      calls-IsClaimed cs (call t c) id held s.1 (call-IsClaimed t c id held s.0 claim)

  -- While a job is claimed, no `claim_due` gives it out again, at any time and also when the lease has
  -- run out, whatever calls come between, unless its own holder marks it, or the host reconciles it
  -- with `retry_unknown` or removes it; and it stays claimed under the same token.
  pub claim_due-exclusive :
      (cs : List Call) (t : Jobs) (id held : String) (now lease_seconds : ℕ)
      (token : String → String) (x : List String × Jobs)
      → IsClaimed t id held
      → AllSpare id held cs
      → claim_due cal (calls t cs) now lease_seconds token ≡ ok x
      → (mem id x.0 ≡ false) × IsClaimed x.1 id held
  claim_due-exclusive cs t id held now lease_seconds token x claim spared h =
      claiming-IsClaimed (calls t cs) now lease_seconds token id held x
        (calls-IsClaimed cs t id held spared claim) h

-- ===== src/Scheduler/Steps.antt =====
-- What each operation does to a claim (scheduler.py).
use openmuse.Common.{
  ℕ, ◌+◌, ◌≤◌, String, ◌≡◌, inl, inr, refl, true, false, ◌&&◌, Option, none, some, List, [], ◌∷◌,
  ◌==◌, eq_iff, eq_refl, arith, lookup, insert, lookup-insert, lookup-erase, mem, ok, Bool-cases,
  Option-cases, subst, ap, ◌∙◌,
}
use openmuse.Scheduler.{
  Job, Jobs, claim_each, holds, remove, heartbeat, mark_run, retry_unknown, claim_token_of,
}

-- The job is claimed under this token.
pub record IsClaimed (t : Jobs) (id token : String) : Type 0 where
  pub job : Job
  pub stored : lookup id t ≡ some job
  pub held : job.claim_token ≡ some token

-- A claimed job is left out, and stays claimed under its token.
pub claim_each-IsClaimed :
    (ids : List String) (t : Jobs) (until : ℕ) (token : String → String) (id held : String)
    → IsClaimed t id held
    → (mem id (claim_each t ids until token).0 ≡ false)
      × IsClaimed (claim_each t ids until token).1 id held
unfolding claim_each
claim_each-IsClaimed [] t until token id held c = (refl, c)
claim_each-IsClaimed (j ∷ ids) t until token id held c = elim (Option-cases (lookup j t)) [
  | inl e ↦ rw (e, claim_each) (claim_each-IsClaimed ids t until token id held c)
  | inr (job, e) ↦ elim (Option-cases job.claim_token) [
    | inr (other, f) ↦ rw (e, f, claim_each) (claim_each-IsClaimed ids t until token id held c)
    | inl f ↦
        let job' =
          let x : Job = record job { lease_until = some until; claim_token = some (token j) } in
          x in
        let differs : (j == id) ≡ false = ground (arith, e, f, c.stored, c.held, eq_iff j id) in
        let (out, still) = claim_each-IsClaimed ids (insert j job' t) until token id held (record {
          job = c.job;
          stored = ground (arith, differs, c.stored, lookup-insert j id job' t);
          held = c.held;
        }) in
        rw (e, f, claim_each) (ground (arith, differs, out), still)
  ]
]

-- What a claim gives: the jobs in it were free before, and are now claimed under their own token.
pub claim_each-free :
    (ids : List String) (t : Jobs) (until : ℕ) (token : String → String) (id : String)
    → mem id (claim_each t ids until token).0 ≡ true
    → (claim_token_of t id ≡ none) × IsClaimed (claim_each t ids until token).1 id (token id)
unfolding claim_each claim_token_of
claim_each-free [] t until token id m = absurd (cc)
claim_each-free (j ∷ ids) t until token id m = elim (Option-cases (lookup j t)) [
  | inl e ↦ rw (e, claim_each) (claim_each-free ids t until token id (rw (e, claim_each) at m))
  | inr (job, e) ↦ elim (Option-cases job.claim_token) [
    | inr (other, f) ↦
        rw (e, f, claim_each) (claim_each-free ids t until token id (rw (e, f, claim_each) at m))
    | inl f ↦
        let job' =
          let x : Job = record job { lease_until = some until; claim_token = some (token j) } in
          x in
        let t' = insert j job' t in
        elim (Bool-cases (j == id)) [
          | inl same ↦
              let is_id = (eq_iff j id).0 same in
              let (out, still) = claim_each-IsClaimed ids t' until token id (token id) (record {
                job = job';
                stored = ground (arith, same, lookup-insert j id job' t);
                held = ap (λ k. some (token k)) is_id;
              }) in
              rw (e, f, claim_each) (ground (arith, e, f, is_id), still)
          | inr differs ↦
              let (free, claimed) =
                claim_each-free ids t' until token id
                  (ground (arith, rw (e, f, claim_each) at m, differs)) in
              rw (e, f, claim_each)
                (ground (arith, free, differs, lookup-insert j id job' t), claimed)
        ]
  ]
]

pub insert-other :
    (t : Jobs) (j id held : String) (x : Job)
    → (j == id) ≡ false
    → IsClaimed t id held
    → IsClaimed (insert j x t) id held
insert-other t j id held x differs c = record {
  job = c.job;
  stored = ground (arith, differs, c.stored, lookup-insert j id x t);
  held = c.held;
}

-- A row that is stored again with its claim.
pub insert-kept :
    (t : Jobs) (j id held : String) (job x : Job)
    → lookup j t ≡ some job
    → x.claim_token ≡ job.claim_token
    → IsClaimed t id held
    → IsClaimed (insert j x t) id held
insert-kept t j id held job x e same c = elim (Bool-cases (j == id)) [
  | inr differs ↦ insert-other t j id held x differs c
  | inl is_id ↦ record {
    job = x;
    stored = ground (arith, is_id, lookup-insert j id x t);
    held = same ∙ claim_of e is_id c;
  }
]
  where
    claim_of :
        lookup j t ≡ some job → (j == id) ≡ true → IsClaimed t id held → job.claim_token ≡ some held
    claim_of e is_id c = ground (arith, e, (eq_iff j id).0 is_id, c.stored, c.held)

pub remove-IsClaimed :
    (t : Jobs) (j id held : String)
    → (j == id) ≡ false
    → IsClaimed t id held
    → IsClaimed (remove t j) id held
unfolding remove
remove-IsClaimed t j id held differs c = record {
  job = c.job;
  stored = ground (arith, differs, c.stored, lookup-erase j id t);
  held = c.held;
}

pub heartbeat-IsClaimed :
    (t t' : Jobs) (j : String) (now : ℕ) (token : String) (lease_seconds : ℕ) (id held : String)
    → IsClaimed t id held
    → heartbeat t j now token lease_seconds ≡ ok t'
    → IsClaimed t' id held
unfolding heartbeat
heartbeat-IsClaimed t t' j now token lease_seconds id held c h = elim (Option-cases (lookup j t)) [
  | inl e ↦ absurd (ground (arith, h, e))
  | inr (job, e) ↦
      let x = let y : Job = record job { lease_until = some (now + lease_seconds) } in y in
      let is_t : insert j x t ≡ t' = ground (arith, h, e) in
      subst (λ y. IsClaimed y id held) is_t (insert-kept t j id held job x e refl c)
]

pub unheld_mark-IsClaimed :
    (t t' : Jobs) (j : String) (ran_at : ℕ) (id held : String)
    → IsClaimed t id held
    → mark_run t j ran_at none ≡ ok t'
    → IsClaimed t' id held
unfolding mark_run
unheld_mark-IsClaimed t t' j ran_at id held c h = elim (Option-cases (lookup j t)) [
  | inl e ↦ absurd (ground (arith, h, e))
  | inr (job, e) ↦
      let x = let y : Job = record job { last_run = some ran_at } in y in
      let is_t : insert j x t ≡ t' = ground (arith, h, e) in
      subst (λ y. IsClaimed y id held) is_t (insert-kept t j id held job x e refl c)
]

pub mark_run-IsClaimed :
    (t t' : Jobs) (j : String) (ran_at : ℕ) (token id held : String)
    → (j == id && held == token) ≡ false
    → IsClaimed t id held
    → mark_run t j ran_at (some token) ≡ ok t'
    → IsClaimed t' id held
unfolding mark_run
mark_run-IsClaimed t t' j ran_at token id held s c h = elim (Option-cases (lookup j t)) [
  | inl e ↦ absurd (ground (arith, h, e))
  | inr (job, e) ↦
      let x =
        let y : Job = record job {
          last_run = some ran_at;
          lease_until = none;
          claim_token = none;
        } in
        y in
      let is_t : insert j x t ≡ t' = ground (arith, h, e) in
      let mine : holds job.claim_token token ≡ true = ground (arith, h, e) in
      let differs : (j == id) ≡ false = ground (arith, s, mine, e, c.stored, c.held, eq_iff j id) in
      subst (λ y. IsClaimed y id held) is_t (insert-other t j id held x differs c)
]

pub retry_unknown-IsClaimed :
    (t t' : Jobs) (j : String) (now : ℕ) (id held : String)
    → (j == id) ≡ false
    → IsClaimed t id held
    → retry_unknown t j now ≡ ok t'
    → IsClaimed t' id held
unfolding retry_unknown
retry_unknown-IsClaimed t t' j now id held differs c h = elim (Option-cases (lookup j t)) [
  | inl e ↦ absurd (ground (arith, h, e))
  | inr (job, e) ↦
      let x = let y : Job = record job { lease_until = none; claim_token = none } in y in
      let is_t : insert j x t ≡ t' = ground (arith, h, e) in
      subst (λ y. IsClaimed y id held) is_t (insert-other t j id held x differs c)
]

-- A mark with a token succeeds only for the holder of the claim: the job is then free again and
-- has run at the given time.
pub mark_run-ok :
    (t t' : Jobs) (j : String) (ran_at : ℕ) (token : String)
    → mark_run t j ran_at (some token) ≡ ok t'
    → IsClaimed t j token
      × ((job : Job) × (lookup j t' ≡ some job)
          × (job.claim_token ≡ none)
          × (job.lease_until ≡ none)
          × (job.last_run ≡ some ran_at))
unfolding mark_run
mark_run-ok t t' j ran_at token h = elim (Option-cases (lookup j t)) [
  | inl e ↦ absurd (ground (arith, h, e))
  | inr (job, e) ↦
      let x =
        let y : Job = record job {
          last_run = some ran_at;
          lease_until = none;
          claim_token = none;
        } in
        y in
      (
        record {
          job = job;
          stored = e;
          held = holds-eq job.claim_token token (ground (arith, h, e));
        },
        (x, ground (arith, h, e, lookup-insert j j x t, eq_refl j), refl, refl, refl),
      )
]
  where
    holds-eq : (o : Option String) (s : String) → holds o s ≡ true → o ≡ some s
    holds-eq none s k = absurd (cc)
    holds-eq (some a) s k = ground (arith, k, eq_iff a s)

-- `retry_unknown` frees a job only when it is claimed and its lease has run out.
pub retry_unknown-ok :
    (t t' : Jobs) (j : String) (now : ℕ)
    → retry_unknown t j now ≡ ok t'
    → (job : Job) × (until : ℕ) × (held : String) × (lookup j t ≡ some job)
      × (job.claim_token ≡ some held)
      × (job.lease_until ≡ some until)
      × (until ≤ now)
      × (claim_token_of t' j ≡ none)
unfolding retry_unknown claim_token_of
retry_unknown-ok t t' j now h = elim (Option-cases (lookup j t)) [
  | inl e ↦ absurd (ground (arith, h, e))
  | inr (job, e) ↦ elim (Option-cases job.lease_until) [
    | inl f ↦ absurd (ground (arith, h, e, f))
    | inr (until, f) ↦ elim (Option-cases job.claim_token) [
      | inl g ↦ absurd (ground (arith, h, e, f, g))
      | inr (held, g) ↦
          let x = let y : Job = record job { lease_until = none; claim_token = none } in y in
          (
            job,
            until,
            held,
            e,
            g,
            f,
            ground (arith, h, e, f, g),
            ground (arith, h, e, f, g, lookup-insert j j x t, eq_refl j),
          )
    ]
  ]
]

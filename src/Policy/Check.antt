-- ===== src/Policy/Check.antt =====
-- When `Policy.check` lets an action through (policy.py).
use openmuse.Common.{
  ℕ, ◌≡◌, inl, inr, refl, Bool, true, false, none, some, Outcome, ok, err, arith, Option-cases,
  Bool-cases, if◌then◌else◌,
}
use openmuse.Models.{Action}
use openmuse.Policy.{Risk, Decision, Authority, Policy, allow, deny, is_read, decide, ask, check}

module _ (a : Authority) where
  -- An approval was asked for and given: the authority's `verify` returned `True` for the action's
  -- own token, and its state is the one that the call left.
  pub record Approved (p : Policy a) (action : Action) (now : ℕ) (after : Policy a) : Type 0 where
    pub state : a.State
    pub held : p.approvals ≡ some state
    pub verified : (a.verify state action action.approval_token now).0 ≡ ok true
    pub kept :
        after ≡ record p { approvals = some (a.verify state action action.approval_token now).1 }

  decide-allowed :
      (risk : Risk) (p : Policy a) (v : Outcome Bool × a.State) (d : Decision)
      → (decide a risk p v).0 ≡ ok d
      → d.allowed ≡ true
      → (v.0 ≡ ok true) × ((decide a risk p v).1 ≡ record p { approvals = some v.1 })
  decide-allowed risk p (ok true, s) d h k = (refl, refl)
  decide-allowed risk p (ok false, s) d h k = absurd (ground arith)
  decide-allowed risk p (err e, s) d h k = cc

  ask-allowed :
      (p : Policy a) (risk : Risk) (action : Action) (now : ℕ) (d : Decision)
      → (ask a p risk action now).0 ≡ ok d
      → d.allowed ≡ true
      → Approved p action now (ask a p risk action now).1
  unfolding ask
  ask-allowed p risk action now d h k = elim (Option-cases p.approvals) [
    | inl e ↦ absurd (ground (arith, e))
    | inr (s, e) ↦
        let v : Outcome Bool × a.State = a.verify s action action.approval_token now in
        let same : ask a p risk action now ≡ decide a risk p v = ground (arith, e) in
        let (given, kept) = decide-allowed risk p v d (rw same at h) k in
        record { state = s; held = e; verified = given; kept = same_state same kept }
  ]
    where
      same_state : {x y : Outcome Decision × Policy a} {q : Policy a} → x ≡ y → y.1 ≡ q → x.1 ≡ q
      same_state e f = cc

  -- Why an action was let through: it only reads, or it writes and writes are enabled, with the
  -- approvals untouched; or its own token was approved by the authority.
  pub data Reason (p : Policy a) (risk : Risk) (action : Action) (now : ℕ) (after : Policy a)
      : Type 0 where
    reads : risk ≡ Risk.read → after ≡ p → Reason p risk action now after
    writes : risk ≡ Risk.write → p.allow_writes ≡ true → after ≡ p → Reason p risk action now after
    approved : Approved p action now after → Reason p risk action now after

  -- Every action that the policy lets through has a reason; money and representation have only the
  -- third one.
  pub check-allowed :
      (p : Policy a) (risk : Risk) (action : Action) (now : ℕ) (d : Decision)
      → (check a p risk action now).0 ≡ ok d
      → d.allowed ≡ true
      → Reason p risk action now (check a p risk action now).1
  unfolding check
  check-allowed p Risk.read action now d h k = Reason.reads refl refl
  check-allowed p Risk.write action now d h k = elim (Bool-cases p.allow_writes) [
    | inl on ↦ Reason.writes refl on (ground (arith, on))
    | inr off ↦
        let same : check a p Risk.write action now ≡ ask a p Risk.write action now =
          ground (arith, off) in
        simp off (Reason.approved (ask-allowed p Risk.write action now d (rw same at h) k))
  ]
  check-allowed p risk action now d h k = Reason.approved (ask-allowed p risk action now d h k)

  -- With no approvals and writes off, only reads are let through.
  pub check-denied :
      (p : Policy a) (risk : Risk) (action : Action) (now : ℕ)
      → p.approvals ≡ none
      → p.allow_writes ≡ false
      → check a p risk action now
        ≡ (ok (if is_read risk then allow "read-only action" else deny risk), p)
  unfolding check ask
  check-denied p risk action now h k = ground arith

  -- What the authority approves is let through, whatever its risk.
  pub check-given :
      (p : Policy a) (risk : Risk) (action : Action) (now : ℕ) (state after : a.State)
      → p.approvals ≡ some state
      → a.verify state action action.approval_token now ≡ (ok true, after)
      → (d : Decision) × ((check a p risk action now).0 ≡ ok d) × (d.allowed ≡ true)
  unfolding check ask
  check-given p Risk.read action now state after held given = (allow "read-only action", refl, refl)
  check-given p Risk.write action now state after held given = elim (Bool-cases p.allow_writes) [
    | inl on ↦ (allow "writes enabled for this run", ground (arith, on), refl)
    | inr off ↦ (allow "valid one-time approval", ground (arith, off, held, given), refl)
  ]
  check-given p Risk.represent action now state after held given =
      (allow "valid one-time approval", ground (arith, held, given), refl)
  check-given p Risk.money action now state after held given =
      (allow "valid one-time approval", ground (arith, held, given), refl)

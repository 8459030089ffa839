-- ===== src/Approvals/SingleUse.antt =====
-- How often a token is accepted over a sequence of calls of `verify` (approvals.py).
use openmuse.Common.{
  ℕ, ◌≡◌, ◌⊎◌, refl, ap, Bool, true, false, Option, none, some, List, [], ◌∷◌, if◌then◌else◌, Text,
  mem_text, Outcome, ok, err, arith, Bool-cases, Option-cases, inl, inr, text_eq→eq, text_eq_refl,
}
use openmuse.Models.{Action}
use openmuse.Runtime.{Runtime}
use openmuse.Approvals.{ApprovalAuthority, settle, checked, compare_digest, verify_token, verify}
use openmuse.Approvals.Verify.{verify_sound}

-- One call: the action, the token and the clock's reading.
abbrev pub Attempt : Type 0
Attempt = Action × Option Text × ℕ

abbrev pub succeeded : Outcome Bool → Bool
succeeded (ok b) = b
succeeded (err e) = false

succeeded-true : (o : Outcome Bool) → succeeded o ≡ true → o ≡ ok true
succeeded-true (ok true) h = refl
succeeded-true (ok false) h = cc
succeeded-true (err e) h = cc

abbrev pub given : Option Text → Text
given none = []
given (some t) = t

abbrev pub Distinct : List Text → Type 0
Distinct [] = Unit
Distinct (t ∷ ts) = (mem_text t ts ≡ false) × Distinct ts

module _ (r : Runtime) where
  -- The tokens that a sequence of calls accepts, in order, and the authority after it.
  unfoldable pub run : ApprovalAuthority → List Attempt → List Text × ApprovalAuthority
  run a [] = ([], a)
  run a ((action, token, now) ∷ rest) =
      let (o, a') = verify r a action token now in
      let (accepted, final) = run a' rest in
      (if succeeded o then given token ∷ accepted else accepted, final)

  settle-false :
      (a : ApprovalAuthority) (token : Text) (o : Outcome Bool)
      → succeeded (settle r a token o).0 ≡ false
      → (settle r a token o).1 ≡ a
  unfolding settle
  settle-false a token (ok true) h = ground arith
  settle-false a token (ok false) h = refl
  settle-false a token (err e) h = refl

  -- A call that does not return `True` leaves the authority as it was.
  pub verify-unchanged :
      (a : ApprovalAuthority) (action : Action) (token : Option Text) (now : ℕ)
      → succeeded (verify r a action token now).0 ≡ false
      → (verify r a action token now).1 ≡ a
  unfolding verify verify_token
  verify-unchanged a action none now h = refl
  verify-unchanged a action (some []) now h = refl
  verify-unchanged a action (some (c ∷ t)) now h =
      elim (Option-cases (checked r action (c ∷ t) now)) [
        | inl e ↦ ground (arith, e)
        | inr ((raw, sig), e) ↦
            ground (arith, e, settle-false a (c ∷ t) (compare_digest sig (r.hmac a.secret raw)))
      ]

  -- A call either changes nothing, or accepts a fresh token and marks it.
  verify-cases :
      (a : ApprovalAuthority) (action : Action) (token : Option Text) (now : ℕ)
      → (succeeded (verify r a action token now).0 ≡ false) × ((verify r a action token now).1 ≡ a)
        ⊎ (succeeded (verify r a action token now).0 ≡ true)
          × (mem_text (given token) a.used ≡ false)
          × ((verify r a action token now).1 ≡ record a { used = given token ∷ a.used })
  verify-cases a action token now = elim (Bool-cases (succeeded (verify r a action token now).0)) [
    | inl yes_ ↦
        let (t, e, acc, after) =
          verify_sound r a action token now (succeeded-true (verify r a action token now).0 yes_) in
        let same : given token ≡ t = ap given e in inr (yes_, rw same acc.fresh, cc)
    | inr no_ ↦ inl (no_, verify-unchanged a action token now no_)
  ]

  -- A token that is used already is not accepted again.
  accepted-used :
      (attempts : List Attempt) (a : ApprovalAuthority) (t : Text)
      → mem_text t a.used ≡ true
      → mem_text t (run a attempts).0 ≡ false
  unfolding run mem_text
  accepted-used [] a t h = refl
  accepted-used ((action, token, now) ∷ rest) a t h = elim (verify-cases a action token now) [
    | inl (fails, same) ↦ ground (arith, fails, same, accepted-used rest a t h)
    | inr (passes, fresh, after) ↦ ground (
      arith,
      passes,
      fresh,
      after,
      text_eq→eq (given token) t,
      accepted-used rest (record a { used = given token ∷ a.used }) t,
    )
  ]

  accepted-Distinct :
      (attempts : List Attempt) (a : ApprovalAuthority) → Distinct (run a attempts).0
  unfolding run mem_text
  accepted-Distinct [] a = tt
  accepted-Distinct ((action, token, now) ∷ rest) a = elim (verify-cases a action token now) [
    | inl (fails, same) ↦ ground (arith, fails, same, accepted-Distinct rest a)
    | inr (passes, fresh, after) ↦
        let a' : ApprovalAuthority = record a { used = given token ∷ a.used } in
        ground (
          arith,
          passes,
          after,
          accepted-Distinct rest a',
          accepted-used rest a' (given token) (ground (arith, text_eq_refl (given token))),
        )
  ]

  -- Over any sequence of calls, for any actions and at any times, no token text is accepted twice,
  -- and none that was used before the first call.
  pub run-Distinct :
      (attempts : List Attempt) (a : ApprovalAuthority)
      → Distinct (run a attempts).0
        × ((t : Text) → mem_text t a.used ≡ true → mem_text t (run a attempts).0 ≡ false)
  run-Distinct attempts a = (accepted-Distinct attempts a, accepted-used attempts a)

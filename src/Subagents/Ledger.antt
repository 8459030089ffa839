-- ===== src/Subagents/Ledger.antt =====
-- How often the ledger lets a grant be used, over any calls of its sharers (subagents.py).
use openmuse.Common.{
  ℕ, ◌+◌, ◌≤◌, ◌<◌, String, ◌≡◌, Bool, true, false, ◌&&◌, ◌||◌, none, List, [], ◌∷◌, ◌==◌, eq_iff,
  eq_refl, if◌then◌else◌, arith, Dict, lookup, insert, lookup-insert, Text, mem_text, text_eq_refl,
  Bool-cases, Option-cases, inl, inr, pos,
}
use openmuse.Subagents.{GrantLedger, Budgets, used_of, exhausted, charge, consume}

abbrev pub has_id : String → Budgets → Bool
has_id k [] = false
has_id k ((id, n) ∷ bs) = id == k || has_id k bs

-- The uses of a grant that the ledger has recorded.
abbrev pub uses : String → GrantLedger → ℕ
uses id l = used_of (lookup id l.quota)

-- Distinct grants, each with its own limit, which is at least one.
abbrev pub Fair : (String → ℕ) → Budgets → Type 0
Fair limit [] = Unit
Fair limit ((id, n) ∷ bs) =
    (n ≡ pos (limit id)) × (0 < limit id) × (has_id id bs ≡ false) × Fair limit bs

lookup-charge :
    (limit : String → ℕ) (bs : Budgets) (k : String) (q : Dict ℕ)
    → Fair limit bs
    → used_of (lookup k (charge q bs)) ≡ used_of (lookup k q) + (if has_id k bs then 1 else 0)
unfolding charge
lookup-charge limit [] k q f = omega arith
lookup-charge limit ((id, n) ∷ bs) k q f =
    let next : ℕ = used_of (lookup id q) + 1 in
    ground (
      arith,
      lookup-charge limit bs k (insert id next q) f.3,
      lookup-insert id k next q,
      eq_iff id k,
    )

exhausted-lt :
    (limit : String → ℕ) (bs : Budgets) (k : String) (q : Dict ℕ)
    → Fair limit bs
    → exhausted q bs ≡ false
    → has_id k bs ≡ true
    → used_of (lookup k q) < limit k
unfolding exhausted
exhausted-lt limit [] k q f h m = absurd (cc)
exhausted-lt limit ((id, n) ∷ bs) k q f h m = elim (Bool-cases (id == k)) [
  | inr other ↦ exhausted-lt limit bs k q f.3 (ground (arith, h)) (ground (arith, m, other))
  | inl same ↦ elim (Option-cases (lookup id q)) [
    | inl e ↦ ground (arith, f.0, f.1, h, e, same, eq_iff id k)
    | inr (c, e) ↦ ground (arith, f.0, f.1, h, e, same, eq_iff id k)
  ]
]

-- One call: the budgets of the delegate that makes it, and the token's digest.
abbrev pub Call : Type 0
Call = Budgets × Text

abbrev pub AllFair : (String → ℕ) → List Call → Type 0
AllFair limit [] = Unit
AllFair limit ((bs, t) ∷ calls) = Fair limit bs × AllFair limit calls

-- The calls that were accepted and count against `id`.
unfoldable pub accepted : String → GrantLedger → List Call → ℕ
accepted id l [] = 0
accepted id l ((bs, t) ∷ calls) =
    let (b, l') = consume l bs t in (if b && has_id id bs then 1 else 0) + accepted id l' calls

consume-uses :
    (limit : String → ℕ) (id : String) (l : GrantLedger) (bs : Budgets) (t : Text)
    → Fair limit bs
    → uses id l ≤ limit id
    → (uses id (consume l bs t).1
        ≡ (if (consume l bs t).0 && has_id id bs then 1 else 0) + uses id l)
      × (uses id (consume l bs t).1 ≤ limit id)
unfolding consume
consume-uses limit id l bs t f h =
    ground (arith, lookup-charge limit bs id l.quota f, exhausted-lt limit bs id l.quota f)

-- Whoever shares a grant's budget, its siblings and descendants, and in whatever order they call, no
-- more calls are accepted than the grant has uses left, when each call is charged to distinct grants
-- under their own limits, every limit is at least one, and the ledger is within the limit at first.
pub accepted-le-limit :
    (limit : String → ℕ) (id : String) (calls : List Call) (l : GrantLedger)
    → AllFair limit calls
    → uses id l ≤ limit id
    → uses id l + accepted id l calls ≤ limit id
unfolding accepted
accepted-le-limit limit id [] l f h = omega arith
accepted-le-limit limit id ((bs, t) ∷ calls) l f h =
    let (counted, within) = consume-uses limit id l bs t f.0 h in
    let rest = accepted-le-limit limit id calls (consume l bs t).1 f.1 within in omega arith

-- A token's digest is redeemed once: a call that is accepted was the first with it, and every later
-- call with it, by whichever delegate, is refused and changes nothing.
pub consume_once :
    (l : GrantLedger) (bs bs' : Budgets) (t : Text)
    → (consume l bs t).0 ≡ true
    → (mem_text t l.redemptions ≡ false)
      × (consume (consume l bs t).1 bs' t ≡ (false, (consume l bs t).1))
unfolding consume mem_text
consume_once l bs bs' t h = ground (arith, h, text_eq_refl t)

-- A grant with no uses at all is accepted once, because a missing row passes the test.
pub zero_quota_accepts :
    (l : GrantLedger) (id : String) (t : Text)
    → lookup id l.quota ≡ none
    → mem_text t l.redemptions ≡ false
    → ((consume l ((id, pos 0) ∷ []) t).0 ≡ true) × (uses id (consume l ((id, pos 0) ∷ []) t).1 ≡ 1)
unfolding consume exhausted charge
zero_quota_accepts l id t missing fresh = ground (
  arith,
  missing,
  fresh,
  lookup-insert id id (used_of (lookup id l.quota) + 1) l.quota,
  eq_refl id,
)

-- ===== src/Limits/Once.antt =====
-- How often a retry and a value are given (evidence.py, ephemeral.py).
use openmuse.Common.{
  ℕ, ◌+◌, ◌≤◌, String, ◌≡◌, inl, inr, Bool, not, ◌||◌, List, [], ◌∷◌, eq_refl, leb, if◌then◌else◌,
  arith, lookup, lookup-insert, lookup-erase, err, key_error, Bool-cases, Option-cases,
}
use openmuse.Limits.{RetryBudget, take, EphemeralBroker, issue, fits, consume}

-- How many of the requests for a retry are granted.
unfoldable pub granted : RetryBudget → List Bool → ℕ
granted b [] = 0
granted b (r ∷ rs) = let (given, b') = take b r in (if given then 1 else 0) + granted b' rs

-- Whatever is asked, no more retries are granted than the budget has left.
pub granted-le :
    (rs : List Bool) (b : RetryBudget)
    → b.attempts ≤ b.maximum
    → granted b rs + b.attempts ≤ b.maximum
unfolding granted take
granted-le [] b h = omega arith
granted-le (r ∷ rs) b h = elim (Bool-cases (not r || leb b.maximum b.attempts)) [
  | inl off ↦ let rest = granted-le rs b h in ground (arith, off, rest)
  | inr on ↦
      let b' = let x : RetryBudget = record b { attempts = b.attempts + 1 } in x in
      let rest = granted-le rs b' (ground (arith, on)) in ground (arith, on, rest)
]

-- A handle is good for one call, whatever comes of it: after a call with it, right or wrong, every
-- further one finds nothing, until the handle is issued again.
pub consume_one_time :
    (values : EphemeralBroker) (handle purpose purpose' : String) (now later : ℕ)
    → let rest = (consume values handle purpose now).1 in
      consume rest handle purpose' later ≡ (err (key_error handle), rest)
unfolding consume
consume_one_time values handle purpose purpose' now later =
    elim (Option-cases (lookup handle values)) [
      | inl e ↦ ground (arith, e)
      | inr (h, e) ↦ ground (arith, e, lookup-erase handle handle values, eq_refl handle)
    ]

-- A value that was issued is given for its purpose until it expires, and for no other.
pub consume-issue :
    (values : EphemeralBroker) (value purpose asked handle : String) (ttl_seconds now later : ℕ)
    → (consume (issue values value purpose ttl_seconds handle now).1 handle asked later).0
      ≡ fits (record { value = value; expires = now + ttl_seconds; bound = purpose }) asked later
unfolding consume issue
consume-issue values value purpose asked handle ttl_seconds now later = ground (
  arith,
  lookup-insert handle handle
      (record { value = value; expires = now + ttl_seconds; bound = purpose }) values,
  eq_refl handle,
)

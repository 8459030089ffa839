-- ===== src/Subagents.antt =====
-- src/openmuse/subagents.py: grants that a host delegates. Sets of tool names are lists, compared as
-- sets; times are in the clock's ticks. The ledger's two tables are a dict and a list. A grant's
-- tools are walked in the order of the list.
pub mod Narrowing
pub mod Ledger
mod Tests
use openmuse.Common.{
  ℕ, suc, ◌+◌, String, ◌≡◌, Bool, true, false, not, ◌&&◌, ◌||◌, Option, none, some, List, [], ◌∷◌,
  ◌++◌, ◌==◌, ltb, leb, eqb, if◌then◌else◌, Dict, lookup, insert, mem, subset, all, any, is_some,
  Text, mem_text, Outcome, ok, err, grant_error, type_error, ℤ, pos, leb_ℤ, eqb_ℤ, ◌>>=◌, ◌>>◌,
  raise_if,
}
use openmuse.Common.Json.{Json, Fields, field, end, get, json_eq}
use openmuse.Models.{Action}
use openmuse.Policy.{Authority}
use openmuse.Runtime.{Runtime}

-- For each tool, the arguments that are fixed and their values.
pub record Grant : Type 0 where
  pub tools : List String
  pub max_uses : Option ℤ
  pub expires_at : Option ℤ
  pub constraints : Dict Fields

-- `self.constraints.get(tool, {})`
unfoldable pub constraints_of : Grant → String → Fields
constraints_of g tool = elim (lookup tool g.constraints) [ none ↦ end | some fs ↦ fs ]

-- `d.get(key) == value`, where a missing key is `None`
unfoldable pub holds : Fields → String → Json → Bool
holds fs key value = elim (get key fs) [ none ↦ json_eq Json.null value | some v ↦ json_eq v value ]

-- `all(d.get(key) == value for key, value in required.items())`
unfoldable pub holds_all : Fields → Fields → Bool
holds_all fs end = true
holds_all fs (field key value required) = holds fs key value && holds_all fs required

-- `parent is not None and (mine is None or mine > parent)` refuses
abbrev pub within_limit : Option ℤ → Option ℤ → Bool
within_limit mine none = true
within_limit none (some p) = false
within_limit (some m) (some p) = leb_ℤ m p

-- The loop over the parent's constraints.
unfoldable pub keeps_constraints : Grant → Dict Fields → Bool
keeps_constraints g [] = true
keeps_constraints g ((tool, required) ∷ rest) =
    (not (mem tool g.tools) || holds_all (constraints_of g tool) required)
    && keeps_constraints g rest

unfoldable pub is_subset_of : Grant → Grant → Bool
is_subset_of g parent =
    subset g.tools parent.tools
    && within_limit g.max_uses parent.max_uses
    && within_limit g.expires_at parent.expires_at
    && keeps_constraints g parent.constraints

-- `mine is not None and mine != parent`
abbrev pub differs : Option ℤ → Option ℤ → Bool
differs none parent = false
differs (some m) none = true
differs (some m) (some p) = not (eqb_ℤ m p)

-- `items >= required` for two sets of items
unfoldable pub has_items : Fields → Fields → Bool
has_items fs end = true
has_items fs (field key value required) =
    elim (get key fs) [ none ↦ false | some v ↦ json_eq v value ] && has_items fs required

-- A list and a dict have no hash.
abbrev pub has_hash : Json → Bool
has_hash (Json.arr vs) = false
has_hash (Json.obj fs) = false
has_hash _ = true

unfoldable pub have_hashes : Fields → Bool
have_hashes end = true
have_hashes (field key value fs) = has_hash value && have_hashes fs

-- `set(mine.items()) > set(required.items())`
abbrev pub has_more : Fields → Fields → Outcome Bool
has_more mine required =
    if have_hashes mine && have_hashes required
    then ok (has_items mine required && not (has_items required mine))
    else err (type_error "unhashable type")

-- `any` over the tools, which stops at the first that is true or raises.
unfoldable pub any_has_more : Grant → Grant → List String → Outcome Bool
any_has_more g parent [] = ok false
any_has_more g parent (tool ∷ tools) =
    let rest = any_has_more g parent tools in
    elim (has_more (constraints_of g tool) (constraints_of parent tool)) [
      | err e ↦ err e
      | ok b ↦ if b then ok true else rest
    ]

unfoldable pub is_strictly_narrower_than : Grant → Grant → Outcome Bool
is_strictly_narrower_than g parent =
    if not (is_subset_of g parent)
    then ok false
    else if not (subset parent.tools g.tools)
        || differs g.max_uses parent.max_uses
        || differs g.expires_at parent.expires_at
    then ok true
    else any_has_more g parent g.tools

-- `time.time() >= expires_at`
abbrev pub expired : Option ℤ → ℕ → Bool
expired none now = false
expired (some e) now = leb_ℤ e (pos now)

unfoldable pub within_grant : Grant → Action → ℕ → Bool
within_grant g action now =
    mem action.tool g.tools
    && not (expired g.expires_at now)
    && holds_all action.arguments (constraints_of g action.tool)

-- The host's database: uses by grant, and the digests of redeemed tokens.
pub record GrantLedger : Type 0 where
  pub quota : Dict ℕ
  pub redemptions : List Text

abbrev pub Budgets : Type 0
Budgets = List (String × ℤ)

abbrev pub used_of : Option ℕ → ℕ
used_of none = 0
used_of (some n) = n

-- `count is not None and count[0] >= limit`
abbrev pub spent : Option ℕ → ℤ → Bool
spent none limit = false
spent (some n) limit = leb_ℤ limit (pos n)

unfoldable pub exhausted : Dict ℕ → Budgets → Bool
exhausted quota [] = false
exhausted quota ((grant_id, limit) ∷ rest) =
    spent (lookup grant_id quota) limit || exhausted quota rest

-- `INSERT ... ON CONFLICT DO UPDATE SET used=used+1` for each budget
unfoldable pub charge : Dict ℕ → Budgets → Dict ℕ
charge quota [] = quota
charge quota ((grant_id, limit) ∷ rest) =
    charge (insert grant_id (used_of (lookup grant_id quota) + 1) quota) rest

-- `GrantLedger.consume`, one transaction: a refusal rolls back.
unfoldable pub consume : GrantLedger → Budgets → Text → Bool × GrantLedger
consume l budgets digest =
    if mem_text digest l.redemptions
    then (false, l)
    else if exhausted l.quota budgets
    then (false, l)
    else (true, record { quota = charge l.quota budgets; redemptions = digest ∷ l.redemptions })

pub record DelegatedAuthority : Type 0 where
  pub grant : Grant
  pub grant_id : String
  pub has_ledger : Bool
  pub budgets : Budgets

-- `DelegatedAuthority.__init__`, with the fresh id and, for a child, its parent's grant. The audit
-- record of the delegation is left to the caller.
unfoldable pub delegate :
    Grant → Option Grant → Bool → Budgets → String → Outcome DelegatedAuthority
delegate grant parent_grant has_ledger ancestor_budgets grant_id = do
  narrower ← elim parent_grant [ none ↦ ok true | some p ↦ is_strictly_narrower_than grant p ]
  raise_if (not narrower)
      (grant_error "a delegated grant must be strictly narrower than its parent")
  raise_if (is_some grant.max_uses && not has_ledger)
      (grant_error "quota requires a host-owned durable grant ledger")
  ok (record {
    grant = grant;
    grant_id = grant_id;
    has_ledger = has_ledger;
    budgets = ancestor_budgets ++ elim grant.max_uses [ none ↦ [] | some n ↦ (grant_id, n) ∷ [] ];
  })

unfoldable pub narrow : DelegatedAuthority → Grant → String → Outcome DelegatedAuthority
narrow d grant grant_id = delegate grant (some d.grant) d.has_ledger d.budgets grant_id

abbrev pub no_budgets : Budgets → Bool
no_budgets [] = true
no_budgets (b ∷ bs) = false

module _ (r : Runtime) (root : Authority) where
  abbrev pub settle : root.State → Bool × GrantLedger → Outcome Bool × (root.State × GrantLedger)
  settle s (b, l) = (ok b, (s, l))

  -- After the root's approval, the budgets are charged.
  unfoldable pub redeem :
      DelegatedAuthority
      → Option Text
      → root.State × GrantLedger
      → Outcome Bool × (root.State × GrantLedger)
  redeem d token (s, l) = if no_budgets d.budgets then (ok true, (s, l)) else elim token [
    | none ↦ (ok false, (s, l))
    | some t ↦
        if d.has_ledger then settle s (consume l d.budgets (r.sha256 t)) else (ok false, (s, l))
  ]

  abbrev pub redeem_if :
      DelegatedAuthority
      → Option Text
      → GrantLedger
      → Outcome Bool × root.State
      → Outcome Bool × (root.State × GrantLedger)
  redeem_if d token l (ok true, s) = redeem d token (s, l)
  redeem_if d token l (ok false, s) = (ok false, (s, l))
  redeem_if d token l (err e, s) = (err e, (s, l))

  -- `DelegatedAuthority.verify`: the root's authority and the host's ledger are shared.
  -- The clock is read once for the grant and once more by the root.
  unfoldable pub verify :
      DelegatedAuthority
      → root.State × GrantLedger
      → Action
      → Option Text
      → ℕ
      → ℕ
      → Outcome Bool × (root.State × GrantLedger)
  verify d (s, l) action token now later =
      if within_grant d.grant action now
      then redeem_if d token l (root.verify s action token later)
      else (ok false, (s, l))

-- ===== src/Subagents/Narrowing.antt =====
-- Whether authority can grow when a grant is delegated (subagents.py).
use openmuse.Common.{
  ℕ, String, ◌≡◌, inl, inr, refl, ap, sym, ◌∙◌, true, false, Option, none, some, List, [], ◌∷◌,
  ◌==◌, eq_iff, eq_refl, arith, Dict, lookup, mem, mem-subset, subset_refl, Bool-cases,
  Option-cases, Outcome, ok, ℤ, eqb_ℤ-refl, ◌>>=◌, >>=-eq-ok, ok-injective, append-nil,
  append_assoc, ◌++◌,
}
use openmuse.Common.Json.{Json, Fields, field, end, get, json_eq}
use openmuse.Common.Json.Laws.{json_eq_trans}
use openmuse.Models.{Action}
use openmuse.Subagents.{
  Grant, constraints_of, holds, holds_all, within_limit, keeps_constraints, is_subset_of, differs,
  any_has_more, is_strictly_narrower_than, expired, within_grant, DelegatedAuthority, delegate,
  narrow,
}

-- No required value is `None`.
abbrev pub NoNulls : Fields → Type 0
NoNulls end = Unit
NoNulls (field k v fs) = (json_eq Json.null v ≡ false) × NoNulls fs

holds-get :
    (k : String) (v : Json) (fs required : Fields)
    → holds_all fs required ≡ true
    → get k required ≡ some v
    → holds fs k v ≡ true
unfolding holds_all get
holds-get k v fs end h e = absurd (cc)
holds-get k v fs (field j w rest) h e = elim (Bool-cases (j == k)) [
  | inl same ↦ ground (arith, h, e, same, eq_iff j k)
  | inr other ↦ holds-get k v fs rest (ground (arith, h)) (ground (arith, e, other))
]

-- A required value that is not `None` is there, and equal.
holds-found :
    (k : String) (v : Json) (fs : Fields)
    → json_eq Json.null v ≡ false
    → holds fs k v ≡ true
    → (x : Json) × (get k fs ≡ some x) × (json_eq x v ≡ true)
unfolding holds
holds-found k v fs solid h = elim (Option-cases (get k fs)) [
  | inl missing ↦ absurd (ground (arith, h, missing, solid))
  | inr (x, found) ↦ (x, found, ground (arith, h, found))
]

-- What equals a value that is not `None` is not `None`.
solid_trans :
    (x v : Json) → json_eq x v ≡ true → json_eq Json.null v ≡ false → json_eq Json.null x ≡ false
solid_trans x v same solid = elim (Bool-cases (json_eq Json.null x)) [
  | inr e ↦ e
  | inl e ↦ absurd (cc (json_eq_trans Json.null x v e same, solid))
]

holds_all_trans :
    (arguments mine required : Fields)
    → NoNulls required
    → holds_all arguments mine ≡ true
    → holds_all mine required ≡ true
    → holds_all arguments required ≡ true
unfolding holds_all
holds_all_trans arguments mine end solid h k = refl
holds_all_trans arguments mine (field key value rest) solid h k =
    let (x, found, same) = holds-found key value mine solid.0 (ground (arith, k)) in
    let mine_solid = solid_trans x value same solid.0 in
    let (y, there, equal) =
      holds-found key x arguments mine_solid (holds-get key x arguments mine h found) in
    ground (
      arith,
      holds_by key value arguments y there (json_eq_trans y x value equal same),
      holds_all_trans arguments mine rest solid.1 h (ground (arith, k)),
    )
  where
    holds_by :
        (k : String) (v : Json) (fs : Fields) (x : Json)
        → get k fs ≡ some x
        → json_eq x v ≡ true
        → holds fs k v ≡ true
    holds_by k v fs x e same = unfold holds in ground (arith, e, same)

keeps_constraints-lookup :
    (g : Grant) (d : Dict Fields) (tool : String) (required : Fields)
    → keeps_constraints g d ≡ true
    → lookup tool d ≡ some required
    → mem tool g.tools ≡ true
    → holds_all (constraints_of g tool) required ≡ true
unfolding keeps_constraints lookup
keeps_constraints-lookup g [] tool required h e m = absurd (cc)
keeps_constraints-lookup g ((t, fs) ∷ d) tool required h e m = elim (Bool-cases (t == tool)) [
  | inl same ↦ ground (arith, h, e, same, m, eq_iff t tool)
  | inr other ↦
      keeps_constraints-lookup g d tool required (ground (arith, h)) (ground (arith, e, other)) m
]

keeps_constraints-of :
    (g parent : Grant) (tool : String)
    → keeps_constraints g parent.constraints ≡ true
    → mem tool g.tools ≡ true
    → holds_all (constraints_of g tool) (constraints_of parent tool) ≡ true
keeps_constraints-of g parent tool h m = elim (Option-cases (lookup tool parent.constraints)) [
  | inl e ↦ rw (none_of e) (unfold holds_all in refl)
  | inr (required, e) ↦
      rw (some_of required e) (keeps_constraints-lookup g parent.constraints tool required h e m)
]
  where
    none_of : lookup tool parent.constraints ≡ none → constraints_of parent tool ≡ end
    none_of e = unfold constraints_of in ground (arith, e)

    some_of :
        (fs : Fields) → lookup tool parent.constraints ≡ some fs → constraints_of parent tool ≡ fs
    some_of fs e = unfold constraints_of in ground (arith, e)

expired-within :
    (mine parent : Option ℤ) (now : ℕ)
    → within_limit mine parent ≡ true
    → expired mine now ≡ false
    → expired parent now ≡ false
expired-within mine parent now h k = ground arith

-- An action inside a grant is inside every grant of which it is a subset, provided that the larger
-- one requires no argument of that tool to be `None`.
pub within_grant_mono :
    (g parent : Grant) (action : Action) (now : ℕ)
    → NoNulls (constraints_of parent action.tool)
    → is_subset_of g parent ≡ true
    → within_grant g action now ≡ true
    → within_grant parent action now ≡ true
unfolding within_grant is_subset_of
within_grant_mono g parent action now solid sub h = ground (
  arith,
  mem-subset action.tool g.tools parent.tools,
  expired-within g.expires_at parent.expires_at now,
  holds_all_trans action.arguments (constraints_of g action.tool)
      (constraints_of parent action.tool) solid,
  keeps_constraints-of g parent action.tool,
)

-- What a successful delegation has checked.
pub narrow-ok :
    (d d' : DelegatedAuthority) (g : Grant) (id : String)
    → narrow d g id ≡ ok d'
    → (is_strictly_narrower_than g d.grant ≡ ok true)
      × (d'.grant ≡ g)
      × (d'.has_ledger ≡ d.has_ledger)
      × (d'.budgets ≡ d.budgets ++ elim g.max_uses [ none ↦ [] | some n ↦ (id, n) ∷ [] ])
unfolding narrow delegate
narrow-ok d d' g id h = (ground (arith, h), ground (arith, h), ground (arith, h), ground (arith, h))

strict-subset : (g p : Grant) → is_strictly_narrower_than g p ≡ ok true → is_subset_of g p ≡ true
unfolding is_strictly_narrower_than
strict-subset g p h = ground arith

-- Delegations one below the other, each by `narrow` on the one before.
unfoldable pub narrow_all : DelegatedAuthority → List (Grant × String) → Outcome DelegatedAuthority
narrow_all d [] = ok d
narrow_all d ((g, id) ∷ rest) = do child ← narrow d g id; narrow_all child rest

-- No grant but the last one requires an argument of this tool to be `None`.
abbrev pub AllSolid : String → Grant → List (Grant × String) → Type 0
AllSolid tool g [] = Unit
AllSolid tool g ((g', id) ∷ rest) = NoNulls (constraints_of g tool) × AllSolid tool g' rest

-- Whatever the depth of the delegation, what the last grant permits, the first one permits, as long as
-- no grant but the last requires an argument of the action's tool to be `None`; and the budgets of the
-- first grant are among those of the last.
pub narrow_all-within :
    (rest : List (Grant × String)) (d d' : DelegatedAuthority) (action : Action) (now : ℕ)
    → narrow_all d rest ≡ ok d'
    → AllSolid action.tool d.grant rest
    → within_grant d'.grant action now ≡ true
    → (within_grant d.grant action now ≡ true)
      × ((more : List (String × ℤ)) × (d'.budgets ≡ d.budgets ++ more))
unfolding narrow_all
narrow_all-within [] d d' action now h solid w =
    let same : d ≡ d' = ok-injective h in (rw same w, ([], rw same (sym (append-nil d'.budgets))))
narrow_all-within ((g, id) ∷ rest) d d' action now h solid w =
    let (child, made, below) = >>=-eq-ok (narrow d g id) (λ c. narrow_all c rest) h in
    let (strict, is_g, _, charged) = narrow-ok d child g id made in
    let (inside, (more, budgets)) =
      narrow_all-within rest child d' action now below (rw is_g solid.1) w in
    (
      within_grant_mono g d.grant action now solid.0 (strict-subset g d.grant strict)
          (rw is_g at inside),
      (
        (elim g.max_uses [ none ↦ [] | some n ↦ (id, n) ∷ [] ]) ++ more,
        budgets
            ∙ ap (λ b. b ++ more) charged
            ∙ append_assoc d.budgets (elim g.max_uses [ none ↦ [] | some n ↦ (id, n) ∷ [] ]) more,
      ),
    )

-- A grant is never strictly narrower than itself.
pub narrower_irrefl : (g : Grant) → is_strictly_narrower_than g g ≡ ok true → ⊥
unfolding is_strictly_narrower_than any_has_more
narrower_irrefl g h =
    none_more g.tools
      (ground (arith, h, subset_refl g.tools, same_limit g.max_uses, same_limit g.expires_at))
  where
    same_limit : (o : Option ℤ) → differs o o ≡ false
    same_limit none = refl
    same_limit (some n) = ground (arith, eqb_ℤ-refl n)

    none_more : (l : List String) → any_has_more g g l ≡ ok true → ⊥
    none_more [] k = absurd (cc)
    none_more (t ∷ l) k = none_more l (ground (arith, k))

-- A parent that requires the argument `key` of `tool` to be absent or `None`, and a child with a
-- quota and no constraint on it.
abbrev pub guarded : String → String → Grant
guarded tool key = record {
  tools = tool ∷ [];
  max_uses = none;
  expires_at = none;
  constraints = (tool, field key Json.null end) ∷ [];
}

abbrev pub unguarded : String → ℤ → Grant
unguarded tool uses = record {
  tools = tool ∷ [];
  max_uses = some uses;
  expires_at = none;
  constraints = [];
}

-- The child counts as strictly narrower, and permits what the parent forbids: any call that gives
-- the argument a value.
pub narrowing_widens :
    (tool key : String) (v : Json) (uses : ℤ) (now : ℕ) (action : Action)
    → action.tool ≡ tool
    → get key action.arguments ≡ some v
    → json_eq v Json.null ≡ false
    → (is_strictly_narrower_than (unguarded tool uses) (guarded tool key) ≡ ok true)
      × (within_grant (unguarded tool uses) action now ≡ true)
      × (within_grant (guarded tool key) action now ≡ false)
unfolding is_strictly_narrower_than is_subset_of keeps_constraints holds_all holds constraints_of
    within_grant lookup get
narrowing_widens tool key v uses now action named given solid =
    ground (arith, eq_refl tool, eq_iff action.tool tool, eq_iff tool action.tool, json_null)
  where
    json_null : json_eq Json.null Json.null ≡ true
    json_null = unfold json_eq in refl

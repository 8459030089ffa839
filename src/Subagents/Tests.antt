-- ===== src/Subagents/Tests.antt =====
-- A host's grant, a delegate with a quota, and the ledger they share (subagents.py).
use openmuse.Common.{
  ℕ, ◌+◌, ◌≤◌, String, ◌≡◌, refl, true, false, none, some, List, [], ◌∷◌, ◌++◌, lookup, insert, ok,
  arith, mem_text, text_eq, ℤ, pos, if◌then◌else◌, ◌==◌,
}
use openmuse.Common.Json.{Json, field, end, get, json_eq, size}
use openmuse.Samples.{send}
use openmuse.Subagents.{
  Grant, constraints_of, holds, holds_all, keeps_constraints, is_subset_of, has_items,
  is_strictly_narrower_than, within_grant, GrantLedger, exhausted, charge, consume,
  DelegatedAuthority, delegate, narrow,
}
use openmuse.Subagents.Narrowing.{
  narrow_all, narrow_all-within, narrowing_widens, guarded, unguarded,
}
use openmuse.Subagents.Ledger.{uses, accepted, Call, AllFair, accepted-le-limit, zero_quota_accepts}

-- Sending and reading, and then sending to Ann only, three times at most.
abbrev broad : Grant
broad = record {
  tools = "send" ∷ "read" ∷ [];
  max_uses = none;
  expires_at = some (pos 100);
  constraints = [];
}

abbrev to_ann : Grant
to_ann = record {
  tools = "send" ∷ [];
  max_uses = some (pos 3);
  expires_at = some (pos 50);
  constraints = ("send", field "to" (Json.str "ann") end) ∷ [];
}

abbrev root : DelegatedAuthority
root = record { grant = broad; grant_id = "root"; has_ledger = true; budgets = [] }

abbrev child : DelegatedAuthority
child = record {
  grant = to_ann;
  grant_id = "child";
  has_ledger = true;
  budgets = ("child", pos 3) ∷ [];
}

program : Unit {0}
unfolding constraints_of holds holds_all keeps_constraints is_subset_of has_items
    is_strictly_narrower_than within_grant delegate narrow narrow_all exhausted charge consume
    accepted lookup insert get json_eq size mem_text text_eq
program = tt

narrows : narrow_all root ((to_ann, "child") ∷ []) ≡ ok child
unfolding program
narrows = refl

permits : within_grant to_ann send 20 ≡ true
unfolding program
permits = refl

abbrev empty : GrantLedger
empty = record { quota = []; redemptions = [] }

-- The parent's quota is two, and each child has one of its own; the last call is one too many.
abbrev calls : List Call
calls =
    (("a", pos 2) ∷ ("b", pos 5) ∷ [], 1 ∷ [])
    ∷ (("a", pos 2) ∷ ("c", pos 5) ∷ [], 2 ∷ [])
    ∷ (("a", pos 2) ∷ ("b", pos 5) ∷ [], 3 ∷ [])
    ∷ []

abbrev limits : String → ℕ
limits id = if id == "a" then 2 else 5

accepts_two : accepted "a" empty calls ≡ 2
unfolding program
accepts_two = refl

narrow_all-within_example :
    (within_grant broad send 20 ≡ true)
    × ((more : List (String × ℤ)) × (("child", pos 3) ∷ [] ≡ [] ++ more))
unfolding lookup
narrow_all-within_example =
    narrow_all-within ((to_ann, "child") ∷ []) root child send 20 narrows
      (unfold program in (tt, tt)) permits

narrowing_widens_example :
    (is_strictly_narrower_than (unguarded "send" (pos 9)) (guarded "send" "to") ≡ ok true)
    × (within_grant (unguarded "send" (pos 9)) send 20 ≡ true)
    × (within_grant (guarded "send" "to") send 20 ≡ false)
narrowing_widens_example =
    narrowing_widens "send" "to" (Json.str "ann") (pos 9) 20 send refl (unfold program in refl)
      (unfold program in refl)

accepted-le-limit_example : uses "a" empty + accepted "a" empty calls ≤ 2
accepted-le-limit_example =
    accepted-le-limit limits "a" calls empty fair (unfold lookup in omega arith)
  where
    fair : AllFair limits calls
    fair = (
      (refl, omega arith, refl, (refl, omega arith, refl, tt)),
      (
        (refl, omega arith, refl, (refl, omega arith, refl, tt)),
        ((refl, omega arith, refl, (refl, omega arith, refl, tt)), tt),
      ),
    )

zero_quota_accepts_example :
    ((consume empty (("z", pos 0) ∷ []) (1 ∷ [])).0 ≡ true)
    × (uses "z" (consume empty (("z", pos 0) ∷ []) (1 ∷ [])).1 ≡ 1)
zero_quota_accepts_example =
    zero_quota_accepts empty "z" (1 ∷ []) (unfold lookup in refl) (unfold mem_text in refl)

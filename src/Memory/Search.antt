-- ===== src/Memory/Search.antt =====
-- src/openmuse/memory.py: MemoryStore.search. `_terms`, a regular expression over the casefolded text, is
-- a parameter that lists a set's elements; a limit below 0 does what 0 does.
use openmuse.Common.{
  ℕ, ◌+◌, String, codes, Text, Bool, true, false, not, ◌&&◌, ◌||◌, List, [], ◌∷◌, eqb, ltb, leb,
  ◌==◌, if◌then◌else◌, mem, any, is_nothing, take,
}
use openmuse.Memory.{Memory, MemoryTier, tier_value, MemoryStore, load}

-- `a <= b` on texts
unfoldable pub text_leb : Text → Text → Bool
text_leb [] t = true
text_leb (c ∷ s) [] = false
text_leb (c ∷ s) (d ∷ t) = ltb c d || (eqb c d && text_leb s t)

-- `x <= y or ...` of two equal components leaves it to the next.
abbrev pub before_or : Bool → Bool → Bool → Bool
before_or le ge next = if ge then le && next else le

abbrev pub text_order : String → String → Bool → Bool
text_order a b next = before_or (text_leb (codes a) (codes b)) (text_leb (codes b) (codes a)) next

-- A row of `ranked`.
pub record Row : Type 0 where
  pub score : ℕ
  pub item : Memory

-- `key(a) <= key(b)`
abbrev pub key_leb : Row → Row → Bool
key_leb a b = before_or (leb a.score b.score) (leb b.score a.score) (
    before_or (leb a.item.confidence b.item.confidence) (leb b.item.confidence a.item.confidence) (
      text_order a.item.observed_at b.item.observed_at
        (text_leb (codes a.item.id) (codes b.item.id))))

-- `ranked.sort(key=..., reverse=True)`, which keeps the order of rows with equal keys
unfoldable pub insert_row : Row → List Row → List Row
insert_row row [] = row ∷ []
insert_row row (other ∷ rows) =
    let rest = insert_row row rows in if key_leb other row then row ∷ other ∷ rows else other ∷ rest

unfoldable pub sort_rows : List Row → List Row
sort_rows [] = []
sort_rows (row ∷ rows) = insert_row row (sort_rows rows)

-- `sum(n for term in terms if term in found)`
unfoldable pub weight : ℕ → List String → List String → ℕ
weight n [] found = 0
weight n (term ∷ terms) found = (if mem term found then n else 0) + weight n terms found

abbrev pub is_allowed : List MemoryTier → String → Bool
is_allowed [] tier = true
is_allowed (t ∷ ts) tier = any (λ u. tier_value u == tier) (t ∷ ts)

-- `[row[3] for row in rows]`
unfoldable pub items_of : List Row → List Memory
items_of [] = []
items_of (row ∷ rows) = row.item ∷ items_of rows

module _ (terms_of : String → List String) where
  abbrev pub score_of : List String → Memory → ℕ
  score_of terms m = weight 3 terms (terms_of m.fact) + weight 1 terms (terms_of m.source)

  abbrev pub is_match : List String → List MemoryTier → Memory → Bool
  is_match terms tiers m = not m.deleted && is_allowed tiers m.tier && ltb 0 (score_of terms m)

  -- The loop of `search`; no tiers are all of them.
  unfoldable pub rank : List String → List MemoryTier → List Memory → List Row
  rank terms tiers [] = []
  rank terms tiers (m ∷ ms) =
      let rest = rank terms tiers ms in
      if is_match terms tiers m then record { score = score_of terms m; item = m } ∷ rest else rest

  unfoldable pub search : MemoryStore → String → ℕ → List MemoryTier → List Memory
  search s query limit tiers =
      let terms = terms_of query in
      if is_nothing terms || ltb limit 1
      then []
      else items_of (take (sort_rows (rank terms tiers (load s))) limit)

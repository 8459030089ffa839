-- ===== src/Memory/Ranked.antt =====
-- src/openmuse/memory.py: that a search returns the best of the matching memories.
use mathlib.Core.List.{Perm}
use mathlib.Core.List.Perm
use openmuse.Common.{
  ◌+◌, ◌<◌, ◌*◌, ◌==◌, any, mem, Bool, leb, not, ◌&&◌, ℕ, zero, suc, ◌≤◌, String, codes, Text, ◌≡◌,
  ◌⊎◌, inl, inr, refl, sym, ap, subst, true, false, ◌||◌, List, [], ◌∷◌, ◌++◌, arith, ltb,
  if◌then◌else◌, is_nothing, take, drop, length, length-take, Bool-cases,
}
use openmuse.Memory.{Memory, MemoryTier, tier_value, MemoryStore, load}
use openmuse.Memory.Search.{
  text_leb, before_or, is_allowed, Row, key_leb, insert_row, sort_rows, weight, items_of, rank,
  search,
}

text_leb_total : (s t : Text) → text_leb s t ≡ false → text_leb t s ≡ true
unfolding text_leb
text_leb_total [] t h = absurd (cc)
text_leb_total (c ∷ s) [] h = refl
text_leb_total (c ∷ s) (d ∷ t) h = ground (arith, text_leb_total s t)

key_leb_total : (a b : Row) → key_leb a b ≡ false → key_leb b a ≡ true
key_leb_total a b h = ground (
  arith,
  text_leb_total (codes a.item.observed_at) (codes b.item.observed_at),
  text_leb_total (codes a.item.id) (codes b.item.id),
)

text_leb_antisym : (s t : Text) → text_leb s t ≡ true → text_leb t s ≡ true → s ≡ t
unfolding text_leb
text_leb_antisym [] [] h k = refl
text_leb_antisym [] (d ∷ t) h k = cc
text_leb_antisym (c ∷ s) [] h k = cc
text_leb_antisym (c ∷ s) (d ∷ t) h k = ground (arith, text_leb_antisym s t)

-- `a` ranks no higher than `b`: by score, then by confidence, then by time of observation, then by id.
abbrev pub AtMost : Row → Row → Type 0
AtMost a b =
    (a.score < b.score)
    ⊎ ((a.score ≡ b.score)
        × ((a.item.confidence < b.item.confidence)
            ⊎ ((a.item.confidence ≡ b.item.confidence)
                × ((text_leb (codes b.item.observed_at) (codes a.item.observed_at) ≡ false)
                    ⊎ ((codes a.item.observed_at ≡ codes b.item.observed_at)
                        × (text_leb (codes a.item.id) (codes b.item.id) ≡ true))))))

before_or-true :
    (le ge next : Bool)
    → before_or le ge next ≡ true
    → (ge ≡ false) × (le ≡ true) ⊎ ((ge ≡ true) × (le ≡ true) × (next ≡ true))
before_or-true le false next h = inl (refl, h)
before_or-true le true next h = inr (refl, ground (arith, h), ground (arith, h))

key_leb-AtMost : (a b : Row) → key_leb a b ≡ true → AtMost a b
key_leb-AtMost a b h = elim (before_or-true (leb a.score b.score) (leb b.score a.score) _ h) [
  | inl (under, up) ↦ inl (ground arith)
  | inr (down, up, h) ↦ inr (
    ground arith,
    elim (before_or-true (leb a.item.confidence b.item.confidence)
        (leb b.item.confidence a.item.confidence) _ h) [
          | inl (under, up) ↦ inl (ground arith)
          | inr (down, up, h) ↦ inr (
            ground arith,
            elim (before_or-true (text_leb (codes a.item.observed_at) (codes b.item.observed_at))
                (text_leb (codes b.item.observed_at) (codes a.item.observed_at)) _ h) [
                  | inl (under, up) ↦ inl under
                  | inr (down, up, h) ↦ inr (
                    text_leb_antisym (codes a.item.observed_at) (codes b.item.observed_at) up down,
                    h,
                  )
                ],
          )
        ],
  )
]

-- No row ranks higher than the row before it.
unfoldable pub IsDescending : List Row → Type 0
IsDescending [] = Unit
IsDescending (a ∷ []) = Unit
IsDescending (a ∷ b ∷ rows) = AtMost b a × IsDescending (b ∷ rows)

insert_row-Perm : (row : Row) (rows : List Row) → Perm (insert_row row rows) (row ∷ rows)
unfolding insert_row
insert_row-Perm row [] = Perm.refl (row ∷ [])
insert_row-Perm row (other ∷ rows) = elim (Bool-cases (key_leb other row)) [
  | inl h ↦ rw h (Perm.refl (row ∷ other ∷ rows))
  | inr h ↦
      rw h (Perm.trans (Perm.cons other (insert_row-Perm row rows)) (Perm.swap row other rows))
]

sort_rows-Perm : (rows : List Row) → Perm (sort_rows rows) rows
unfolding sort_rows
sort_rows-Perm [] = Perm.refl []
sort_rows-Perm (row ∷ rows) =
    Perm.trans (insert_row-Perm row (sort_rows rows)) (Perm.cons row (sort_rows-Perm rows))

-- Below a row that is not less than the new one, the new one may be inserted.
insert_row-below :
    (top row : Row) (rows : List Row)
    → AtMost row top
    → IsDescending (top ∷ rows)
    → IsDescending (top ∷ insert_row row rows)
unfolding insert_row IsDescending
insert_row-below top row [] h d = (h, tt)
insert_row-below top row (other ∷ rows) h d = elim (Bool-cases (key_leb other row)) [
  | inl le ↦ rw le (h, (key_leb-AtMost other row le, d.1))
  | inr gt ↦ rw gt (
    d.0,
    insert_row-below other row rows (key_leb-AtMost row other (key_leb_total other row gt)) d.1,
  )
]

insert_row-IsDescending :
    (row : Row) (rows : List Row) → IsDescending rows → IsDescending (insert_row row rows)
unfolding insert_row IsDescending
insert_row-IsDescending row [] d = tt
insert_row-IsDescending row (other ∷ rows) d = elim (Bool-cases (key_leb other row)) [
  | inl le ↦ rw le (key_leb-AtMost other row le, d)
  | inr gt ↦
      rw gt
        (insert_row-below other row rows (key_leb-AtMost row other (key_leb_total other row gt)) d)
]

sort_rows-IsDescending : (rows : List Row) → IsDescending (sort_rows rows)
unfolding sort_rows IsDescending
sort_rows-IsDescending [] = tt
sort_rows-IsDescending (row ∷ rows) =
    insert_row-IsDescending row (sort_rows rows) (sort_rows-IsDescending rows)

append-take-drop : (rows : List Row) (n : ℕ) → take rows n ++ drop rows n ≡ rows
append-take-drop [] n = refl
append-take-drop (x ∷ xs) zero = refl
append-take-drop (x ∷ xs) (suc n) = ap (λ l. x ∷ l) (append-take-drop xs n)

drop-short : (rows : List Row) (n : ℕ) → (drop rows n ≡ []) ⊎ (length (take rows n) ≡ n)
drop-short [] n = inl refl
drop-short (x ∷ xs) zero = inr refl
drop-short (x ∷ xs) (suc n) = elim (drop-short xs n) [ inl h ↦ inl h | inr h ↦ inr (ap suc h) ]

take-zero : (rows : List Row) → take rows 0 ≡ []
take-zero [] = refl
take-zero (x ∷ xs) = refl

module _ (terms_of : String → List String) where
  rank-none : (tiers : List MemoryTier) (ms : List Memory) → rank terms_of [] tiers ms ≡ []
  unfolding rank weight
  rank-none tiers [] = refl
  rank-none tiers (m ∷ ms) = ground (arith, rank-none tiers ms)

  -- Without terms nothing matches, so the early return only saves work.
  best :
      (terms : List String) (tiers : List MemoryTier) (ms : List Memory) (limit : ℕ)
      → (if is_nothing terms || ltb limit 1
          then []
          else items_of (take (sort_rows (rank terms_of terms tiers ms)) limit))
        ≡ items_of (take (sort_rows (rank terms_of terms tiers ms)) limit)
  unfolding items_of sort_rows
  best [] tiers ms limit = rw (rank-none tiers ms) refl
  best (t ∷ ts) tiers ms zero =
      sym (ap items_of (take-zero (sort_rows (rank terms_of (t ∷ ts) tiers ms))))
  best (t ∷ ts) tiers ms (suc n) = ground arith

  -- How many of the terms are in the set.
  unfoldable pub count : List String → List String → ℕ
  count [] found = 0
  count (t ∷ ts) found = if mem t found then suc (count ts found) else count ts found

  -- A memory that is not deleted, of one of the tiers where any are asked for, with a term in its fact
  -- or in its source.
  abbrev pub is_wanted : List String → List MemoryTier → Memory → Bool
  is_wanted terms tiers m =
      not m.deleted
      && (is_nothing tiers || any (λ u. tier_value u == m.tier) tiers)
      && any (λ t. mem t (terms_of m.fact) || mem t (terms_of m.source)) terms

  -- The wanted memories, each with three points for a term in its fact and one for a term in its source.
  unfoldable pub wanted : List String → List MemoryTier → List Memory → List Row
  wanted terms tiers [] = []
  wanted terms tiers (m ∷ ms) =
      if is_wanted terms tiers m
      then record {
        score = 3 * count terms (terms_of m.fact) + count terms (terms_of m.source);
        item = m;
      }
        ∷ wanted terms tiers ms
      else wanted terms tiers ms

  weight-three : (terms found : List String) → weight 3 terms found ≡ 3 * count terms found
  unfolding weight count
  weight-three [] found = refl
  weight-three (t ∷ ts) found = ground (arith, weight-three ts found)

  weight-one : (terms found : List String) → weight 1 terms found ≡ count terms found
  unfolding weight count
  weight-one [] found = refl
  weight-one (t ∷ ts) found = ground (arith, weight-one ts found)

  positive :
      (terms found found' : List String)
      → ltb 0 (3 * count terms found + count terms found')
        ≡ any (λ t. mem t found || mem t found') terms
  unfolding count
  positive [] found found' = refl
  positive (t ∷ ts) found found' = ground (arith, positive ts found found')

  is_allowed-tiers :
      (tiers : List MemoryTier) (tier : String)
      → is_allowed tiers tier ≡ (is_nothing tiers || any (λ u. tier_value u == tier) tiers)
  is_allowed-tiers [] tier = refl
  is_allowed-tiers (t ∷ ts) tier = refl

  rank-wanted :
      (terms : List String) (tiers : List MemoryTier) (ms : List Memory)
      → rank terms_of terms tiers ms ≡ wanted terms tiers ms
  unfolding rank wanted
  rank-wanted terms tiers [] = refl
  rank-wanted terms tiers (m ∷ ms) =
      rw
        (
          weight-three terms (terms_of m.fact),
          weight-one terms (terms_of m.source),
          rank-wanted terms tiers ms,
          positive terms (terms_of m.fact) (terms_of m.source),
          is_allowed-tiers tiers m.tier,
        )
        refl

  -- A search returns, in this order, the first memories of a descending arrangement of the wanted ones: as
  -- many as the limit allows. Wanted is a memory that is not deleted, is of one of the tiers that are
  -- asked for, if any, and has a term of the query in its fact or its source. They descend by their
  -- score, which is three for each term in the fact and one for each term in the source, then by
  -- confidence, time of observation and id.
  pub search-IsRanked :
      (s : MemoryStore) (query : String) (limit : ℕ) (tiers : List MemoryTier)
      → (rows : List Row) × (rest : List Row) × (search terms_of s query limit tiers
          ≡ items_of rows)
        × Perm (rows ++ rest) (wanted (terms_of query) tiers (load s))
        × IsDescending (rows ++ rest)
        × (length rows ≤ limit)
        × ((rest ≡ []) ⊎ (length rows ≡ limit))
  unfolding search
  search-IsRanked s query limit tiers =
      let ranked = rank terms_of (terms_of query) tiers (load s) in
      let sorted = sort_rows ranked in
      (
        take sorted limit,
        drop sorted limit,
        best (terms_of query) tiers (load s) limit,
        subst (λ l. Perm l (wanted (terms_of query) tiers (load s)))
            (sym (append-take-drop sorted limit))
            (subst (Perm sorted) (rank-wanted (terms_of query) tiers (load s))
              (sort_rows-Perm ranked)),
        subst IsDescending (sym (append-take-drop sorted limit)) (sort_rows-IsDescending ranked),
        length-take sorted limit,
        drop-short sorted limit,
      )

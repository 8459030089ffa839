-- ===== src/Memory/Reconcile.antt =====
-- That the store's own changes reconcile with the chain, and what the reconciliation shows (memory.py).
use openmuse.Common.{
  String, Text, text_eq_refl, ◌≡◌, ◌≢◌, ◌⊎◌, refl, true, false, none, some, List, [], ◌∷◌, ◌++◌,
  eq_iff, eq_refl, arith, lookup, lookup-insert, mem, all, All, Option-cases, inl, inr,
}
use openmuse.Runtime.{Runtime}
use openmuse.Memory.{
  Memory, MemoryEvent, memory_write, memory_update, memory_promote, memory_forget, MemoryStore,
  load, commit, Appended, returned, raised_before, raised_after, IsWritten, hash, write_event,
  update_event,
}
use openmuse.Memory.Check.{Write, History, written, observe, replay, no_history, agrees, check_item}
use openmuse.Memory.Invariant.{DistinctIds, has_item}

pub replay-snoc :
    (es : List MemoryEvent) (h : History) (e : MemoryEvent)
    → replay h (es ++ e ∷ []) ≡ observe (replay h es) e
unfolding replay
replay-snoc [] h e = refl
replay-snoc (x ∷ es) h e = replay-snoc es (observe h x) e

module _ (r : Runtime) where
  -- The check of `verify_memory` finds nothing wrong with an item.
  abbrev pub ItemOk : History → Memory → Type 0
  ItemOk h m = check_item r h m.id m ≡ []

  -- The store and the chain agree.
  pub record Synced (s : MemoryStore) : Type 0 where
    pub distinct : DistinctIds (load s)
    pub items_ok : All (ItemOk (replay no_history s.chain)) (load s)
    pub forgets_ok : all (has_item (load s)) (replay no_history s.chain).forgets ≡ true
    pub unwritten : s.file ≡ none → s.chain ≡ []

  -- An event about another id leaves the check of an item alone.
  pub other-write :
      (h : History) (id tier source at : String) (d : Text) (m : Memory)
      → m.id ≢ id
      → ItemOk h m
      → ItemOk (observe h (memory_write id tier source at d)) m
  unfolding observe check_item
  other-write h id tier source at d m ne k =
      ground
        (arith, k, ne, eq_iff id m.id, lookup-insert id m.id (written tier source at d) h.writes)

  pub other-update :
      (h : History) (id tier source at : String) (d : Text) (m : Memory)
      → m.id ≢ id
      → ItemOk h m
      → ItemOk (observe h (memory_update id tier source at d)) m
  unfolding observe check_item
  other-update h id tier source at d m ne k =
      ground
        (arith, k, ne, eq_iff id m.id, lookup-insert id m.id (written tier source at d) h.writes)

  pub other-promote :
      (h : History) (id tier : String) (m : Memory)
      → m.id ≢ id
      → ItemOk h m
      → ItemOk (observe h (memory_promote id tier)) m
  unfolding observe check_item
  other-promote h id tier m ne k = elim (Option-cases (lookup id h.writes)) [
    | inl e ↦ ground (arith, k, e)
    | inr (w, e) ↦
        ground (
          arith,
          k,
          e,
          ne,
          eq_iff id m.id,
          lookup-insert id m.id (record w { tier = tier }) h.writes,
        )
  ]

  pub any-forget :
      (h : History) (id : String) (m : Memory)
      → ItemOk h m
      → ItemOk (observe h (memory_forget id)) m
  unfolding observe check_item
  any-forget h id m k = ground (arith, k)

  -- What the check of an item has found.
  pub item-found :
      (h : History) (m : Memory)
      → ItemOk h m
      → (w : Write) × (lookup m.id h.writes ≡ some w)
        × ((m.deleted ≡ true) × (mem m.id h.forgets ≡ true)
            ⊎ (m.deleted ≡ false) × (agrees r m w ≡ true))
  unfolding check_item
  item-found h m k = elim (Option-cases (lookup m.id h.writes)) [
    | inl e ↦ absurd (ground (arith, k, e))
    | inr (w, e) ↦ (w, e, ground (arith, k, e))
  ]

  committed-Synced :
      (s : MemoryStore) (items : List Memory) (e : MemoryEvent)
      → DistinctIds items
      → All (ItemOk (observe (replay no_history s.chain) e)) items
      → all (has_item items) (observe (replay no_history s.chain) e).forgets ≡ true
      → Synced (record { file = some items; chain = s.chain ++ e ∷ [] })
  unfolding load
  committed-Synced s items e d a f = record {
    distinct = d;
    items_ok = rw (replay-snoc s.chain no_history e) a;
    forgets_ok = rw (replay-snoc s.chain no_history e) f;
    unwritten = λ none_here. absurd (cc);
  }

  pub commit-Synced :
      (m : Memory) (s : MemoryStore) (items : List Memory) (e : MemoryEvent) (w : Appended)
      → IsWritten w
      → DistinctIds items
      → All (ItemOk (observe (replay no_history s.chain) e)) items
      → all (has_item items) (observe (replay no_history s.chain) e).forgets ≡ true
      → Synced (commit m s items e w).1
  commit-Synced m s items e returned i d a f = committed-Synced s items e d a f
  commit-Synced m s items e (raised_before x) i d a f = absurd i
  commit-Synced m s items e (raised_after x) i d a f = committed-Synced s items e d a f

  pub written-ItemOk :
      (h : History) (m : Memory) → m.deleted ≡ false → ItemOk (observe h (write_event r m)) m
  unfolding observe check_item
  written-ItemOk h m d = ground (
    arith,
    d,
    eq_refl m.id,
    eq_refl m.tier,
    eq_refl m.source,
    eq_refl m.observed_at,
    text_eq_refl (hash r m.fact),
    lookup-insert m.id m.id (written m.tier m.source m.observed_at (hash r m.fact)) h.writes,
  )

  pub updated-ItemOk :
      (h : History) (m : Memory) (w : Write)
      → lookup m.id h.writes ≡ some w
      → m.deleted ≡ false
      → ItemOk (observe h (update_event r m)) m
  unfolding observe check_item
  updated-ItemOk h m w e d = ground (
    arith,
    d,
    e,
    eq_refl m.id,
    eq_refl m.tier,
    eq_refl m.source,
    eq_refl m.observed_at,
    text_eq_refl (hash r m.fact),
    lookup-insert m.id m.id (written m.tier m.source m.observed_at (hash r m.fact)) h.writes,
  )

  pub promoted-ItemOk :
      (h : History) (m : Memory) (tier : String) (w : Write)
      → lookup m.id h.writes ≡ some w
      → ItemOk h m
      → ItemOk (observe h (memory_promote m.id tier)) (record m { tier = tier })
  unfolding observe check_item
  promoted-ItemOk h m tier w e k = ground (
    arith,
    k,
    e,
    eq_refl m.id,
    eq_refl tier,
    lookup-insert m.id m.id (record w { tier = tier }) h.writes,
  )

  pub forgotten-ItemOk :
      (h : History) (m : Memory) (w : Write)
      → lookup m.id h.writes ≡ some w
      → m.deleted ≡ true
      → ItemOk (observe h (memory_forget m.id)) m
  unfolding observe check_item
  forgotten-ItemOk h m w e d = ground (arith, d, e, eq_refl m.id)

  pub forgets-update :
      (h : History) (id tier source at : String) (d : Text)
      → (observe h (memory_update id tier source at d)).forgets ≡ h.forgets
  unfolding observe
  forgets-update h id tier source at d = elim (Option-cases (lookup id h.writes)) [
    | inl e ↦ ground (arith, e)
    | inr (w, e) ↦ ground (arith, e)
  ]

  pub forgets-promote :
      (h : History) (id tier : String) → (observe h (memory_promote id tier)).forgets ≡ h.forgets
  unfolding observe
  forgets-promote h id tier = elim (Option-cases (lookup id h.writes)) [
    | inl e ↦ ground (arith, e)
    | inr (w, e) ↦ ground (arith, e)
  ]

-- ===== src/Memory/Verified.antt =====
-- What `verify_memory` answers on the store's own file, on any file, and on a restored one (memory.py).
use openmuse.Common.{
  has_break, splitlines-whole, >>=-eq-ok, ok-injective, ◌∙◌, text_eq→eq, String, ◌≡◌, ◌⊎◌, refl,
  subst, ap, true, false, some, List, [], ◌∷◌, ◌++◌, ◌==◌, eq_iff, arith, Dict, lookup, mem,
  is_some, All, All-map, append-empty, Bool-cases, Option-cases, inl, inr, ok,
}
use openmuse.Runtime.{Runtime}
use openmuse.Memory.{
  Memory, MemoryStore, load, find, forget, MemoryEvent, Appended, returned, hash, memory_forget,
  MemoryCall, call_all, AreFresh, no_memories,
}
use openmuse.Memory.Check.{
  Write, History, observe, replay, no_history, by_id, agrees, check_item, check_items,
  check_forgets, reconcile, AuditText, read_lines, lines_of, verify_memory, Violation,
}
use openmuse.Memory.Invariant.{has_item, find-id}
use openmuse.Memory.Reconcile.{ItemOk, Synced, any-forget, replay-snoc}
use openmuse.Memory.Passes.{is_empty-true, reconcile-Synced, call_all-Synced, no_memories-Synced}

module _ (r : Runtime) where
  -- Every record is read back from its line, which holds no line separator.
  abbrev pub AreWhole : AuditText → List MemoryEvent → Type 0
  AreWhole x es = All (λ e. (x.reads (x.line e) ≡ ok e) × (has_break (x.line e) ≡ false)) es

  read_lines-lines_of :
      (x : AuditText) (es : List MemoryEvent) → AreWhole x es → read_lines x (lines_of x es) ≡ ok es
  unfolding read_lines lines_of
  read_lines-lines_of x [] whole = refl
  read_lines-lines_of x (e ∷ es) ((reads, unbroken), whole) =
      rw (splitlines-whole (x.line e) unbroken, reads, read_lines-lines_of x es whole) refl

  verify_memory-reconcile :
      (x : AuditText) (s : MemoryStore)
      → AreWhole x s.chain
      → verify_memory r x true s ≡ ok (reconcile r s)
  unfolding verify_memory
  verify_memory-reconcile x s whole = rw (read_lines-lines_of x s.chain whole) refl

  -- From an empty store, after any sequence of the store's calls, whether they return or raise,
  -- `verify_memory` passes with no violation on an intact chain: when each new memory gets a new id, when
  -- the record of each append reaches the audit file, and when every chained record is read back from
  -- its line, which holds no line separator that `splitlines` knows.
  pub verify_memory-call_all :
      (x : AuditText) (cs : List (MemoryCall × Appended))
      → AreFresh r no_memories cs
      → AreWhole x (call_all r no_memories cs).chain
      → verify_memory r x true (call_all r no_memories cs) ≡ ok (true, [])
  verify_memory-call_all x cs new whole =
      verify_memory-reconcile x (call_all r no_memories cs) whole
      ∙ ap ok (
          reconcile-Synced r (call_all r no_memories cs)
            (call_all-Synced r cs no_memories new (no_memories-Synced r)))

  check_items-entry :
      (h : History) (d : Dict Memory) (id : String) (m : Memory)
      → check_items r h d ≡ []
      → lookup id d ≡ some m
      → check_item r h id m ≡ []
  unfolding check_items lookup
  check_items-entry h [] id m k f = absurd (cc)
  check_items-entry h ((j, x) ∷ d) id m k f =
      let (a, b) = append-empty (check_item r h j x) (check_items r h d) k in
      elim (Bool-cases (j == id)) [
        | inl same ↦
            let is_m : x ≡ m = ground (arith, f, same) in
            subst (λ y. check_item r h id y ≡ []) is_m
              (subst (λ i. check_item r h i x ≡ []) ((eq_iff j id).0 same) a)
        | inr other ↦ check_items-entry h d id m b (ground (arith, f, other))
      ]

  -- What the two sides agree on.
  abbrev pub Agrees : Memory → Write → Type 0
  Agrees m w =
      (hash r m.fact ≡ w.fact_sha256)
      × (m.tier ≡ w.tier)
      × (m.source ≡ w.source)
      × (m.observed_at ≡ w.observed_at)

  agrees-Agrees : (m : Memory) (w : Write) → agrees r m w ≡ true → Agrees m w
  agrees-Agrees m w h = (
    text_eq→eq (hash r m.fact) w.fact_sha256 (ground (arith, h)),
    ground (arith, h, eq_iff m.tier w.tier),
    ground (arith, h, eq_iff m.source w.source),
    ground (arith, h, eq_iff m.observed_at w.observed_at),
  )

  reconcile_sound :
      (s : MemoryStore) (items : List Memory) (id : String) (m : Memory)
      → s.file ≡ some items
      → lookup id (by_id [] items) ≡ some m
      → (reconcile r s).0 ≡ true
      → (w : Write) × (lookup id (replay no_history s.chain).writes ≡ some w)
        × ((m.deleted ≡ true) × (mem id (replay no_history s.chain).forgets ≡ true)
            ⊎ (m.deleted ≡ false) × (agrees r m w ≡ true))
  unfolding reconcile check_item
  reconcile_sound s items id m f found passed =
      let h = replay no_history s.chain in
      let clean : check_items r h (by_id [] items) ++ check_forgets r (by_id [] items) h.forgets
          ≡ [] =
        is_empty-true r
          (check_items r h (by_id [] items) ++ check_forgets r (by_id [] items) h.forgets)
          (ground (arith, passed, f)) in
      let k : check_item r h id m ≡ [] =
        check_items-entry h (by_id [] items) id m
          (append-empty (check_items r h (by_id [] items))
            (check_forgets r (by_id [] items) h.forgets) clean).0
          found in
      elim (Option-cases (lookup id h.writes)) [
        | inl e ↦ absurd (ground (arith, k, e))
        | inr (w, e) ↦ (w, e, ground (arith, k, e))
      ]

  -- When `verify_memory` passes on a file, whoever wrote it, the memory that the file holds under an id
  -- has a write among the events that were read from the chain, and either is a tombstone with a forget
  -- among them, or has the fact's digest, the tier, the source and the time of observation of the write
  -- as later events changed it.
  pub verify_memory_sound :
      (x : AuditText) (s : MemoryStore) (items : List Memory) (id : String) (m : Memory)
      (violations : List Violation)
      → s.file ≡ some items
      → lookup id (by_id [] items) ≡ some m
      → verify_memory r x true s ≡ ok (true, violations)
      → (events : List MemoryEvent) × (w : Write) × (read_lines x (lines_of x s.chain) ≡ ok events)
        × (lookup id (replay no_history events).writes ≡ some w)
        × ((m.deleted ≡ true) × (mem id (replay no_history events).forgets ≡ true)
            ⊎ (m.deleted ≡ false) × Agrees m w)
  unfolding verify_memory
  verify_memory_sound x s items id m violations f found passed =
      let (events, reads, answer) = >>=-eq-ok (read_lines x (lines_of x s.chain)) _ passed in
      let (w, here, sound) =
        reconcile_sound (record s { chain = events }) items id m f found
          (ap (λ o. o.0) (ok-injective answer)) in
      (
        events,
        w,
        reads,
        here,
        elim sound [
          | inl tombstone ↦ inl tombstone
          | inr (live, same) ↦ inr (live, agrees-Agrees m w same)
        ],
      )

  restored-Synced :
      (s s' : MemoryStore) (m : Memory)
      → s'.chain ≡ s.chain ++ memory_forget m.id ∷ []
      → Synced r s
      → has_item (load s) m.id ≡ true
      → Synced r (record s' { file = s.file })
  unfolding load observe find
  restored-Synced s s' m next y held = record {
    distinct = y.distinct;
    items_ok =
        rw (next, replay-snoc s.chain no_history (memory_forget m.id))
          (All-map (ItemOk r h) (ItemOk r (observe h (memory_forget m.id))) (load s)
            (any-forget r h m.id) y.items_ok);
    forgets_ok =
        rw (next, replay-snoc s.chain no_history (memory_forget m.id))
          (ground (arith, held, y.forgets_ok));
    unwritten = λ e. absurd (ground (arith, held, e));
  }
    where
      h : History
      h = replay no_history s.chain

  -- When the file of a store in agreement with its chain is put back after `forget`, with the live
  -- memory still in it, `verify_memory` passes on a chain that is read back whole: a forget only has to
  -- leave an item of its id.
  pub verify_memory-restored :
      (x : AuditText) (s s' : MemoryStore) (id : String) (m' : Memory)
      → Synced r s
      → forget r s id returned ≡ (ok m', s')
      → AreWhole x s'.chain
      → verify_memory r x true (record s' { file = s.file }) ≡ ok (true, [])
  unfolding forget load observe
  verify_memory-restored x s s' id m' y run whole =
      verify_memory-reconcile x (record s' { file = s.file }) whole
      ∙ ap ok (elim (Option-cases (find id (load s))) [
        | inl e ↦ absurd (ground (arith, run, e))
        | inr (m, e) ↦
            let next : s'.chain ≡ s.chain ++ memory_forget m.id ∷ [] = ground (arith, run, e) in
            reconcile-Synced r (record s' { file = s.file })
              (restored-Synced s s' m next y (rw (find-id id (load s) m e) (ap is_some e)))
      ])

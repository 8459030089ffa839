-- ===== src/Memory/Mirror.antt =====
-- Every change of the store keeps the file and the chain in agreement, and the check passes (memory.py).
use openmuse.Common.{
  Bool, Outcome, if◌then◌else◌, ℕ, String, ◌≡◌, ◌≢◌, refl, ◌∙◌, true, false, none, some, [], ◌∷◌,
  ◌++◌, arith, all, Bool-cases, Option-cases, inl, inr,
}
use openmuse.Runtime.{Runtime}
use openmuse.Memory.{
  MemoryTier, tier_value, Memory, MemoryEvent, memory_promote, memory_forget, MemoryStore, load,
  commit, Appended, IsWritten, find, update_first, hash, write_event, update_event, remember,
  promote, update, forget,
}
use openmuse.Memory.Check.{observe, replay, no_history}
use openmuse.Memory.Invariant.{
  has_item, find-id, find-All, has_item-update_first, has_item-snoc, DistinctIds-update_first,
  DistinctIds-snoc, All-update_first, All-others, All-snoc,
}
use openmuse.Memory.Reconcile.{
  ItemOk, Synced, other-write, other-update, other-promote, any-forget, item-found, commit-Synced,
  written-ItemOk, updated-ItemOk, promoted-ItemOk, forgotten-ItemOk, forgets-update,
  forgets-promote,
}

module _ (r : Runtime) where
  if-false :
      (c : Bool) (x y : Outcome Memory × MemoryStore)
      → c ≡ false
      → Synced r y.1
      → Synced r (if c then x else y).1
  if-false true x y h p = absurd (cc)
  if-false false x y h p = p

  changed-Synced :
      (s : MemoryStore) (id : String) (m m' : Memory) (e : MemoryEvent) (a : Appended)
      → IsWritten a
      → Synced r s
      → find id (load s) ≡ some m
      → m'.id ≡ id
      → ((x : Memory)
          → x.id ≢ id
          → ItemOk r (replay no_history s.chain) x
          → ItemOk r (observe (replay no_history s.chain) e) x)
      → ItemOk r (observe (replay no_history s.chain) e) m'
      → all (has_item (load s)) (observe (replay no_history s.chain) e).forgets ≡ true
      → Synced r (commit m' s (update_first id m' (load s)) e a).1
  changed-Synced s id m m' e a i y f same keep now kept =
      commit-Synced r m' s (update_first id m' (load s)) e a i
        (DistinctIds-update_first id m' (load s) same y.distinct)
        (All-update_first (ItemOk r (replay no_history s.chain))
          (ItemOk r (observe (replay no_history s.chain) e)) id m' (load s) y.distinct y.items_ok
          keep now)
        (has_item-update_first id m' (load s) (observe (replay no_history s.chain) e).forgets same
          ∙ kept)

  -- A memory under a new id, stored and chained, keeps the file and the chain in agreement.
  pub remember-Synced :
      (s : MemoryStore) (fact source at : String) (confidence : ℕ) (retention : String)
      (tier : MemoryTier) (id : String) (a : Appended)
      → find id (load s) ≡ none
      → IsWritten a
      → Synced r s
      → Synced r (remember r s fact source at confidence retention tier id a).1
  unfolding remember observe
  remember-Synced s fact source at confidence retention tier id a new i y =
      let h = replay no_history s.chain in
      let m =
        let m : Memory = record {
          id = id;
          fact = fact;
          source = source;
          observed_at = at;
          confidence = confidence;
          retention = retention;
          tier = tier_value tier;
          deleted = false;
        } in
        m in
      commit-Synced r m s (load s ++ m ∷ []) (write_event r m) a i
        (DistinctIds-snoc (load s) m y.distinct new)
        (All-snoc (ItemOk r (observe h (write_event r m))) (load s) m
          (All-others (ItemOk r h) (ItemOk r (observe h (write_event r m))) id (load s) new
            y.items_ok (λ x ne k. other-write r h id m.tier source at (hash r fact) x ne k))
          (written-ItemOk r h m refl))
        (has_item-snoc (load s) m h.forgets y.forgets_ok)

  -- Moving a memory to another tier keeps the file and the chain in agreement.
  pub promote-Synced :
      (s : MemoryStore) (id : String) (tier : MemoryTier) (a : Appended)
      → IsWritten a
      → Synced r s
      → Synced r (promote r s id tier a).1
  unfolding promote
  promote-Synced s id tier a i y = elim (Option-cases (find id (load s))) [
    | inl e ↦ rw e y
    | inr (m, e) ↦
        let h = replay no_history s.chain in
        let k : ItemOk r h m = find-All (ItemOk r h) id (load s) m y.items_ok e in
        let (w, here, _) = item-found r h m k in
        let same : m.id ≡ id = find-id id (load s) m e in
        rw e (
          changed-Synced s id m (record m { tier = tier_value tier })
            (memory_promote m.id (tier_value tier)) a i y e same
            (λ x ne. other-promote r h m.id (tier_value tier) x (λ q. ne (q ∙ same)))
            (promoted-ItemOk r h m (tier_value tier) w here k)
            (rw (forgets-promote r h m.id (tier_value tier)) y.forgets_ok))
  ]

  -- An update of a memory keeps the file and the chain in agreement.
  pub update-Synced :
      (s : MemoryStore) (id fact source at : String) (confidence : ℕ) (a : Appended)
      → IsWritten a
      → Synced r s
      → Synced r (update r s id fact source at confidence a).1
  unfolding update
  update-Synced s id fact source at confidence a i y = elim (Option-cases (find id (load s))) [
    | inl e ↦ rw e y
    | inr (m, e) ↦ elim (Bool-cases m.deleted) [
      | inl dead ↦ rw (e, dead) y
      | inr live ↦
          let h = replay no_history s.chain in
          let k : ItemOk r h m = find-All (ItemOk r h) id (load s) m y.items_ok e in
          let (w, here, _) = item-found r h m k in
          let same : m.id ≡ id = find-id id (load s) m e in
          let changed =
            let c : Memory = record m {
              fact = fact;
              source = source;
              observed_at = at;
              confidence = confidence;
            } in
            c in
          rw e (
            if-false m.deleted _ _ live (
              changed-Synced s id m changed (update_event r changed) a i y e same
                (λ x ne.
                  other-update r h m.id m.tier source at (hash r fact) x (λ q. ne (q ∙ same)))
                (updated-ItemOk r h changed w here live)
                (rw (forgets-update r h m.id m.tier source at (hash r fact)) y.forgets_ok)))
    ]
  ]

  -- Forgetting a memory keeps the file and the chain in agreement.
  pub forget-Synced :
      (s : MemoryStore) (id : String) (a : Appended)
      → IsWritten a
      → Synced r s
      → Synced r (forget r s id a).1
  unfolding forget observe
  forget-Synced s id a i y = elim (Option-cases (find id (load s))) [
    | inl e ↦ rw e y
    | inr (m, e) ↦
        let h = replay no_history s.chain in
        let k : ItemOk r h m = find-All (ItemOk r h) id (load s) m y.items_ok e in
        let (w, here, _) = item-found r h m k in
        let same : m.id ≡ id = find-id id (load s) m e in
        let gone =
          let c : Memory = record m { fact = "[DELETED]"; source = "[DELETED]"; deleted = true } in
          c in
        rw e (
          changed-Synced s id m gone (memory_forget m.id) a i y e same
            (λ x ne. any-forget r h m.id x) (forgotten-ItemOk r h gone w here refl)
            (ground (arith, y.forgets_ok, same, e)))
  ]

-- ===== src/Memory/Passes.antt =====
-- `verify_memory` passes on a store in agreement with its chain, and every call keeps it so (memory.py).
use openmuse.Common.{
  String, ◌≡◌, refl, true, ◌||◌, List, [], ◌∷◌, ◌==◌, eq_iff, arith, Dict, lookup, insert,
  lookup-insert, all, All, Bool-cases, Option-cases, inl, inr, contains, mem-keys,
}
use openmuse.Runtime.{Runtime}
use openmuse.Memory.{
  Memory, MemoryStore, load, find, Appended, IsWritten, MemoryCall, remembering, promoting,
  updating, forgetting, call, call_all, IsFresh, AreFresh, no_memories,
}
use openmuse.Memory.Check.{
  History, replay, no_history, by_id, check_item, check_items, check_forgets, is_empty, reconcile,
}
use openmuse.Memory.Invariant.{has_item}
use openmuse.Memory.Reconcile.{ItemOk, Synced}
use openmuse.Memory.Mirror.{remember-Synced, promote-Synced, update-Synced, forget-Synced}

contains-by_id :
    (id : String) (d : Dict Memory) (ms : List Memory)
    → contains id (by_id d ms) ≡ (contains id d || has_item ms id)
unfolding by_id find
contains-by_id id d [] = ground arith
contains-by_id id d (m ∷ ms) =
    ground (arith, contains-by_id id (insert m.id m d) ms, lookup-insert m.id id m d)

pub is_empty-true : {A : Type 0} (r : Runtime) (xs : List A) → is_empty r xs ≡ true → xs ≡ []
is_empty-true r [] h = refl
is_empty-true r (x ∷ xs) h = absurd (cc)

module _ (r : Runtime) where
  -- Every entry is stored under its item's id and passes its check.
  EntriesOk : History → Dict Memory → Type 0
  EntriesOk h d = All (λ e. check_item r h e.0 e.1 ≡ []) d

  EntriesOk-insert :
      (h : History) (m : Memory) (d : Dict Memory)
      → ItemOk r h m
      → EntriesOk h d
      → EntriesOk h (insert m.id m d)
  unfolding insert EntriesOk
  EntriesOk-insert h m [] k a = (k, tt)
  EntriesOk-insert h m ((j, x) ∷ d) k a = elim (Bool-cases (j == m.id)) [
    | inl same ↦ rw same (rw ((eq_iff j m.id).0 same) k, a.1)
    | inr other ↦ rw other (a.0, EntriesOk-insert h m d k a.1)
  ]

  EntriesOk-by_id :
      (h : History) (d : Dict Memory) (ms : List Memory)
      → EntriesOk h d
      → All (ItemOk r h) ms
      → EntriesOk h (by_id d ms)
  unfolding by_id
  EntriesOk-by_id h d [] a b = a
  EntriesOk-by_id h d (m ∷ ms) a b =
      EntriesOk-by_id h (insert m.id m d) ms (EntriesOk-insert h m d b.0 a) b.1

  check_items-EntriesOk : (h : History) (d : Dict Memory) → EntriesOk h d → check_items r h d ≡ []
  unfolding check_items EntriesOk
  check_items-EntriesOk h [] a = refl
  check_items-EntriesOk h ((id, m) ∷ d) a = ground (arith, a.0, check_items-EntriesOk h d a.1)

  check_forgets-ok :
      (d : Dict Memory) (ids : List String)
      → all (λ id. contains id d) ids ≡ true
      → check_forgets r d ids ≡ []
  unfolding check_forgets
  check_forgets-ok d [] h = refl
  check_forgets-ok d (id ∷ ids) h =
      ground (arith, h, mem-keys id d, check_forgets-ok d ids (ground (arith, h)))

  all-contains :
      (ms : List Memory) (ids : List String)
      → all (has_item ms) ids ≡ true
      → all (λ id. contains id (by_id [] ms)) ids ≡ true
  unfolding lookup
  all-contains ms [] h = refl
  all-contains ms (id ∷ ids) h =
      ground (arith, h, contains-by_id id [] ms, all-contains ms ids (ground (arith, h)))

  -- The check passes on every store in agreement with its chain.
  pub reconcile-Synced : (s : MemoryStore) → Synced r s → reconcile r s ≡ (true, [])
  unfolding reconcile load replay EntriesOk
  reconcile-Synced s y = elim (Option-cases s.file) [
    | inl e ↦ rw (e, y.unwritten e) refl
    | inr (items, e) ↦
        let h = replay no_history s.chain in
        let a : All (ItemOk r h) items = rw e at y.items_ok in
        let b : all (has_item items) h.forgets ≡ true = rw e at y.forgets_ok in
        ground (
          arith,
          e,
          check_items-EntriesOk h (by_id [] items) (EntriesOk-by_id h [] items tt a),
          check_forgets-ok (by_id [] items) h.forgets (all-contains items h.forgets b),
        )
  ]

  call-Synced :
      (s : MemoryStore) (c : MemoryCall) (a : Appended)
      → IsFresh r s c
      → IsWritten a
      → Synced r s
      → Synced r (call r s (c, a))
  unfolding call
  call-Synced s (remembering fact source at confidence retention tier id) a new i y =
      remember-Synced r s fact source at confidence retention tier id a new i y
  call-Synced s (promoting id tier) a new i y = promote-Synced r s id tier a i y
  call-Synced s (updating id fact source at confidence) a new i y =
      update-Synced r s id fact source at confidence a i y
  call-Synced s (forgetting id) a new i y = forget-Synced r s id a i y

  pub call_all-Synced :
      (cs : List (MemoryCall × Appended)) (s : MemoryStore)
      → AreFresh r s cs
      → Synced r s
      → Synced r (call_all r s cs)
  unfolding call_all
  call_all-Synced [] s new y = y
  call_all-Synced ((c, a) ∷ cs) s new y =
      call_all-Synced cs (call r s (c, a)) new.1 (call-Synced s c a new.0.0 new.0.1 y)

  pub no_memories-Synced : Synced r no_memories
  unfolding load replay
  no_memories-Synced = record {
    distinct = tt;
    items_ok = tt;
    forgets_ok = refl;
    unwritten = λ _. refl;
  }

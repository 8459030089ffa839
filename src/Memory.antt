-- ===== src/Memory.antt =====
-- src/openmuse/memory.py: memories in a file, each change mirrored in the audit chain, and the check
-- that the two agree. The file holds the list of memories, or is missing. The chain is the list of
-- the records that the store appended, in order. How the append of a record ends is an argument of the
-- call, and what `json.loads` gives of a line is a parameter, as is the digest of a fact.
pub mod Invariant
pub mod Check
pub mod Reconcile
pub mod Passes
pub mod Mirror
pub mod Verified
pub mod Search
pub mod Ranked
mod Tests
use openmuse.Common.{
  splitlines, Exception, err, ℕ, suc, ◌+◌, String, codes, Text, text_eq, ◌≡◌, Bool, true, false,
  not, ◌&&◌, ◌||◌, Option, none, some, List, [], ◌∷◌, ◌++◌, ◌==◌, if◌then◌else◌, Dict, lookup,
  insert, erase, keys, mem, all, Outcome, ok, err, value_error, other, ◌>>=◌, ◌>>◌, raise_if,
  or_raise,
}
use openmuse.Runtime.{Runtime}

pub data MemoryTier : Type 0 where
  working curated : MemoryTier

-- `tier.value`
abbrev pub tier_value : MemoryTier → String
tier_value working = "working"
tier_value curated = "curated"

-- The confidence is a float in the source; here a number of some fixed scale, only compared.
pub record Memory : Type 0 where
  pub id : String
  pub fact : String
  pub source : String
  pub observed_at : String
  pub confidence : ℕ
  pub retention : String
  pub tier : String
  pub deleted : Bool

-- The events that `_log` appends, with the fields that `verify_memory` reads.
pub data MemoryEvent : Type 0 where
  memory_write : String → String → String → String → Text → MemoryEvent
  memory_update : String → String → String → String → Text → MemoryEvent
  memory_promote : String → String → MemoryEvent
  memory_forget : String → MemoryEvent
  unrelated : MemoryEvent

-- The file, and the chained records so far.
pub record MemoryStore : Type 0 where
  pub file : Option (List Memory)
  pub chain : List MemoryEvent

-- `_load`
unfoldable pub load : MemoryStore → List Memory
load s = elim s.file [ none ↦ [] | some items ↦ items ]

-- How the append of `_log` ends: it returns, or it raises before its record is in the audit file, or
-- after.
pub data Appended : Type 0 where
  returned : Appended
  raised_before raised_after : Exception → Appended

-- The record of the append reaches the audit file.
abbrev pub IsWritten : Appended → Type 0
IsWritten returned = Unit
IsWritten (raised_before e) = ⊥
IsWritten (raised_after e) = Unit

abbrev pub chained : List MemoryEvent → MemoryEvent → Appended → List MemoryEvent
chained chain event returned = chain ++ event ∷ []
chained chain event (raised_before e) = chain
chained chain event (raised_after e) = chain ++ event ∷ []

abbrev pub after_append : {A : Type 0} → A → Appended → Outcome A
after_append item returned = ok item
after_append item (raised_before e) = err e
after_append item (raised_after e) = err e

-- `_save`, then `_log`, then `return item`: the file is saved whichever way the append ends.
abbrev pub commit :
    {A : Type 0} → A → MemoryStore → List Memory → MemoryEvent → Appended → Outcome A × MemoryStore
commit item s items event a =
    (after_append item a, record { file = some items; chain = chained s.chain event a })

-- `next(x for x in items if x.id == memory_id)`
unfoldable pub find : String → List Memory → Option Memory
find id [] = none
find id (m ∷ ms) = if m.id == id then some m else find id ms

-- The object that `find` gives is the list's own: a change to it is a change of the list.
unfoldable pub update_first : String → Memory → List Memory → List Memory
update_first id m' [] = []
update_first id m' (m ∷ ms) = if m.id == id then m' ∷ ms else m ∷ update_first id m' ms

abbrev pub stop_iteration : {A : Type 0} → Option A → Outcome A
stop_iteration o = or_raise o (other "StopIteration" "")

module _ (r : Runtime) where
  -- `_hash`
  abbrev pub hash : String → Text
  hash fact = r.sha256 (codes fact)

  abbrev pub write_event : Memory → MemoryEvent
  write_event m = memory_write m.id m.tier m.source m.observed_at (hash m.fact)

  abbrev pub update_event : Memory → MemoryEvent
  update_event m = memory_update m.id m.tier m.source m.observed_at (hash m.fact)

  -- The call on the item that `next` finds, or StopIteration.
  abbrev pub on_item :
      MemoryStore
      → Option Memory
      → (Memory → Outcome Memory × MemoryStore)
      → Outcome Memory × MemoryStore
  on_item s none change = (err (other "StopIteration" ""), s)
  on_item s (some item) change = change item

  unfoldable pub remember :
      MemoryStore
      → String
      → String
      → String
      → ℕ
      → String
      → MemoryTier
      → String
      → Appended
      → Outcome Memory × MemoryStore
  remember s fact source observed_at confidence retention tier fresh_id a =
      let item =
        let m : Memory = record {
          id = fresh_id;
          fact = fact;
          source = source;
          observed_at = observed_at;
          confidence = confidence;
          retention = retention;
          tier = tier_value tier;
          deleted = false;
        } in
        m in
      commit item s (load s ++ item ∷ []) (write_event item) a

  unfoldable pub promote :
      MemoryStore → String → MemoryTier → Appended → Outcome Memory × MemoryStore
  promote s memory_id tier a = on_item s (find memory_id (load s)) (λ item.
      let item' = let m : Memory = record item { tier = tier_value tier } in m in
      commit item' s (update_first memory_id item' (load s))
        (memory_promote item.id (tier_value tier)) a)

  unfoldable pub explain : MemoryStore → String → Outcome Memory
  explain s memory_id = stop_iteration (find memory_id (load s))

  unfoldable pub update :
      MemoryStore → String → String → String → String → ℕ → Appended → Outcome Memory × MemoryStore
  update s memory_id fact source observed_at confidence a =
      on_item s (find memory_id (load s)) (λ item.
        let item' =
          let m : Memory = record item {
            fact = fact;
            source = source;
            observed_at = observed_at;
            confidence = confidence;
          } in
          m in
        if item.deleted
        then (err (value_error "deleted memory cannot be updated"), s)
        else commit item' s (update_first memory_id item' (load s)) (update_event item') a)

  unfoldable pub forget : MemoryStore → String → Appended → Outcome Memory × MemoryStore
  forget s memory_id a = on_item s (find memory_id (load s)) (λ item.
      let item' =
        let m : Memory = record item { fact = "[DELETED]"; source = "[DELETED]"; deleted = true } in
        m in
      commit item' s (update_first memory_id item' (load s)) (memory_forget item.id) a)

-- A call of the store; `fresh_id` is the identifier that `uuid4` gives.
pub data MemoryCall : Type 0 where
  remembering : String → String → String → ℕ → String → MemoryTier → String → MemoryCall
  promoting : String → MemoryTier → MemoryCall
  updating : String → String → String → String → ℕ → MemoryCall
  forgetting : String → MemoryCall

module _ (r : Runtime) where
  -- The store after a call, which may raise.
  unfoldable pub call : MemoryStore → MemoryCall × Appended → MemoryStore
  call s (remembering fact source at confidence retention tier fresh_id, a) =
      (remember r s fact source at confidence retention tier fresh_id a).1
  call s (promoting id tier, a) = (promote r s id tier a).1
  call s (updating id fact source at confidence, a) = (update r s id fact source at confidence a).1
  call s (forgetting id, a) = (forget r s id a).1

  unfoldable pub call_all : MemoryStore → List (MemoryCall × Appended) → MemoryStore
  call_all s [] = s
  call_all s (c ∷ cs) = call_all (call s c) cs

  -- The identifier given to a new memory is new in the file.
  abbrev pub IsFresh : MemoryStore → MemoryCall → Type 0
  IsFresh s (remembering fact source at confidence retention tier fresh_id) =
      find fresh_id (load s) ≡ none
  IsFresh s (promoting id tier) = Unit
  IsFresh s (updating id fact source at confidence) = Unit
  IsFresh s (forgetting id) = Unit

  -- So it is at every call, and the record of every append reaches the audit file.
  abbrev pub AreFresh : MemoryStore → List (MemoryCall × Appended) → Type 0
  AreFresh s [] = Unit
  AreFresh s (c ∷ cs) = (IsFresh s c.0 × IsWritten c.1) × AreFresh (call s c) cs

abbrev pub no_memories : MemoryStore
no_memories = record { file = none; chain = [] }

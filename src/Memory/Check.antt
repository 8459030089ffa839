-- ===== src/Memory/Check.antt =====
-- `verify_memory` of src/openmuse/memory.py: the audit file is read line by line, and then compared with
-- the memories in the file.
use openmuse.Common.{
  splitlines, String, Text, text_eq, Bool, true, false, ◌&&◌, none, some, List, [], ◌∷◌, ◌++◌, ◌==◌,
  if◌then◌else◌, Dict, lookup, insert, keys, mem, Outcome, ok, ◌>>=◌,
}
use openmuse.Runtime.{Runtime}
use openmuse.Memory.{
  Memory, MemoryEvent, memory_write, memory_update, memory_promote, memory_forget, unrelated,
  MemoryStore, hash,
}

-- What `verify_memory` keeps of a write and its later changes.
pub record Write : Type 0 where
  pub tier : String
  pub source : String
  pub observed_at : String
  pub fact_sha256 : Text

-- `writes` and `forgets` while the chain is read.
pub record History : Type 0 where
  pub writes : Dict Write
  pub forgets : List String

abbrev pub written : String → String → String → Text → Write
written tier source observed_at digest = record {
  tier = tier;
  source = source;
  observed_at = observed_at;
  fact_sha256 = digest;
}

-- One record of the chain.
unfoldable pub observe : History → MemoryEvent → History
observe h (memory_write id tier source observed_at digest) = record h {
  writes = insert id (written tier source observed_at digest) h.writes;
}
observe h (memory_update id tier source observed_at digest) = elim (lookup id h.writes) [
  | none ↦ h
  | some w ↦ record h { writes = insert id (written tier source observed_at digest) h.writes }
]
observe h (memory_promote id tier) = elim (lookup id h.writes) [
  | none ↦ h
  | some w ↦ record h { writes = insert id (record w { tier = tier }) h.writes }
]
observe h (memory_forget id) = record h { forgets = id ∷ h.forgets }
observe h unrelated = h

unfoldable pub replay : History → List MemoryEvent → History
replay h [] = h
replay h (e ∷ es) = replay (observe h e) es

abbrev pub no_history : History
no_history = record { writes = []; forgets = [] }

pub data Violation : Type 0 where
  no_write : String → Violation
  no_forget : String → Violation
  drifted : String → Violation
  gone : String → Violation
  chain_broken : Violation
  file_missing : Violation

-- `{item.id: item for item in ...}`: a later item replaces an earlier one of its id.
unfoldable pub by_id : Dict Memory → List Memory → Dict Memory
by_id d [] = d
by_id d (m ∷ ms) = by_id (insert m.id m d) ms

module _ (r : Runtime) where
  abbrev pub agrees : Memory → Write → Bool
  agrees m w =
      text_eq (hash r m.fact) w.fact_sha256
      && m.tier == w.tier
      && m.source == w.source
      && m.observed_at == w.observed_at

  -- The loop's body for one item.
  unfoldable pub check_item : History → String → Memory → List Violation
  check_item h memory_id item = elim (lookup memory_id h.writes) [
    | none ↦ no_write memory_id ∷ []
    | some w ↦
        if item.deleted
        then if mem memory_id h.forgets then [] else no_forget memory_id ∷ []
        else if agrees item w
        then []
        else drifted memory_id ∷ []
  ]

  unfoldable pub check_items : History → Dict Memory → List Violation
  check_items h [] = []
  check_items h ((id, item) ∷ items) = check_item h id item ++ check_items h items

  -- `for memory_id in forgets - set(items)`
  unfoldable pub check_forgets : Dict Memory → List String → List Violation
  check_forgets items [] = []
  check_forgets items (id ∷ ids) =
      if mem id (keys items) then check_forgets items ids else gone id ∷ check_forgets items ids

  abbrev pub is_empty : {A : Type 0} → List A → Bool
  is_empty [] = true
  is_empty (x ∷ xs) = false

  -- `verify_memory` from the events that it has read on
  unfoldable pub reconcile : MemoryStore → Bool × List Violation
  reconcile s =
      let h = replay no_history s.chain in
      elim s.file [
        | none ↦ if is_empty h.writes then (true, []) else (false, file_missing ∷ [])
        | some items ↦
            let found = by_id [] items in
            let violations = check_items h found ++ check_forgets found h.forgets in
            (is_empty violations, violations)
      ]

-- The text of a record's line, and what `json.loads` and the record's fields give of a line; either may
-- raise.
pub record AuditText : Type 0 where
  pub line : MemoryEvent → Text
  pub reads : Text → Outcome MemoryEvent

module _ (x : AuditText) where
  unfoldable pub read_lines : List Text → Outcome (List MemoryEvent)
  read_lines [] = ok []
  read_lines (l ∷ ls) = do event ← x.reads l; events ← read_lines ls; ok (event ∷ events)

  -- `audit_path.read_text().splitlines()`
  unfoldable pub lines_of : List MemoryEvent → List Text
  lines_of [] = []
  lines_of (e ∷ es) = splitlines (x.line e) ++ lines_of es

module _ (r : Runtime) (x : AuditText) where
  -- `verify_memory`, where `chain_ok` is what `verify_chain` said of the audit file
  unfoldable pub verify_memory : Bool → MemoryStore → Outcome (Bool × List Violation)
  verify_memory false s = ok (false, chain_broken ∷ [])
  verify_memory true s = do
    events ← read_lines x (lines_of x s.chain)
    ok (reconcile r (record s { chain = events }))

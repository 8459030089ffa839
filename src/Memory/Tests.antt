-- ===== src/Memory/Tests.antt =====
-- Two memories, one of them changed and one forgotten (memory.py).
use mathlib.Core.List.{Perm}
use openmuse.Common.{
  Text, codes, splitlines, Outcome, ok, err, value_error, os_error, if◌then◌else◌, String, length,
  ◌≤◌, ◌≡◌, ◌⊎◌, refl, true, false, some, List, [], ◌∷◌, ◌++◌, lookup, insert, keys, mem, text_eq,
}
use openmuse.Samples.{toy}
use openmuse.Memory.{
  working, curated, Memory, MemoryStore, load, find, update_first, remember, promote, update,
  forget, Appended, returned, raised_before, raised_after, MemoryEvent, memory_write, memory_update,
  memory_promote, unrelated, MemoryCall, remembering, promoting, updating, forgetting, call,
  call_all, no_memories, memory_forget, AreFresh,
}
use openmuse.Memory.Check.{
  Write, observe, replay, no_history, by_id, check_item, check_items, check_forgets, verify_memory,
  reconcile, AuditText, read_lines, lines_of, drifted,
}
use openmuse.Memory.Reconcile.{Synced}
use openmuse.Memory.Mirror.{remember-Synced}
use openmuse.Memory.Search.{text_leb, Row, insert_row, sort_rows, weight, items_of, rank, search}
use openmuse.Memory.Ranked.{IsDescending, wanted, search-IsRanked}
use openmuse.Memory.Verified.{
  verify_memory-call_all, verify_memory_sound, verify_memory-restored, AreWhole, Agrees,
}

abbrev calls : List (MemoryCall × Appended)
calls =
    (remembering "sky" "ann" "t0" 1 "user" working "m1", returned)
    ∷ (remembering "sea" "bob" "t1" 1 "user" working "m2", returned)
    ∷ (promoting "m1" curated, raised_after (os_error "fsync"))
    ∷ (updating "m1" "blue sky" "ann" "t2" 2, returned)
    ∷ (forgetting "m2", returned)
    ∷ (updating "m2" "sea" "bob" "t3" 1, returned)
    ∷ []

-- The kind of an event and its id, which no two events of the calls share.
abbrev line_of : MemoryEvent → Text
line_of (memory_write id tier source at d) = 1 ∷ codes id
line_of (memory_update id tier source at d) = 2 ∷ codes id
line_of (memory_promote id tier) = 3 ∷ codes id
line_of (memory_forget id) = 4 ∷ codes id
line_of unrelated = []

abbrev read_among : List MemoryEvent → Text → Outcome MemoryEvent
read_among [] t = err (value_error "Expecting value")
read_among (e ∷ es) t = if text_eq (line_of e) t then ok e else read_among es t

abbrev text_of : List MemoryEvent → AuditText
text_of es = record { line = line_of; reads = read_among es }

abbrev sky : Memory
sky = record {
  id = "m1";
  fact = "sky";
  source = "ann";
  observed_at = "t0";
  confidence = 1;
  retention = "user";
  tier = "working";
  deleted = false;
}

program : Unit {0}
unfolding load find update_first remember promote update forget observe replay by_id check_item
    check_items check_forgets reconcile read_lines lines_of splitlines verify_memory call call_all
    lookup insert keys text_eq
program = tt

abbrev one : MemoryStore
one = record {
  file = some (sky ∷ []);
  chain =
      (call_all toy no_memories
        ((remembering "sky" "ann" "t0" 1 "user" working "m1", returned) ∷ [])).chain;
}

one_is :
    call_all toy no_memories ((remembering "sky" "ann" "t0" 1 "user" working "m1", returned) ∷ [])
    ≡ one
unfolding program
one_is = refl

-- An edit of the file alone is found.
poisoned :
    verify_memory toy
      (text_of one.chain)
      true
      (record one { file = some (record sky { fact = "sea" } ∷ []) })
    ≡ ok (false, drifted "m1" ∷ [])
unfolding program
poisoned = refl

-- A change whose record did not reach the chain is found.
unchained :
    verify_memory toy
      (text_of one.chain)
      true
      (call toy one (promoting "m1" curated, raised_before (os_error "no space")))
    ≡ ok (false, drifted "m1" ∷ [])
unfolding program
unchained = refl

-- A record whose text holds a line separator is broken up, and the check raises.
breaks :
    verify_memory toy (record { line = λ e. 1 ∷ 8232 ∷ []; reads = read_among one.chain }) true one
    ≡ err (value_error "Expecting value")
unfolding program
breaks = refl

verify_memory-call_all_example :
    verify_memory toy
      (text_of (call_all toy no_memories calls).chain)
      true
      (call_all toy no_memories calls)
    ≡ ok (true, [])
verify_memory-call_all_example =
    verify_memory-call_all toy (text_of (call_all toy no_memories calls).chain) calls fresh whole
  where
    fresh : AreFresh toy no_memories calls
    fresh =
        unfold program in
        ((refl, tt), ((refl, tt), ((tt, tt), ((tt, tt), ((tt, tt), ((tt, tt), tt))))))

    whole :
        AreWhole toy
          (text_of (call_all toy no_memories calls).chain)
          (call_all toy no_memories calls).chain
    whole =
        unfold program in
        ((refl, refl), ((refl, refl), ((refl, refl), ((refl, refl), ((refl, refl), tt)))))

verify_memory_sound_example :
    (events : List MemoryEvent) × (w : Write) × (read_lines
        (text_of one.chain)
        (lines_of (text_of one.chain) one.chain)
      ≡ ok events)
    × (lookup "m1" (replay no_history events).writes ≡ some w)
    × ((false ≡ true) × (mem "m1" (replay no_history events).forgets ≡ true)
        ⊎ (false ≡ false) × Agrees toy sky w)
verify_memory_sound_example =
    verify_memory_sound toy (text_of one.chain) one (sky ∷ []) "m1" sky [] refl
      (unfold program in refl) (unfold program in refl)

abbrev forgotten : Memory
forgotten = record sky { fact = "[DELETED]"; source = "[DELETED]"; deleted = true }

abbrev after_forget : MemoryStore
after_forget = record { file = some (forgotten ∷ []); chain = one.chain ++ memory_forget "m1" ∷ [] }

one-Synced : Synced toy one
unfolding program
one-Synced =
    remember-Synced toy no_memories "sky" "ann" "t0" 1 "user" working "m1" returned refl tt
      (record { distinct = tt; items_ok = tt; forgets_ok = refl; unwritten = λ _. refl })

verify_memory-restored_example :
    verify_memory toy
      (text_of after_forget.chain)
      true
      (record after_forget { file = some (sky ∷ []) })
    ≡ ok (true, [])
verify_memory-restored_example =
    verify_memory-restored toy (text_of after_forget.chain) one after_forget "m1" forgotten
      one-Synced (unfold program in refl) (unfold program in ((refl, refl), ((refl, refl), tt)))

-- Each text of the toy is one term.
abbrev whole : String → List String
whole text = text ∷ []

abbrev three : MemoryStore
three = record one {
  file = some (
      sky
      ∷ record sky { id = "m2"; source = "sky"; fact = "sea" }
      ∷ record sky { id = "m3"; confidence = 2 }
      ∷ []);
}

searches : search whole three "sky" 2 [] ≡ record sky { id = "m3"; confidence = 2 } ∷ sky ∷ []
unfolding load search rank weight sort_rows insert_row items_of text_leb
searches = refl

search-IsRanked_example :
    (rows : List Row) × (rest : List Row) × (search whole three "sky" 2 [] ≡ items_of rows)
    × Perm (rows ++ rest) (wanted whole (whole "sky") [] (load three))
    × IsDescending (rows ++ rest)
    × (length rows ≤ 2)
    × ((rest ≡ []) ⊎ (length rows ≡ 2))
search-IsRanked_example = search-IsRanked whole three "sky" 2 []

-- ===== src/Core/Logged.antt =====
-- AuditLog of audit.py as the agent's log: its append, seen through the records that it writes.
use openmuse.Common.{
  String, Text, ◌≡◌, ◌⊎◌, inl, inr, refl, false, Option, none, some, List, [], ◌∷◌, ◌++◌, map,
  arith, ap, ◌∙◌, is_some, Outcome, ok, err, Exception, >>=-eq-ok, raise_if-passed, ok-injective,
  sym,
}
use mathlib.Core.List.{map-append}
use openmuse.Common.Json.{Json, Fields, field, end, get, put, drop_key}
use openmuse.Common.Json.Laws.{get-put}
use openmuse.Audit.{
  Codec, keyed_algorithm, has_reserved, AuditFile, last_hash, redact_fields, linked_record,
  record_hash, sealed, append_once, append,
}
use openmuse.Audit.Append.{drop_key-put, get-redact_fields}
use openmuse.Core.{AuditSink}

drop_key-missing : (k : String) (fs : Fields) → get k fs ≡ none → drop_key k fs ≡ fs
unfolding get drop_key
drop_key-missing k end h = refl
drop_key-missing k (field j w fs) h = ground (arith, h, drop_key-missing k fs)

-- A record without the fields that the chain adds.
abbrev unlinked : Fields → Fields
unlinked fs = drop_key "previous_hash" (drop_key "chain" (drop_key "key_id" (drop_key "hash" fs)))

abbrev record_of : Option Json → Fields
record_of (some (Json.obj fs)) = unlinked fs
record_of _ = end

module _ (c : Codec) where
  -- A field of the chain's is not among the fields of the record.
  unreserved :
      (k : String) (fields : Fields)
      → is_some (get k fields) ≡ false
      → get k (redact_fields c fields) ≡ none
  unreserved k fields h = get-redact_fields c k fields (is_none (get k fields) h)
    where
      is_none : (o : Option Json) → is_some o ≡ false → o ≡ none
      is_none none e = refl
      is_none (some x) e = absurd (cc)

  unlinked-put :
      (h : Json) (fields : Fields) (previous : String) (k : Option (String × Text))
      → has_reserved fields ≡ false
      → unlinked (put "hash" h (linked_record c fields previous k)) ≡ redact_fields c fields
  unfolding linked_record has_reserved
  unlinked-put h fields previous none free =
      let base = redact_fields c fields in
      let p = put "previous_hash" (Json.str previous) base in
      let no_hash : get "hash" base ≡ none = unreserved "hash" fields (ground (arith, free)) in
      let no_previous : get "previous_hash" base ≡ none =
        unreserved "previous_hash" fields (ground (arith, free)) in
      let no_chain : get "chain" base ≡ none = unreserved "chain" fields (ground (arith, free)) in
      let no_id : get "key_id" base ≡ none = unreserved "key_id" fields (ground (arith, free)) in
      rw
        (
          drop_key-put "hash" h p
              (ground (arith, get-put "previous_hash" "hash" (Json.str previous) base, no_hash)),
          drop_key-missing "key_id" p
              (ground (arith, get-put "previous_hash" "key_id" (Json.str previous) base, no_id)),
          drop_key-missing "chain" p
              (ground (arith, get-put "previous_hash" "chain" (Json.str previous) base, no_chain)),
        )
        (drop_key-put "previous_hash" (Json.str previous) base no_previous)
  unlinked-put h fields previous (some (key_id, key)) free =
      let base = redact_fields c fields in
      let p = put "previous_hash" (Json.str previous) base in
      let q = put "chain" (Json.str keyed_algorithm) p in
      let r = put "key_id" (Json.str key_id) q in
      let no_hash : get "hash" base ≡ none = unreserved "hash" fields (ground (arith, free)) in
      let no_previous : get "previous_hash" base ≡ none =
        unreserved "previous_hash" fields (ground (arith, free)) in
      let no_chain : get "chain" base ≡ none = unreserved "chain" fields (ground (arith, free)) in
      let no_id : get "key_id" base ≡ none = unreserved "key_id" fields (ground (arith, free)) in
      rw
        (
          drop_key-put "hash" h r (
              ground (
                arith,
                get-put "key_id" "hash" (Json.str key_id) q,
                get-put "chain" "hash" (Json.str keyed_algorithm) p,
                get-put "previous_hash" "hash" (Json.str previous) base,
                no_hash,
              )),
          drop_key-put "key_id" (Json.str key_id) q (
              ground (
                arith,
                get-put "chain" "key_id" (Json.str keyed_algorithm) p,
                get-put "previous_hash" "key_id" (Json.str previous) base,
                no_id,
              )),
          drop_key-put "chain" (Json.str keyed_algorithm) p
              (ground (arith, get-put "previous_hash" "chain" (Json.str previous) base, no_chain)),
        )
        (drop_key-put "previous_hash" (Json.str previous) base no_previous)

-- What `_keys()` gives the log, and what `flush` and `fsync` give after a line was written.
module _ (c : Codec) (keys : Outcome (Option (String × Text)))
    (synced : AuditFile → Outcome (Unit {0})) where
  abbrev flushed : AuditFile → Outcome AuditFile → Outcome (Unit {0}) × AuditFile
  flushed f (err e) = (err e, f)
  flushed f (ok f') = (synced f', f')

  abbrev logged : AuditFile → Fields → Outcome (Unit {0}) × AuditFile
  logged f fields = flushed f (append c f fields keys)

  abbrev records_of : AuditFile → List Fields
  records_of f = map (λ l. record_of (c.loads l)) f.lines

  -- The line that an append writes, read back, is the redacted record.
  written :
      (f f' : AuditFile) (fields : Fields)
      → ((v : Json) → c.loads (c.dumps v) ≡ some v)
      → append c f fields keys ≡ ok f'
      → records_of f' ≡ records_of f ++ redact_fields c fields ∷ []
  unfolding append append_once
  written f f' fields reads h =
      let (free, h1) = raise_if-passed (has_reserved fields) _ _ h in
      let (k, is_k, h2) = >>=-eq-ok keys _ h1 in
      let (previous, is_previous, h3) = >>=-eq-ok (last_hash c f) _ h2 in
      let clean = linked_record c fields previous k in
      let hash = Json.str (record_hash c clean k) in
      let l = c.dumps (sealed c clean k) in
      let read_back : record_of (c.loads l) ≡ redact_fields c fields =
        rw (reads (sealed c clean k)) (unlinked-put c hash fields previous k free) in
      ap records_of (sym (ok-injective h3))
      ∙ map-append (λ t. record_of (c.loads t)) f.lines (l ∷ [])
      ∙ ap (λ x. records_of f ++ x ∷ []) read_back

  pub taken :
      (f : AuditFile) (fields : Fields)
      → ((v : Json) → c.loads (c.dumps v) ≡ some v)
      → (o : Outcome AuditFile) → append c f fields keys ≡ o
      → (flushed f o).0 ≡ ok tt
      → records_of (flushed f o).1 ≡ records_of f ++ redact_fields c fields ∷ []
  taken f fields reads (ok f') h done = written f f' fields reads h
  taken f fields reads (err e) h done = absurd (cc)

  pub maybe_taken :
      (f : AuditFile) (fields : Fields) (e : Exception)
      → ((v : Json) → c.loads (c.dumps v) ≡ some v)
      → (o : Outcome AuditFile) → append c f fields keys ≡ o
      → (flushed f o).0 ≡ err e
      → (records_of (flushed f o).1 ≡ records_of f)
        ⊎ (records_of (flushed f o).1 ≡ records_of f ++ redact_fields c fields ∷ [])
  maybe_taken f fields e reads (ok f') h failed = inr (written f f' fields reads h)
  maybe_taken f fields e reads (err x) h failed = inl refl

  -- The log is one that the agent can use, where `json` reads back what it writes.
  unfoldable pub audit_log : ((v : Json) → c.loads (c.dumps v) ≡ some v) → AuditSink
  audit_log reads = record {
    Log = AuditFile;
    append = logged;
    records = records_of;
    redact = redact_fields c;
    appended = λ f fields h. taken f fields reads (append c f fields keys) refl h;
    refused = λ f fields e h. maybe_taken f fields e reads (append c f fields keys) refl h;
  }

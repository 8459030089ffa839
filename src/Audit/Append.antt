-- ===== src/Audit/Append.antt =====
-- Whatever is appended with a key of the store verifies (audit.py).
use openmuse.Common.{
  ℕ, ◌+◌, ◌<◌, String, codes, Text, ◌≡◌, refl, Bool, true, false, Option, none, some, List, [], ◌∷◌,
  ◌++◌, eq_refl, arith, length, length-append, Outcome, ok, ◌>>=◌, inl, inr, All, ap, ◌∙◌, is_some,
  append-nil,
}
use openmuse.Common.Json.{Json, Fields, field, end, get, put, drop_key}
use openmuse.Common.Json.Laws.{get-put}
use openmuse.Approvals.Issue.{compare_digest_refl}
use openmuse.Audit.{
  Codec, zero_hash, keyed_algorithm, has_reserved, AuditFile, last_hash, redact_fields,
  linked_record, record_hash, sealed, append_once, append, Link, linked, finish, check_keyed,
  check_algorithm, check_link, check_line, verify_chain, all_lines,
}
use openmuse.Audit.Line.{line}
use openmuse.Audit.Scan.{run, run-append, check_lines-run, run-check_lines, run-last}

pub drop_key-put :
    (k : String) (v : Json) (fs : Fields) → get k fs ≡ none → drop_key k (put k v fs) ≡ fs
unfolding get put drop_key
drop_key-put k v end h = ground (arith, eq_refl k)
drop_key-put k v (field j w fs) h = ground (arith, h, drop_key-put k v fs)

module _ (c : Codec) where
  pub get-redact_fields :
      (k : String) (fs : Fields) → get k fs ≡ none → get k (redact_fields c fs) ≡ none
  unfolding get redact_fields
  get-redact_fields k end h = refl
  get-redact_fields k (field j w fs) h = ground (arith, h, get-redact_fields k fs)

  -- The fields of a keyed record before its hash is set.
  keyed-fields :
      (fields : Fields) (previous key_id : String) (key : Text)
      → has_reserved fields ≡ false
      → let clean = linked_record c fields previous (some (key_id, key)) in
        (get "hash" clean ≡ none)
        × (get "previous_hash" clean ≡ some (Json.str previous))
        × (get "chain" clean ≡ some (Json.str keyed_algorithm))
        × (get "key_id" clean ≡ some (Json.str key_id))
  unfolding linked_record has_reserved
  keyed-fields fields previous key_id key h =
      let base = redact_fields c fields in
      let linked_to = put "previous_hash" (Json.str previous) base in
      let chained = put "chain" (Json.str keyed_algorithm) linked_to in
      let unhashed : get "hash" base ≡ none =
        get-redact_fields "hash" fields (is_some-none (get "hash" fields) (ground (arith, h))) in
      (
        ground (
          arith,
          unhashed,
          get-put "previous_hash" "hash" (Json.str previous) base,
          get-put "chain" "hash" (Json.str keyed_algorithm) linked_to,
          get-put "key_id" "hash" (Json.str key_id) chained,
        ),
        ground (
          arith,
          get-put "previous_hash" "previous_hash" (Json.str previous) base,
          get-put "chain" "previous_hash" (Json.str keyed_algorithm) linked_to,
          get-put "key_id" "previous_hash" (Json.str key_id) chained,
        ),
        ground (
          arith,
          get-put "chain" "chain" (Json.str keyed_algorithm) linked_to,
          get-put "key_id" "chain" (Json.str key_id) chained,
        ),
        ground (arith, get-put "key_id" "key_id" (Json.str key_id) chained),
      )
    where
      is_some-none : (o : Option Json) → is_some o ≡ false → o ≡ none
      is_some-none none e = refl
      is_some-none (some x) e = absurd (cc)

-- One append: its record, and the key that it resolved.
abbrev pub Entry : Type 0
Entry = Fields × (String × Text)

-- `IsDigest` says which texts `json` is relied on to write and read in a link.
module _ (c : Codec) (resolve : String → Outcome (Option Text)) (require_keyed : Bool)
    (IsDigest : String → Type 0) where
  abbrev pub entry_record : String → Entry → Json
  entry_record previous (fields, keys) =
      sealed c (linked_record c fields previous (some keys)) (some keys)

  -- The record sets no field of the chain's, its key is the store's under its id, `json` reads back
  -- the line that it wrote, and the MAC is ASCII.
  pub record IsReady (e : Entry) : Type 0 where
    pub unreserved : has_reserved e.0 ≡ false
    pub known : resolve e.1.0 ≡ ok (some e.1.1)
    pub reads :
        (previous : String)
        → IsDigest previous
        → c.loads (c.dumps (entry_record previous e)) ≡ some (entry_record previous e)
    pub digests : (message : Text) → IsDigest (c.hmac e.1.1 message)
    pub ascii : (message : Text) → All (λ x. x < 128) (codes (c.hmac e.1.1 message))

  entry-line :
      (link : Link) (e : Entry)
      → IsReady e
      → IsDigest link.previous
      → line c resolve require_keyed link (c.dumps (entry_record link.previous e))
        ≡ linked (record {
          previous = record_hash c (linked_record c e.0 link.previous (some e.1)) (some e.1);
          seen_keyed = true;
        })
  unfolding check_line check_link check_algorithm check_keyed finish record_hash
  entry-line link (fields, (key_id, key)) ready digest =
      let clean = linked_record c fields link.previous (some (key_id, key)) in
      let mac = c.hmac key (c.canonical (Json.obj clean)) in
      let (unhashed, follows, chained, named) =
        keyed-fields c fields link.previous key_id key ready.unreserved in
      ground (
        arith,
        ready.reads link.previous digest,
        ready.known,
        unhashed,
        follows,
        chained,
        named,
        get-put "hash" "hash" (Json.str mac) clean,
        drop_key-put "hash" (Json.str mac) clean unhashed,
        compare_digest_refl (codes mac) (ready.ascii (c.canonical (Json.obj clean))),
        eq_refl link.previous,
      )

  abbrev start : Link
  start = record { previous = zero_hash; seen_keyed = false }

  -- A file without a torn last line, whose lines verify and end at this link.
  abbrev EndsAt : AuditFile → Link → Type 0
  EndsAt f link =
      (f.rest ≡ [])
      × (run c resolve require_keyed start f.lines ≡ some link)
      × IsDigest link.previous

  last_hash-run :
      (f : AuditFile) (link : Link)
      → f.rest ≡ []
      → run c resolve require_keyed start f.lines ≡ some link
      → last_hash c f ≡ ok link.previous
  unfolding last_hash
  last_hash-run f link whole ran = elim (run-last c resolve require_keyed f.lines start link ran) [
    | inl (empty, same) ↦ ground (arith, whole, empty, same)
    | inr (l, is_last, hash) ↦ ground (arith, whole, is_last, hash)
  ]

  append-EndsAt :
      (f : AuditFile) (link : Link) (e : Entry)
      → EndsAt f link
      → IsReady e
      → (f' : AuditFile) × (next : Link) × (append c f e.0 (ok (some e.1)) ≡ ok f')
        × EndsAt f' next
        × (length f'.lines ≡ length f.lines + 1)
  unfolding append append_once run
  append-EndsAt f link e ends ready =
      let l = c.dumps (entry_record link.previous e) in
      let next =
        let n : Link = record {
          previous = record_hash c (linked_record c e.0 link.previous (some e.1)) (some e.1);
          seen_keyed = true;
        } in
        n in
      (
        record f { lines = f.lines ++ l ∷ [] },
        next,
        ground (arith, ready.unreserved, last_hash-run f link ends.0 ends.1),
        (
          ends.0,
          ground (
            arith,
            run-append c resolve require_keyed f.lines (l ∷ []) start,
            ends.1,
            entry-line link e ready ends.2,
          ),
          (unfold record_hash in
              ready.digests
                (c.canonical (Json.obj (linked_record c e.0 link.previous (some e.1))))),
        ),
        length-append f.lines (l ∷ []) ∙ refl,
      )

  -- Appends one after the other, each with the key that it resolved.
  unfoldable pub append_all : AuditFile → List Entry → Outcome AuditFile
  append_all f [] = ok f
  append_all f (e ∷ es) = do f' ← append c f e.0 (ok (some e.1)); append_all f' es

  append_all-EndsAt :
      (es : List Entry) (f : AuditFile) (link : Link)
      → EndsAt f link
      → All IsReady es
      → (f' : AuditFile) × (next : Link) × (append_all f es ≡ ok f')
        × EndsAt f' next
        × (length f'.lines ≡ length f.lines + length es)
  unfolding append_all
  append_all-EndsAt [] f link ends ready = (f, link, refl, ends, omega arith)
  append_all-EndsAt (e ∷ es) f link ends ready =
      let (f', next, appended, ends', count) = append-EndsAt f link e ends ready.0 in
      let (f'', link', all_appended, ends'', count') = append_all-EndsAt es f' next ends' ready.1 in
      (f'', link', rw (appended) all_appended, ends'', omega arith)

  -- On a file that verifies and has no torn last line, any number of keyed appends all succeed, and
  -- the file then verifies with exactly that many lines more, whatever keys they used and whether or
  -- not keyed records are required.
  pub verify_chain-append_all :
      (es : List Entry) (f : AuditFile) (n : ℕ)
      → f.rest ≡ []
      → verify_chain c resolve require_keyed (ok f) ≡ ok (true, n, none)
      → ((h : String) → last_hash c f ≡ ok h → IsDigest h)
      → All IsReady es
      → (f' : AuditFile) × (append_all f es ≡ ok f')
        × (verify_chain c resolve require_keyed (ok f') ≡ ok (true, n + length es, none))
  unfolding verify_chain
  verify_chain-append_all es f n whole passes digest ready =
      let (link, ran, counted) =
        run-check_lines c resolve require_keyed f.lines start 0 n none
          (rw (whole_lines f whole) at passes) in
      let (f', next, appended, ends, count) =
        append_all-EndsAt es f link
          (whole, ran, digest link.previous (last_hash-run f link whole ran)) ready in
      (
        f',
        appended,
        rw (whole_lines f' ends.0) (
            check_lines-run c resolve require_keyed f'.lines start next 0 ends.1
            ∙ ap (λ k. ok (true, k, none)) (omega arith)),
      )
    where
      whole_lines : (g : AuditFile) → g.rest ≡ [] → all_lines c resolve require_keyed g ≡ g.lines
      whole_lines g e = ground (arith, e, append-nil g.lines)

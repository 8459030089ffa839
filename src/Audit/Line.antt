-- ===== src/Audit/Line.antt =====
-- What a line has that `verify_chain` lets pass (audit.py).
use openmuse.Common.{
  String, codes, Text, ◌≡◌, ◌⊎◌, refl, Bool, true, false, Option, none, some, ◌==◌, eq_iff, arith,
  Outcome, ok, Exception, Bool-cases, Option-cases, Outcome-cases, inl, inr, sym, ap, ◌∙◌,
}
use openmuse.Common.Json.{Json, Fields, get, drop_key}
use openmuse.Approvals.{compare_digest}
use openmuse.Audit.{
  Codec, keyed_algorithm, Link, LineResult, linked, refused, raised, is_string, finish, check_keyed,
  check_unkeyed, check_algorithm, check_link, check_record, check_line,
}

pub LineResult-cases :
    (x : LineResult)
    → ((l : Link) × (x ≡ linked l))
      ⊎ (((m : String) × (x ≡ refused m)) ⊎ ((e : Exception) × (x ≡ raised e)))
LineResult-cases (linked l) = inl (l, refl)
LineResult-cases (refused m) = inr (inl (m, refl))
LineResult-cases (raised e) = inr (inr (e, refl))

module _ (c : Codec) (resolve : String → Outcome (Option Text)) (require_keyed : Bool) where
  abbrev pub line : Link → Text → LineResult
  line = check_line c resolve require_keyed

  -- The MAC or digest of the record agrees with its claimed hash.
  abbrev pub Same : String → String → Type 0
  Same actual claimed = compare_digest (codes actual) (codes claimed) ≡ ok true

  -- A line that carries a MAC by a key of the store.
  pub record IsKeyed (t : Text) : Type 0 where
    pub fields : Fields
    pub claimed : String
    pub key_id : String
    pub key : Text
    pub reads : c.loads t ≡ some (Json.obj fields)
    pub hash : get "hash" fields ≡ some (Json.str claimed)
    pub names_key : get "key_id" (drop_key "hash" fields) ≡ some (Json.str key_id)
    pub known : resolve key_id ≡ ok (some key)
    pub authentic : Same (c.hmac key (c.canonical (Json.obj (drop_key "hash" fields)))) claimed

  -- A line that carries a digest without a key.
  pub record IsLegacy (t : Text) : Type 0 where
    pub fields : Fields
    pub claimed : String
    pub reads : c.loads t ≡ some (Json.obj fields)
    pub hash : get "hash" fields ≡ some (Json.str claimed)
    pub digest : Same (c.sha256 (c.canonical (Json.obj (drop_key "hash" fields)))) claimed

  -- What a line that lets the loop go on has.
  pub record Passed (link : Link) (t : Text) (next : Link) : Type 0 where
    pub fields : Fields
    pub reads : c.loads t ≡ some (Json.obj fields)
    pub hash : get "hash" fields ≡ some (Json.str next.previous)
    pub follows : get "previous_hash" (drop_key "hash" fields) ≡ some (Json.str link.previous)
    pub kind :
        ((next.seen_keyed ≡ false)
          × (link.seen_keyed ≡ false)
          × (require_keyed ≡ false)
          × IsLegacy t)
        ⊎ ((next.seen_keyed ≡ true) × IsKeyed t)

  finish-linked :
      (actual : String) (claimed : Json) (keyed : Bool) (next : Link)
      → finish c resolve require_keyed actual claimed keyed ≡ linked next
      → (s : String) × (claimed ≡ Json.str s)
        × Same actual s
        × (next ≡ record { previous = s; seen_keyed = keyed })
  unfolding finish
  finish-linked actual (Json.str s) keyed next h =
      elim (Outcome-cases (compare_digest (codes actual) (codes s))) [
        | inr (x, e) ↦ absurd (ground (arith, h, e))
        | inl (b, e) ↦ elim (Bool-cases b) [
          | inl same ↦ (s, refl, ground (arith, e, same), ground (arith, h, e, same))
          | inr differs ↦ absurd (ground (arith, h, e, differs))
        ]
      ]
  finish-linked actual _ keyed next h = absurd (cc)

  abbrev GoesOn : Link → Text → Fields → Json → Link → Type 0
  GoesOn link t fs claimed next =
      (s : String) × (claimed ≡ Json.str s)
      × (next.previous ≡ s)
      × (((next.seen_keyed ≡ false)
            × (link.seen_keyed ≡ false)
            × (require_keyed ≡ false)
            × Same (c.sha256 (c.canonical (Json.obj fs))) s)
          ⊎ ((next.seen_keyed ≡ true)
              × ((key_id : String) × (key : Text) × (get "key_id" fs ≡ some (Json.str key_id))
                  × (resolve key_id ≡ ok (some key))
                  × Same (c.hmac key (c.canonical (Json.obj fs))) s)))

  check_unkeyed-linked :
      (link : Link) (t : Text) (fs : Fields) (claimed : Json) (next : Link)
      → check_unkeyed c resolve require_keyed link fs claimed ≡ linked next
      → GoesOn link t fs claimed next
  unfolding check_unkeyed
  check_unkeyed-linked link t fs claimed next h = elim (Bool-cases require_keyed) [
    | inl required ↦ absurd (ground (arith, h, required))
    | inr free ↦ elim (Bool-cases link.seen_keyed) [
      | inl seen ↦ absurd (ground (arith, h, free, seen))
      | inr unseen ↦
          let (s, is_s, same, is_next) =
            finish-linked (c.sha256 (c.canonical (Json.obj fs))) claimed false next
              (ground (arith, h, free, unseen)) in
          (s, is_s, rw is_next refl, inl (rw is_next refl, unseen, free, same))
    ]
  ]

  check_keyed-linked :
      (link : Link) (t : Text) (k : Option Json) (fs : Fields) (claimed : Json) (next : Link)
      → k ≡ get "key_id" fs
      → check_keyed c resolve require_keyed k fs claimed ≡ linked next
      → GoesOn link t fs claimed next
  unfolding check_keyed
  check_keyed-linked link t none fs claimed next e h = absurd (cc)
  check_keyed-linked link t (some (Json.str key_id)) fs claimed next e h =
      elim (Outcome-cases (resolve key_id)) [
        | inr (x, f) ↦ absurd (ground (arith, h, f))
        | inl (o, f) ↦ elim (Option-cases o) [
          | inl g ↦ absurd (ground (arith, h, f, g))
          | inr (key, g) ↦
              let (s, is_s, same, is_next) =
                finish-linked (c.hmac key (c.canonical (Json.obj fs))) claimed true next
                  (ground (arith, h, f, g)) in
              (
                s,
                is_s,
                rw is_next refl,
                inr (rw is_next refl, (key_id, key, sym e, f ∙ ap ok g, same)),
              )
        ]
      ]
  check_keyed-linked link t (some _) fs claimed next e h = absurd (cc)

  check_algorithm-linked :
      (link : Link) (t : Text) (a : Option Json) (fs : Fields) (claimed : Json) (next : Link)
      → check_algorithm c resolve require_keyed link a fs claimed ≡ linked next
      → GoesOn link t fs claimed next
  unfolding check_algorithm
  check_algorithm-linked link t none fs claimed next h =
      check_unkeyed-linked link t fs claimed next h
  check_algorithm-linked link t (some Json.null) fs claimed next h =
      check_unkeyed-linked link t fs claimed next h
  check_algorithm-linked link t (some (Json.str a)) fs claimed next h =
      elim (Bool-cases (a == keyed_algorithm)) [
        | inl keyed ↦
            check_keyed-linked link t (get "key_id" fs) fs claimed next refl
              (ground (arith, h, keyed))
        | inr unknown ↦ absurd (ground (arith, h, unknown))
      ]
  check_algorithm-linked link t (some _) fs claimed next h = absurd (cc)

  is_string-true : (j : Option Json) (s : String) → is_string j s ≡ true → j ≡ some (Json.str s)
  is_string-true none s h = absurd (cc)
  is_string-true (some (Json.str t)) s h = ground (arith, h, eq_iff t s)
  is_string-true (some _) s h = absurd (cc)

  check_link-Passed :
      (link next : Link) (t : Text) (fs : Fields) (claimed : Json)
      → c.loads t ≡ some (Json.obj fs)
      → get "hash" fs ≡ some claimed
      → check_link c resolve require_keyed link (drop_key "hash" fs) claimed ≡ linked next
      → Passed link t next
  unfolding check_link
  check_link-Passed link next t fs claimed reads found h =
      let rest = drop_key "hash" fs in
      elim (Bool-cases (is_string (get "previous_hash" rest) link.previous)) [
        | inr breaks ↦ absurd (ground (arith, h, breaks))
        | inl follows ↦
            let (s, is_s, is_next, kind) =
              check_algorithm-linked link t (get "chain" rest) rest claimed next
                (ground (arith, h, follows)) in
            record {
              fields = fs;
              reads = reads;
              hash = found ∙ ap some (is_s ∙ ap Json.str (sym is_next));
              follows = is_string-true (get "previous_hash" rest) link.previous follows;
              kind = elim kind [
                | inl (off, unseen, free, same) ↦ inl (
                  off,
                  unseen,
                  free,
                  record {
                    fields = fs;
                    claimed = s;
                    reads = reads;
                    hash = found ∙ ap some is_s;
                    digest = same;
                  },
                )
                | inr (seen, (key_id, key, named, known, same)) ↦ inr (
                  seen,
                  record {
                    fields = fs;
                    claimed = s;
                    key_id = key_id;
                    key = key;
                    reads = reads;
                    hash = found ∙ ap some is_s;
                    names_key = named;
                    known = known;
                    authentic = same;
                  },
                )
              ];
            }
      ]

  pub line-Passed : (link next : Link) (t : Text) → line link t ≡ linked next → Passed link t next
  unfolding check_line
  line-Passed link next t h = go (c.loads t) refl h
    where
      go :
          (j : Option Json)
          → c.loads t ≡ j
          → check_record c resolve require_keyed link j ≡ linked next
          → Passed link t next
      go none e k = absurd (cc)
      go (some (Json.obj fs)) e k = elim (Option-cases (get "hash" fs)) [
        | inl missing ↦ absurd (ground (arith, k, missing))
        | inr (claimed, found) ↦
            check_link-Passed link next t fs claimed e found (ground (arith, k, found))
      ]
      go (some _) e k = absurd (cc)

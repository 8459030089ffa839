-- ===== src/Audit/Keyed.antt =====
-- What a file that verifies rules out (audit.py).
use openmuse.Common.{
  ℕ, String, Text, ◌≡◌, refl, Bool, true, false, ◌||◌, Option, some, List, [], ◌∷◌, ◌++◌, arith,
  Outcome, ok, ◌⊎◌, Option-cases, inl, inr, All, ap, subst,
}
use openmuse.Common.Json.{Json, Fields, get, drop_key}
use openmuse.Audit.{Codec, zero_hash, AuditFile, Link, linked, verify_chain, all_lines}
use openmuse.Audit.Line.{LineResult-cases, line, IsKeyed, IsLegacy, Same, line-Passed}
use openmuse.Audit.Scan.{run, run-append, run-check_lines}

module _ (c : Codec) (resolve : String → Outcome (Option Text)) (require_keyed : Bool) where
  abbrev start : Link
  start = record { previous = zero_hash; seen_keyed = false }

  -- Once keyed records are required, or one was seen, every line is keyed.
  run-IsKeyed :
      (ls : List Text) (link next : Link)
      → run c resolve require_keyed link ls ≡ some next
      → (require_keyed || link.seen_keyed) ≡ true
      → All (IsKeyed c resolve require_keyed) ls
  unfolding run
  run-IsKeyed [] link next h must = tt
  run-IsKeyed (l ∷ ls) link next h must =
      elim (LineResult-cases (line c resolve require_keyed link l)) [
        | inr (inl (m, e)) ↦ absurd (ground (arith, h, e))
        | inr (inr (x, e)) ↦ absurd (ground (arith, h, e))
        | inl (step, e) ↦ elim (line-Passed c resolve require_keyed link step l e).kind [
          | inl (off, unseen, free, legacy) ↦ absurd (ground (arith, must, unseen, free))
          | inr (seen, keyed) ↦
              (keyed, run-IsKeyed ls step next (ground (arith, h, e)) (ground (arith, must, seen)))
        ]
      ]

  run-cons :
      (l : Text) (ls : List Text) (link next : Link)
      → run c resolve require_keyed link (l ∷ ls) ≡ some next
      → (step : Link) × (line c resolve require_keyed link l ≡ linked step)
        × (run c resolve require_keyed step ls ≡ some next)
  unfolding run
  run-cons l ls link next h = elim (LineResult-cases (line c resolve require_keyed link l)) [
    | inr (inl (m, e)) ↦ absurd (ground (arith, h, e))
    | inr (inr (x, e)) ↦ absurd (ground (arith, h, e))
    | inl (step, e) ↦ (step, e, ground (arith, h, e))
  ]

  run-split :
      (xs ys : List Text) (link next : Link)
      → run c resolve require_keyed link (xs ++ ys) ≡ some next
      → (mid : Link) × (run c resolve require_keyed link xs ≡ some mid)
        × (run c resolve require_keyed mid ys ≡ some next)
  run-split xs ys link next h = elim (Option-cases (run c resolve require_keyed link xs)) [
    | inl e ↦ absurd (ground (arith, h, e, run-append c resolve require_keyed xs ys link))
    | inr (mid, e) ↦ (mid, e, ground (arith, h, e, run-append c resolve require_keyed xs ys link))
  ]

  run-IsLegacy :
      (ls : List Text) (link next : Link)
      → run c resolve require_keyed link ls ≡ some next
      → (legacy : List Text) × (keyed : List Text) × (ls ≡ legacy ++ keyed)
        × All (IsLegacy c resolve require_keyed) legacy
        × All (IsKeyed c resolve require_keyed) keyed
  run-IsLegacy [] link next h = ([], [], refl, tt, tt)
  run-IsLegacy (l ∷ ls) link next h =
      let (step, e, rest) = run-cons l ls link next h in
      elim (line-Passed c resolve require_keyed link step l e).kind [
        | inr (seen, keyed) ↦
            ([], l ∷ ls, refl, tt, (keyed, run-IsKeyed ls step next rest (ground (arith, seen))))
        | inl (off, unseen, free, is_legacy) ↦
            let (legacy, keyed, split, a, b) = run-IsLegacy ls step next rest in
            (l ∷ legacy, keyed, ap (λ x. l ∷ x) split, (is_legacy, a), b)
      ]

  passes-run :
      (f : AuditFile) (n : ℕ) (o : Option String)
      → verify_chain c resolve require_keyed (ok f) ≡ ok (true, n, o)
      → (next : Link) × (run c resolve require_keyed start (all_lines c resolve require_keyed f)
          ≡ some next)
  unfolding verify_chain
  passes-run f n o h =
      let (next, ran, counted) =
        run-check_lines c resolve require_keyed (all_lines c resolve require_keyed f) start 0 n o
          h in
      (next, ran)

  -- A file that verifies is a part of unkeyed lines, each with the digest of its own fields, and then
  -- only keyed lines, each with a MAC of its own fields by the key that the store has under the id
  -- that the line names.
  pub verify_chain-IsKeyed :
      (f : AuditFile) (n : ℕ) (o : Option String)
      → verify_chain c resolve require_keyed (ok f) ≡ ok (true, n, o)
      → (legacy : List Text) × (keyed : List Text) × (all_lines c resolve require_keyed f
          ≡ legacy ++ keyed)
        × All (IsLegacy c resolve require_keyed) legacy
        × All (IsKeyed c resolve require_keyed) keyed
  verify_chain-IsKeyed f n o h =
      let (next, ran) = passes-run f n o h in
      run-IsLegacy (all_lines c resolve require_keyed f) start next ran

  -- Where keyed records are required, every line of a file that verifies is keyed.
  pub verify_chain-All-IsKeyed :
      (f : AuditFile) (n : ℕ) (o : Option String)
      → require_keyed ≡ true
      → verify_chain c resolve require_keyed (ok f) ≡ ok (true, n, o)
      → All (IsKeyed c resolve require_keyed) (all_lines c resolve require_keyed f)
  verify_chain-All-IsKeyed f n o required h =
      let (next, ran) = passes-run f n o h in
      run-IsKeyed (all_lines c resolve require_keyed f) start next ran (ground (arith, required))

  -- The line's hash is `h`, and it is a digest of the line's own fields, or their MAC by the key that
  -- the store has under the id that the line names.
  abbrev pub Claims : Text → String → Type 0
  Claims l h =
      (fields : Fields) × (c.loads l ≡ some (Json.obj fields))
      × (get "hash" fields ≡ some (Json.str h))
      × (Same c resolve require_keyed (c.sha256 (c.canonical (Json.obj (drop_key "hash" fields)))) h
          ⊎ ((key_id : String) × (key : Text) × (get "key_id" (drop_key "hash" fields)
                ≡ some (Json.str key_id))
              × (resolve key_id ≡ ok (some key))
              × Same c resolve require_keyed
                  (c.hmac key (c.canonical (Json.obj (drop_key "hash" fields)))) h))

  IsLegacy-Claims :
      (l : Text) (h : String) (fields : Fields)
      → c.loads l ≡ some (Json.obj fields)
      → get "hash" fields ≡ some (Json.str h)
      → IsLegacy c resolve require_keyed l
      → Claims l h
  IsLegacy-Claims l h fields reads hash p =
      let same : p.fields ≡ fields = ground (arith, reads, p.reads) in
      let agree : p.claimed ≡ h = ground (arith, hash, p.hash, same) in
      (
        p.fields,
        p.reads,
        subst (λ x. get "hash" p.fields ≡ some (Json.str x)) agree p.hash,
        inl (subst (Same c resolve require_keyed _) agree p.digest),
      )

  IsKeyed-Claims :
      (l : Text) (h : String) (fields : Fields)
      → c.loads l ≡ some (Json.obj fields)
      → get "hash" fields ≡ some (Json.str h)
      → IsKeyed c resolve require_keyed l
      → Claims l h
  IsKeyed-Claims l h fields reads hash p =
      let same : p.fields ≡ fields = ground (arith, reads, p.reads) in
      let agree : p.claimed ≡ h = ground (arith, hash, p.hash, same) in
      (
        p.fields,
        p.reads,
        subst (λ x. get "hash" p.fields ≡ some (Json.str x)) agree p.hash,
        inr (
          p.key_id,
          p.key,
          p.names_key,
          p.known,
          subst (Same c resolve require_keyed _) agree p.authentic,
        ),
      )

  hash-next :
      (before after : List Text) (l m : Text) (link next : Link)
      → run c resolve require_keyed link (before ++ l ∷ m ∷ after) ≡ some next
      → (h : String) × Claims l h
        × ((fields : Fields) × (c.loads m ≡ some (Json.obj fields))
            × (get "previous_hash" (drop_key "hash" fields) ≡ some (Json.str h)))
  hash-next before after l m link next h =
      let (mid, _, tail) = run-split before (l ∷ m ∷ after) link next h in
      let (step, e, rest) = run-cons l (m ∷ after) mid next tail in
      let (step', e', _) = run-cons m after step next rest in
      let p = line-Passed c resolve require_keyed mid step l e in
      let q = line-Passed c resolve require_keyed step step' m e' in
      let claims : Claims l step.previous = elim p.kind [
        | inl (off, unseen, free, legacy) ↦
            IsLegacy-Claims l step.previous p.fields p.reads p.hash legacy
        | inr (seen, keyed) ↦ IsKeyed-Claims l step.previous p.fields p.reads p.hash keyed
      ] in
      (step.previous, claims, (q.fields, q.reads, q.follows))

  -- When two files verify and differ in one line before the last, both versions of the line claim the
  -- same hash, and this hash is for each version the digest of its own fields or their MAC by a key of
  -- the store: to change a record that has a successor takes a second record with the same digest or MAC.
  pub verify_chain-tampered :
      (f g : AuditFile) (before after : List Text) (l l' m : Text) (n k : ℕ) (o p : Option String)
      → all_lines c resolve require_keyed f ≡ before ++ l ∷ m ∷ after
      → all_lines c resolve require_keyed g ≡ before ++ l' ∷ m ∷ after
      → verify_chain c resolve require_keyed (ok f) ≡ ok (true, n, o)
      → verify_chain c resolve require_keyed (ok g) ≡ ok (true, k, p)
      → (h : String) × Claims l h × Claims l' h
  verify_chain-tampered f g before after l l' m n k o p is_f is_g pass_f pass_g =
      let (next, ran) = passes-run f n o pass_f in
      let (next', ran') = passes-run g k p pass_g in
      let (h, claims, (fields, reads, follows)) =
        hash-next before after l m start next (rw is_f at ran) in
      let (h', claims', (fields', reads', follows')) =
        hash-next before after l' m start next' (rw is_g at ran') in
      let same : h' ≡ h = ground (arith, reads, reads', follows, follows') in
      (h, claims, subst (Claims l') same claims')

-- ===== src/Audit/Scan.antt =====
-- What a verified file looks like to the loop of `verify_chain` (audit.py).
use openmuse.Common.{
  ℕ, ◌+◌, String, Text, ◌≡◌, ◌⊎◌, refl, Bool, true, Option, none, some, List, [], ◌∷◌, ◌++◌, arith,
  length, Outcome, ok, Bool-cases, inl, inr, ap, ◌∙◌,
}
use openmuse.Audit.{Codec, last, tail_hash, Link, linked, refused, raised, check_lines, caught}
use openmuse.Audit.Line.{LineResult-cases, line, line-Passed}

module _ (c : Codec) (resolve : String → Outcome (Option Text)) (require_keyed : Bool) where
  -- The link after lines that all let the loop go on.
  unfoldable pub run : Link → List Text → Option Link
  run link [] = some link
  run link (l ∷ ls) = elim (line c resolve require_keyed link l) [
    | refused m ↦ none
    | raised e ↦ none
    | linked next ↦ run next ls
  ]

  pub run-append :
      (xs ys : List Text) (link : Link)
      → run link (xs ++ ys) ≡ elim (run link xs) [ none ↦ none | some next ↦ run next ys ]
  unfolding run
  run-append [] ys link = refl
  run-append (x ∷ xs) ys link = elim (LineResult-cases (line c resolve require_keyed link x)) [
    | inl (next, e) ↦ ground (arith, e, run-append xs ys next)
    | inr (inl (m, e)) ↦ ground (arith, e)
    | inr (inr (x', e)) ↦ ground (arith, e)
  ]

  pub check_lines-run :
      (ls : List Text) (link next : Link) (n : ℕ)
      → run link ls ≡ some next
      → check_lines c resolve require_keyed link n ls ≡ ok (true, n + length ls, none)
  unfolding run check_lines
  check_lines-run [] link next n h = ground arith
  check_lines-run (l ∷ ls) link next n h =
      elim (LineResult-cases (line c resolve require_keyed link l)) [
        | inl (step, e) ↦
            rw (e, check_lines)
              (check_lines-run ls step next (n + 1) (ground (arith, h, e))
                ∙ ap (λ k. ok (true, k, none)) (omega arith))
        | inr (inl (m, e)) ↦ absurd (ground (arith, h, e))
        | inr (inr (x, e)) ↦ absurd (ground (arith, h, e))
      ]

  pub run-check_lines :
      (ls : List Text) (link : Link) (n m : ℕ) (o : Option String)
      → check_lines c resolve require_keyed link n ls ≡ ok (true, m, o)
      → (next : Link) × (run link ls ≡ some next) × (m ≡ n + length ls)
  unfolding run check_lines
  run-check_lines [] link n m o h = (link, refl, ground (arith, h))
  run-check_lines (l ∷ ls) link n m o h =
      elim (LineResult-cases (line c resolve require_keyed link l)) [
        | inl (step, e) ↦
            let (next, ran, counted) = run-check_lines ls step (n + 1) m o (ground (arith, h, e)) in
            (next, rw (e, run) ran, omega arith)
        | inr (inl (msg, e)) ↦ absurd (ground (arith, h, e))
        | inr (inr (x, e)) ↦ elim (Bool-cases (caught x)) [
          | inl k ↦ absurd (ground (arith, h, e, k))
          | inr k ↦ absurd (ground (arith, h, e, k))
        ]
      ]

  -- The link after a line is the hash of the line.
  pub run-last :
      (ls : List Text) (link next : Link)
      → run link ls ≡ some next
      → ((last ls ≡ none) × (next ≡ link))
        ⊎ ((l : Text) × (last ls ≡ some l) × (tail_hash c (c.loads l) ≡ ok next.previous))
  unfolding run last
  run-last [] link next h = inl (refl, ground (arith, h))
  run-last (x ∷ xs) link next h = elim (LineResult-cases (line c resolve require_keyed link x)) [
    | inr (inl (m, e)) ↦ absurd (ground (arith, h, e))
    | inr (inr (y, e)) ↦ absurd (ground (arith, h, e))
    | inl (step, e) ↦
        let p = line-Passed c resolve require_keyed link step x e in
        elim (run-last xs step next (ground (arith, h, e))) [
          | inr (l, is_last, hash) ↦ inr (l, ground (arith, is_last), hash)
          | inl (alone, same) ↦
              inr (x, ground (arith, alone), ground (arith, p.reads, p.hash, same))
        ]
  ]

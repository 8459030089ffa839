-- ===== src/Audit/Bytes.antt =====
-- src/openmuse/audit.py: the log as the bytes of its file.
use openmuse.Common.{
  String, Text, split, holds, split-append, split_whole, ◌≡◌, refl, sym, ap, ◌∙◌, Bool, true, false,
  not, Option, none, some, List, [], ◌∷◌, ◌++◌, arith, if◌then◌else◌, all, Option-cases, inl, inr,
  Outcome, ok, err, ◌>>=◌,
}
use openmuse.Audit.{Codec, AuditFile, last, last_hash, tail_hash, is_blank, zero_hash}
use openmuse.Audit.Tail.{last_line, before_last, last_line-split, split-parts, incomplete}

unfoldable pub bytes_from : List Text → Text → Text
bytes_from [] rest = rest
bytes_from (l ∷ ls) rest = l ++ (10 ∷ bytes_from ls rest)

abbrev pub bytes : AuditFile → Text
bytes f = bytes_from f.lines f.rest

-- The lines are what stands between newlines.
abbrev pub IsSplit : AuditFile → Type 0
IsSplit f = (all (λ l. not (holds 10 l)) f.lines ≡ true) × (holds 10 f.rest ≡ false)

abbrev last_or : Option Text → Option Text → Option Text
last_or x none = x
last_or x (some l) = some l

last_or-last :
    (x : Option Text) (l : Text) (ls : List Text)
    → last_or x (last (l ∷ ls)) ≡ last_or (some l) (last ls)
unfolding last
last_or-last x l ls = elim (Option-cases (last ls)) [ inl f ↦ rw f refl | inr (y, f) ↦ rw f refl ]

before_last-rest :
    (x : Option Text) (rest : Text)
    → before_last x (rest ∷ []) ≡ (if is_blank rest then ok x else err incomplete)
unfolding before_last
before_last-rest x [] = refl
before_last-rest x (c ∷ s) = refl

before_last-next :
    (x : Option Text) (l : Text) (s : Text)
    → before_last x (l ∷ split 10 s) ≡ before_last (some l) (split 10 s)
unfolding before_last
before_last-next x l s = let (p, ps, parts) = split-parts s in rw parts refl

before_last-bytes :
    (x : Option Text) (ls : List Text) (rest : Text)
    → all (λ l. not (holds 10 l)) ls ≡ true
    → holds 10 rest ≡ false
    → before_last x (split 10 (bytes_from ls rest))
      ≡ (if is_blank rest then ok (last_or x (last ls)) else err incomplete)
unfolding bytes_from last
before_last-bytes x [] rest a r =
    ap (before_last x) (split_whole 10 rest r) ∙ before_last-rest x rest
before_last-bytes x (l ∷ ls) rest a r =
    ap (before_last x) (split-append 10 l (bytes_from ls rest) (ground arith))
    ∙ before_last-next x l (bytes_from ls rest)
    ∙ before_last-bytes (some l) ls rest (ground arith) r
    ∙ ap (λ o. if is_blank rest then ok o else err incomplete) (sym (last_or-last x l ls))

module _ (c : Codec) where
  -- `_last_record` of the bytes, and the hash of what it returns
  abbrev pub hash_of : Option Text → Outcome String
  hash_of none = ok zero_hash
  hash_of (some l) = tail_hash c (c.loads l)

  hash_of-tail :
      (blank : Bool) (o : Option Text)
      → (if blank
          then elim o [ none ↦ ok zero_hash | some l ↦ tail_hash c (c.loads l) ]
          else err incomplete)
        ≡ ((if blank then ok (last_or none o) else err incomplete) >>= hash_of)
  hash_of-tail true none = refl
  hash_of-tail true (some l) = refl
  hash_of-tail false none = refl
  hash_of-tail false (some l) = refl

  -- The hash that the next record is linked to is the one in the line that `_last_record` finds by its
  -- search from the end of the file's bytes; where the search finds no line it is the hash of zeros,
  -- and an incomplete last line is the error of both.
  pub last_hash-last_line :
      (f : AuditFile) → IsSplit f → last_hash c f ≡ (last_line (bytes f) >>= hash_of)
  unfolding last_hash
  last_hash-last_line f (lines, rest) =
      hash_of-tail (is_blank f.rest) (last f.lines)
      ∙ sym (
          ap (λ o. o >>= hash_of)
            (last_line-split (bytes f) ∙ before_last-bytes none f.lines f.rest lines rest))

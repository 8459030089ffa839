-- ===== src/Tools/Files.antt =====
-- src/openmuse/tools.py: what a written file changes.
use openmuse.Common.{
  Bool-cases, Text, text_eq, text_eq→eq, ◌≡◌, ◌≢◌, ap, ◌∙◌, sym, ◌⊎◌, inl, inr, refl, false, List,
  [], ◌∷◌, Outcome, Outcome-cases, ok, err, ◌>>=◌, >>=-eq-ok, codes, ◌++◌,
}
use openmuse.Tools.{
  Entries, dir, find, set, universal, open_dir, read_from, read_file, write_leaf, make_dir,
  write_from, write_parts, write_file, components,
}
use openmuse.Tools.Steps.{
  find-set, find-set_same, read_from-at, read_into, write_into, write_nowhere, write_from-read,
  write_leaf-find, write_leaf-dir, make_dir-read, make_dir-open, read-opened,
}
use openmuse.Tools.Paths.{components-IsPath}

text_eq-cases : (a b : Text) → (a ≡ b) ⊎ (text_eq a b ≡ false)
text_eq-cases a b = elim (Bool-cases (text_eq a b)) [
  | inl h ↦ inl (text_eq→eq a b h)
  | inr h ↦ inr h
]

-- Another leaf reads what it read before.
write_leaf-frame :
    (es : Entries) (leaf content : Text) (other : List Text) (text : Text)
    → read_from es other ≡ ok text
    → other ≢ leaf ∷ []
    → read_from (write_leaf leaf content es (find leaf es)).1 other ≡ ok text
unfolding read_from
write_leaf-frame es leaf content [] text r differs = absurd (cc)
write_leaf-frame es leaf content (x ∷ []) text r differs = elim (text_eq-cases leaf x) [
  | inr h ↦ read_from-at es _ x [] (write_leaf-find leaf content x es (find leaf es) h) ∙ r
  | inl same ↦ absurd (differs (ap (λ p. p ∷ []) (sym same)))
]
write_leaf-frame es leaf content (x ∷ y ∷ zs) text r differs = elim (text_eq-cases leaf x) [
  | inr h ↦ read_from-at es _ x (y ∷ zs) (write_leaf-find leaf content x es (find leaf es) h) ∙ r
  | inl same ↦
      let (ds, found, _) = read-opened es x y zs text r in
      ap (λ w. read_from w (x ∷ y ∷ zs))
        (write_leaf-dir leaf content es ds (find leaf es)
          (ap (λ p. open_dir (find p es)) same ∙ found))
      ∙ r
]

-- The same below a directory: `after` is what the directory `part` became.
below :
    (es ds after : Entries) (part : Text) (rest : List Text) (text : Text)
    → make_dir (find part es) ≡ ok ds
    → read_from es (part ∷ rest) ≡ ok text
    → (read_from ds rest ≡ ok text → read_from after rest ≡ ok text)
    → read_from (set part (dir after) es) (part ∷ rest) ≡ ok text
unfolding read_from
below es ds after part [] text made r keep = absurd (make_dir-read (find part es) ds made r)
below es ds after part (y ∷ zs) text made r keep =
    let (xs, found, r') = read-opened es part y zs text r in
    read_into (set part (dir after) es) after part y zs
      (rw (find-set_same part (dir after) es) refl)
    ∙ keep (ap (λ d. read_from d (y ∷ zs)) (make_dir-open (find part es) ds xs made found) ∙ r')

nothing-read : (es : Entries) {text : Text} → read_from es [] ≡ ok text → ⊥
unfolding read_from
nothing-read es r = absurd (cc)

write_from-frame :
    (es : Entries) (content : Text) (parts other : List Text) (text : Text)
    → read_from es other ≡ ok text
    → other ≢ parts
    → read_from (write_from es content parts).1 other ≡ ok text
unfolding write_from
write_from-frame es content [] other text r differs = r
write_from-frame es content (leaf ∷ []) other text r differs =
    write_leaf-frame es leaf content other text r differs
write_from-frame es content (part ∷ leaf ∷ ps) [] text r differs = absurd (nothing-read es r)
write_from-frame es content (part ∷ leaf ∷ ps) (x ∷ rest) text r differs =
    elim (Outcome-cases (make_dir (find part es))) [
      | inr (e, failed) ↦
          ap (λ w. read_from w.1 (x ∷ rest)) (write_nowhere es content part leaf ps e failed) ∙ r
      | inl (ds, made) ↦
          let deeper = (write_from ds content (leaf ∷ ps)).1 in
          ap (λ w. read_from w.1 (x ∷ rest)) (write_into es ds content part leaf ps made)
          ∙ elim (text_eq-cases part x) [
            | inr h ↦ read_from-at es _ x rest (rw (find-set x part (dir deeper) es, h) refl) ∙ r
            | inl same ↦
                ap (λ p. read_from (set part (dir deeper) es) (p ∷ rest)) (sym same)
                ∙ below es ds deeper part rest text made
                    (ap (λ p. read_from es (p ∷ rest)) same ∙ r)
                    (λ r'.
                      write_from-frame ds content (leaf ∷ ps) rest text r' (λ eq. differs (cc)))
          ]
    ]

write_parts-read :
    (workspace : Entries) (path content : Text) (c : Outcome (List Text)) {said : Text}
    → (write_parts workspace path content c).0 ≡ ok said
    → (c >>= read_from (write_parts workspace path content c).1) ≡ ok (universal content)
write_parts-read workspace path content (err e) h = absurd (cc)
write_parts-read workspace path content (ok parts) h =
    let written =
      >>=-eq-ok (write_from workspace content parts).0 (λ u. ok (codes "wrote " ++ path)) h in
    write_from-read workspace content parts written.1

write_parts-frame :
    (workspace : Entries) (path content : Text) (c : Outcome (List Text)) (other : List Text)
    (text : Text)
    → read_from workspace other ≡ ok text
    → c ≢ ok other
    → read_from (write_parts workspace path content c).1 other ≡ ok text
write_parts-frame workspace path content (err e) other text r differs = r
write_parts-frame workspace path content (ok parts) other text r differs =
    write_from-frame workspace content parts other text r (λ same. differs (ap ok (sym same)))

same_path :
    (raw other : Text) (parts : List Text)
    → components raw ≡ ok parts
    → components other ≡ ok parts
    → raw ≡ other
same_path raw other parts h k =
    sym (components-IsPath raw parts h).0 ∙ (components-IsPath other parts k).0

-- When WriteFile succeeds, ReadFile of the same path returns the content, with its line ends as a text
-- handle reads them.
pub write_file-read :
    (workspace : Entries) (path content : Text) {said : Text}
    → (write_file workspace path content).0 ≡ ok said
    → read_file (write_file workspace path content).1 path ≡ ok (universal content)
unfolding write_file read_file
write_file-read workspace path content h =
    write_parts-read workspace path content (components path) h

-- Whichever way a call of WriteFile ends, a file at another path that could be read before it reads the
-- same after it.
pub write_file-frame :
    (workspace : Entries) (path content other : Text) {text : Text}
    → read_file workspace other ≡ ok text
    → other ≢ path
    → read_file (write_file workspace path content).1 other ≡ ok text
unfolding write_file read_file
write_file-frame workspace path content other {text} r differs =
    let (parts, found, read) = >>=-eq-ok (components other) (read_from workspace) r in
    ap (λ c. c >>= read_from (write_parts workspace path content (components path)).1) found
    ∙ write_parts-frame workspace path content (components path) parts text read
        (λ same. differs (same_path other path parts found same))

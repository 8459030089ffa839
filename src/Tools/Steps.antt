-- ===== src/Tools/Steps.antt =====
-- src/openmuse/tools.py: one step into a directory, read and written.
use openmuse.Common.{
  ok_not_err, Text, text_eq, text_eq→eq, text_eq_refl, ◌≡◌, ap, ◌∙◌, sym, inl, inr, refl, false,
  Option, none, some, List, [], ◌∷◌, arith, if◌then◌else◌, Outcome-cases, ok-injective, Exception,
  ok, err,
}
use openmuse.Tools.{
  Tree, Entries, file, dir, link, device, fifo, end, entry, find, set, universal, read_leaf,
  open_dir, read_from, write_leaf, make_dir, write_from,
}

pub find-set :
    (j k : Text) (t : Tree) (es : Entries)
    → find j (set k t es) ≡ (if text_eq k j then some t else find j es)
unfolding find set
find-set j k t end = refl
find-set j k t (entry i x es) =
    ground
      (arith, text_eq→eq k j, text_eq→eq i k, text_eq→eq i j, text_eq_refl i, find-set j k t es)

pub find-set_same : (k : Text) (t : Tree) (es : Entries) → find k (set k t es) ≡ some t
find-set_same k t es = rw (find-set k k t es, text_eq_refl k) refl

-- The same entry at the first name reads the same.
pub read_from-at :
    (es es' : Entries) (part : Text) (parts : List Text)
    → find part es' ≡ find part es
    → read_from es' (part ∷ parts) ≡ read_from es (part ∷ parts)
unfolding read_from
read_from-at es es' part [] same = cc
read_from-at es es' part (leaf ∷ parts) same = rw (read_from, same) refl

write_leaf-read :
    (leaf content : Text) (es : Entries) (t : Option Tree)
    → (write_leaf leaf content es t).0 ≡ ok tt
    → find leaf (write_leaf leaf content es t).1 ≡ some (file content)
unfolding write_leaf
write_leaf-read leaf content es none h = find-set_same leaf (file content) es
write_leaf-read leaf content es (some (file t)) h = find-set_same leaf (file content) es
write_leaf-read leaf content es (some (dir ds)) h = absurd (cc)
write_leaf-read leaf content es (some link) h = absurd (cc)
write_leaf-read leaf content es (some device) h = absurd (cc)
write_leaf-read leaf content es (some fifo) h = absurd (cc)

pub read_into :
    (es ds : Entries) (part leaf : Text) (parts : List Text)
    → open_dir (find part es) ≡ ok ds
    → read_from es (part ∷ leaf ∷ parts) ≡ read_from ds (leaf ∷ parts)
unfolding read_from
read_into es ds part leaf parts h = rw (read_from, h) refl

read_nowhere :
    (es : Entries) (part leaf : Text) (parts : List Text) (e : Exception)
    → open_dir (find part es) ≡ err e
    → read_from es (part ∷ leaf ∷ parts) ≡ err e
unfolding read_from
read_nowhere es part leaf parts e h = rw (read_from, h) refl

pub write_into :
    (es ds : Entries) (content part leaf : Text) (parts : List Text)
    → make_dir (find part es) ≡ ok ds
    → write_from es content (part ∷ leaf ∷ parts) ≡ (
      (write_from ds content (leaf ∷ parts)).0,
      set part (dir (write_from ds content (leaf ∷ parts)).1) es,
    )
unfolding write_from
write_into es ds content part leaf parts h = rw (write_from, h) refl

pub write_nowhere :
    (es : Entries) (content part leaf : Text) (parts : List Text) (e : Exception)
    → make_dir (find part es) ≡ err e
    → write_from es content (part ∷ leaf ∷ parts) ≡ (err e, es)
unfolding write_from
write_nowhere es content part leaf parts e h = rw (write_from, h) refl

pub write_from-read :
    (es : Entries) (content : Text) (parts : List Text)
    → (write_from es content parts).0 ≡ ok tt
    → read_from (write_from es content parts).1 parts ≡ ok (universal content)
unfolding write_from read_from read_leaf
write_from-read es content [] h = absurd (cc)
write_from-read es content (leaf ∷ []) h =
    rw (write_leaf-read leaf content es (find leaf es) h) refl
write_from-read es content (part ∷ leaf ∷ parts) h =
    elim (Outcome-cases (make_dir (find part es))) [
      | inl (ds, found) ↦
          let deeper = write_from ds content (leaf ∷ parts) in
          let step = write_into es ds content part leaf parts found in
          ap (λ w. read_from w.1 (part ∷ leaf ∷ parts)) step
          ∙ read_into (set part (dir deeper.1) es) deeper.1 part leaf parts
              (rw (find-set_same part (dir deeper.1) es) refl)
          ∙ write_from-read ds content (leaf ∷ parts) (sym (ap (λ w. w.0) step) ∙ h)
      | inr (e, failed) ↦
          absurd
            (ok_not_err (sym h ∙ ap (λ w. w.0) (write_nowhere es content part leaf parts e failed)))
    ]

-- A leaf is written where a file was, or where nothing was.
pub write_leaf-find :
    (leaf content other : Text) (es : Entries) (t : Option Tree)
    → text_eq leaf other ≡ false
    → find other (write_leaf leaf content es t).1 ≡ find other es
unfolding write_leaf
write_leaf-find leaf content other es none h = rw (find-set other leaf (file content) es, h) refl
write_leaf-find leaf content other es (some (file t)) h =
    rw (find-set other leaf (file content) es, h) refl
write_leaf-find leaf content other es (some (dir ds)) h = refl
write_leaf-find leaf content other es (some link) h = refl
write_leaf-find leaf content other es (some device) h = refl
write_leaf-find leaf content other es (some fifo) h = refl

pub write_leaf-dir :
    (leaf content : Text) (es ds : Entries) (t : Option Tree)
    → open_dir t ≡ ok ds
    → (write_leaf leaf content es t).1 ≡ es
unfolding write_leaf
write_leaf-dir leaf content es ds none h = absurd (cc)
write_leaf-dir leaf content es ds (some (file t)) h = absurd (cc)
write_leaf-dir leaf content es ds (some (dir ds')) h = refl
write_leaf-dir leaf content es ds (some link) h = refl
write_leaf-dir leaf content es ds (some device) h = refl
write_leaf-dir leaf content es ds (some fifo) h = refl

pub make_dir-read :
    (t : Option Tree) (ds : Entries) {text : Text} → make_dir t ≡ ok ds → read_leaf t ≡ ok text → ⊥
unfolding read_leaf
make_dir-read none ds h r = absurd (cc)
make_dir-read (some (file t)) ds h r = absurd (cc)
make_dir-read (some (dir x)) ds h r = absurd (cc)
make_dir-read (some link) ds h r = absurd (cc)
make_dir-read (some device) ds h r = absurd (cc)
make_dir-read (some fifo) ds h r = absurd (cc)

pub make_dir-open :
    (t : Option Tree) (ds xs : Entries) → make_dir t ≡ ok ds → open_dir t ≡ ok xs → ds ≡ xs
make_dir-open none ds xs h o = absurd (cc)
make_dir-open (some t) ds xs h o = ok-injective (sym h ∙ o)

-- What has been read is an entry at the first name, which is a directory if names follow.
pub read-opened :
    (es : Entries) (part leaf : Text) (parts : List Text) (text : Text)
    → read_from es (part ∷ leaf ∷ parts) ≡ ok text
    → (ds : Entries) × (open_dir (find part es) ≡ ok ds) × (read_from ds (leaf ∷ parts) ≡ ok text)
unfolding read_from
read-opened es part leaf parts text h = elim (Outcome-cases (open_dir (find part es))) [
  | inl (ds, found) ↦ (ds, found, sym (read_into es ds part leaf parts found) ∙ h)
  | inr (e, failed) ↦ absurd (ok_not_err (sym h ∙ read_nowhere es part leaf parts e failed))
]

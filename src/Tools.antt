-- ===== src/Tools.antt =====
-- src/openmuse/tools.py: the paths that a tool may use, and the file tools on POSIX. A workspace is a
-- tree whose files hold text, which is valid UTF-8; a link is never followed, so its target is left
-- out. The tree changes by these calls only, and the limits of the system are left out.
pub mod Fetch
pub mod Paths
pub mod Steps
pub mod Files
pub mod Reach
pub mod Replies
mod Tests
use openmuse.Common.{
  ℕ, String, codes, Text, text_eq, split, Bool, true, false, not, ◌&&◌, ◌||◌, Option, none, some,
  List, [], ◌∷◌, ◌++◌, eqb, if◌then◌else◌, any, is_nothing, Outcome, ok, err, Exception,
  value_error, os_error, ◌>>=◌, ◌>>◌, raise_if,
}

-- `part in {"", ".", ".."}`
abbrev pub is_special : Text → Bool
is_special part = text_eq part [] || text_eq part (46 ∷ []) || text_eq part (46 ∷ 46 ∷ [])

abbrev pub is_absolute : Text → Bool
is_absolute [] = false
is_absolute (c ∷ s) = eqb c 47

-- `_components`
unfoldable pub components : Text → Outcome (List Text)
components raw = do
  raise_if (is_absolute raw || is_nothing raw || any (λ c. eqb c 0) raw)
      (value_error "path escapes workspace")
  raise_if (any is_special (split 47 raw)) (value_error "path escapes workspace")
  ok (split 47 raw)

mutual
  pub data Tree : Type 0 where
    file : Text → Tree
    dir : Entries → Tree
    link device fifo : Tree

  pub data Entries : Type 0 where
    end : Entries
    entry : Text → Tree → Entries → Entries

unfoldable pub find : Text → Entries → Option Tree
find name end = none
find name (entry other t es) = if text_eq other name then some t else find name es

unfoldable pub set : Text → Tree → Entries → Entries
set name t end = entry name t end
set name t (entry other x es) =
    if text_eq other name then entry other t es else entry other x (set name t es)

-- What a text handle returns of a file: `\r\n` and `\r` are read as `\n`.
unfoldable pub universal : Text → Text
universal [] = []
universal (c ∷ []) = (if eqb c 13 then 10 else c) ∷ []
universal (c ∷ d ∷ s) =
    let rest = universal (d ∷ s) in
    if eqb c 13 then (if eqb d 10 then rest else 10 ∷ rest) else c ∷ rest

abbrev pub no_entry : Exception
no_entry = os_error "No such file or directory"

-- The leaf, opened without following a link and without waiting.
unfoldable pub read_leaf : Option Tree → Outcome Text
read_leaf none = err no_entry
read_leaf (some (Tree.file t)) = ok (universal t)
read_leaf (some (Tree.dir es)) = err (os_error "Is a directory")
read_leaf (some Tree.link) = err (os_error "Too many levels of symbolic links")
read_leaf (some Tree.device) = err (value_error "not a regular file")
read_leaf (some Tree.fifo) = err (value_error "not a regular file")

-- A child opened as a directory, without following a link.
abbrev pub open_dir : Option Tree → Outcome Entries
open_dir none = err no_entry
open_dir (some (Tree.file t)) = err (os_error "Not a directory")
open_dir (some (Tree.dir es)) = ok es
open_dir (some Tree.link) = err (os_error "Not a directory")
open_dir (some Tree.device) = err (os_error "Not a directory")
open_dir (some Tree.fifo) = err (os_error "Not a directory")

-- `_parent_fd` and the rest of `ReadFile.run`, from one directory on
unfoldable pub read_from : Entries → List Text → Outcome Text
read_from es [] = err no_entry
read_from es (leaf ∷ []) = read_leaf (find leaf es)
read_from es (part ∷ leaf ∷ parts) = elim (open_dir (find part es)) [
  | err e ↦ err e
  | ok ds ↦ read_from ds (leaf ∷ parts)
]

unfoldable pub read_file : Entries → Text → Outcome Text
read_file workspace path = do parts ← components path; read_from workspace parts

unfoldable pub write_leaf : Text → Text → Entries → Option Tree → Outcome (Unit {0}) × Entries
write_leaf leaf content es none = (ok tt, set leaf (Tree.file content) es)
write_leaf leaf content es (some (Tree.file t)) = (ok tt, set leaf (Tree.file content) es)
write_leaf leaf content es (some (Tree.dir ds)) = (err (os_error "Is a directory"), es)
write_leaf leaf content es (some Tree.link) =
    (err (os_error "Too many levels of symbolic links"), es)
write_leaf leaf content es (some Tree.device) = (err (value_error "not a regular file"), es)
write_leaf leaf content es (some Tree.fifo) = (err (os_error "No such device or address"), es)

-- `os.mkdir`, then the child opened: a child that is there is opened as it is.
abbrev pub make_dir : Option Tree → Outcome Entries
make_dir none = ok Entries.end
make_dir (some t) = open_dir (some t)

-- `_parent_fd` with `create`, and the rest of `WriteFile.run`: a directory that is made stays where a
-- later step fails.
unfoldable pub write_from : Entries → Text → List Text → Outcome (Unit {0}) × Entries
write_from es content [] = (err no_entry, es)
write_from es content (leaf ∷ []) = write_leaf leaf content es (find leaf es)
write_from es content (part ∷ leaf ∷ parts) = elim (make_dir (find part es)) [
  | err e ↦ (err e, es)
  | ok ds ↦ let (o, ds') = write_from ds content (leaf ∷ parts) in (o, set part (Tree.dir ds') es)
]

abbrev pub write_parts : Entries → Text → Text → Outcome (List Text) → Outcome Text × Entries
write_parts workspace path content (err e) = (err e, workspace)
write_parts workspace path content (ok parts) =
    let (o, after) = write_from workspace content parts in
    (o >>= λ u. ok (codes "wrote " ++ path), after)

-- `WriteFile.run`
unfoldable pub write_file : Entries → Text → Text → Outcome Text × Entries
write_file workspace path content = write_parts workspace path content (components path)

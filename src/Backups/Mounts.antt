-- ===== src/Backups/Mounts.antt =====
-- src/bioseasy/mountinfo.py: where the backup root lives. A text is its code points; Python's
-- `str.split()` and `posixpath.normpath` are parameters, and the lines are those of `splitlines()`.
pub mod Longest
use bioseasy.Prelude.{
  ℕ, zero, suc, ◌+◌, ◌-◌, ◌*◌, ◌/◌, ◌%◌, ◌^◌, ◌≤◌, ◌<◌, String, ◌≡◌, refl, sym, ap, ◌∙◌, subst, ◌≢◌,
  ◌↔◌, ◌⊎◌, inl, inr, Bool, true, false, not, ◌&&◌, ◌||◌, Option, none, some, List, [], ◌∷◌, ◌++◌,
  map, arith, str_eq, eq_iff, ltb, leb, ◌==◌, if◌then◌else◌, ltb→lt, leb→le, lt→ltb, le→leb,
  Bool-cases, Option-cases, is_none, List-cases, length, length-append, All,
}

abbrev pub Text : Type 0
Text = List ℕ

pub record Paths : Type 0 where
  pub fields : Text → List Text
  pub normpath : Text → Text

pub record Mount : Type 0 where
  pub mount_point : Text
  pub fstype : Text
  pub source : Text
  pub root : Text

abbrev pub slash : Text
slash = 47 ∷ []

unfoldable pub text_eq : Text → Text → Bool
text_eq [] [] = true
text_eq [] (d ∷ ds) = false
text_eq (c ∷ cs) [] = false
text_eq (c ∷ cs) (d ∷ ds) = c == d && text_eq cs ds

unfoldable pub starts_with : Text → Text → Bool
starts_with cs [] = true
starts_with [] (d ∷ ds) = false
starts_with (c ∷ cs) (d ∷ ds) = c == d && starts_with cs ds

abbrev pub is_slash : ℕ → Bool
is_slash c = c == 47

-- `rstrip("/")`
unfoldable pub strip_slashes : Text → Text
strip_slashes [] = []
strip_slashes (c ∷ cs) =
    let rest = strip_slashes cs in
    elim rest [ [] ↦ if is_slash c then [] else c ∷ [] | d ∷ ds ↦ c ∷ d ∷ ds ]

-- `partition(" - ")`: what stands before and after the first separator.
unfoldable pub partition : Text → Option (Text × Text)
partition [] = none
partition (c ∷ cs) =
    let later = partition cs in
    if starts_with (c ∷ cs) (32 ∷ 45 ∷ 32 ∷ [])
    then some ([], drop_two cs)
    else elim later [ none ↦ none | some (left, right) ↦ some (c ∷ left, right) ]
  where
    drop_two : Text → Text
    drop_two (a ∷ b ∷ rest) = rest
    drop_two _ = []

unfoldable pub mount_of : Paths → List Text → List Text → Option Mount
mount_of p (i ∷ parent ∷ device ∷ root ∷ point ∷ more) (fstype ∷ source ∷ options) =
    some (record { mount_point = p.normpath point; fstype = fstype; source = source; root = root })
mount_of p _ _ = none

unfoldable pub parse_line : Paths → Text → Option Mount
unfolding partition mount_of
parse_line p line = elim (partition line) [
  | none ↦ none
  | some (left, right) ↦ mount_of p (p.fields left) (p.fields right)
]

unfoldable pub covers : Text → Text → Bool
unfolding text_eq starts_with strip_slashes
covers target point =
    text_eq target point
    || (text_eq point slash || starts_with target (strip_slashes point ++ slash))

-- The mount of a line, if the line names one that covers the path.
unfoldable pub candidate : Paths → Text → Text → Option Mount
candidate p target line = elim (p.fields line) [
  | [] ↦ none
  | f ∷ fs ↦ elim (parse_line p line) [
    | none ↦ none
    | some m ↦ if covers target m.mount_point then some m else none
  ]
]

unfoldable pub better : Option Mount → Option Mount → Option Mount
better best none = best
better none (some m) = some m
better (some b) (some m) =
    if ltb (length b.mount_point) (length m.mount_point) then some m else some b

-- The `for` loop over the lines.
unfoldable pub best_mount : Paths → Text → Option Mount → List Text → Option Mount
unfolding candidate better
best_mount p target best [] = best
best_mount p target best (line ∷ rest) =
    best_mount p target (better best (candidate p target line)) rest

unfoldable pub find_mount : Paths → List Text → Text → Option Mount
find_mount p lines path = best_mount p (p.normpath path) none lines

pub data Place : Type 0 where
  nfs_share smb_share local_disk : Mount → Place
  container_filesystem host_bind_mount : Mount → Place

abbrev pub one_of : Text → List Text → Bool
one_of t [] = false
one_of t (x ∷ xs) = text_eq t x || one_of t xs

-- "nfs" and "nfs4", "cifs" and "smb3".
abbrev pub nfs_fstypes : List Text
nfs_fstypes = (110 ∷ 102 ∷ 115 ∷ []) ∷ (110 ∷ 102 ∷ 115 ∷ 52 ∷ []) ∷ []

abbrev pub smb_fstypes : List Text
smb_fstypes = (99 ∷ 105 ∷ 102 ∷ 115 ∷ []) ∷ (115 ∷ 109 ∷ 98 ∷ 51 ∷ []) ∷ []

-- The sentence, by its case, and whether it is a warning.
unfoldable pub describe : Mount → Place × Bool
describe m =
    if one_of m.fstype nfs_fstypes
    then (nfs_share m, false)
    else if one_of m.fstype smb_fstypes
    then (smb_share m, false)
    else if text_eq m.mount_point slash
    then (container_filesystem m, true)
    else if text_eq m.root slash
    then (local_disk m, false)
    else (host_bind_mount m, false)

unfoldable pub backup_root_mount : Paths → Option (List Text) → Text → Option (Place × Bool)
backup_root_mount p none path = none
backup_root_mount p (some lines) path = elim (find_mount p lines path) [
  | none ↦ none
  | some m ↦ some (describe m)
]

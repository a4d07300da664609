-- ===== src/Backups/Inventory.antt =====
-- `read_backup` of src/bioseasy/inventory.py: whether a backup directory holds a finished backup. What
-- plistlib reads is a parameter: a file is missing, unreadable, no dictionary, or a dictionary of which
-- the keys that the code asks for are given.
pub mod Finished
use bioseasy.Prelude.{
  ℕ, zero, suc, ◌+◌, ◌-◌, ◌*◌, ◌/◌, ◌%◌, ◌^◌, ◌≤◌, ◌<◌, String, ◌≡◌, refl, sym, ap, ◌∙◌, subst, ◌≢◌,
  ◌↔◌, ◌⊎◌, inl, inr, Bool, true, false, not, ◌&&◌, ◌||◌, Option, none, some, List, [], ◌∷◌, ◌++◌,
  map, arith, str_eq, eq_iff, ltb, leb, ◌==◌, if◌then◌else◌, ltb→lt, leb→le, lt→ltb, le→leb,
  Bool-cases, Option-cases, is_none, List-cases, length, length-append, All,
}

pub data Plist {ℓ} (A : Type ℓ) : Type ℓ where
  missing unreadable no_dictionary : Plist A
  dictionary : A → Plist A

pub data File : Type 0 where
  info_plist manifest_plist status_plist : File

-- A problem, by what its text names.
pub data Problem : Type 0 where
  plist_missing plist_unreadable plist_no_dictionary : File → Problem
  snapshot_state : Option String → Problem
  manifest_db_empty manifest_db_not_sqlite : Problem
  udid_mismatch : String → Problem

pub record InfoPlist : Type 0 where
  pub unique_identifier : Option String
  pub target_identifier : Option String

-- A value under IsEncrypted: a Boolean, or one of another type, which is not `False`.
pub data Flag : Type 0 where
  flag : Bool → Flag
  not_boolean : Flag

pub record ManifestPlist : Type 0 where
  pub is_encrypted : Option Flag

-- `is_empty` is a dictionary without keys, which Python takes for false.
pub record StatusPlist : Type 0 where
  pub is_empty : Bool
  pub snapshot_state_key : Option String

-- `name` is the directory's, and `lower` is str.lower.
pub record Directory : Type 0 where
  pub name : String
  pub info : Plist InfoPlist
  pub manifest : Plist ManifestPlist
  pub status : Plist StatusPlist
  pub db_nonempty : Bool
  pub db_is_sqlite : Bool

unfoldable pub load_plist {ℓ} : {A : Type ℓ} → File → Plist A → List Problem
load_plist f missing = plist_missing f ∷ []
load_plist f unreadable = plist_unreadable f ∷ []
load_plist f no_dictionary = plist_no_dictionary f ∷ []
load_plist f (dictionary d) = []

abbrev pub is_finished : Option String → Bool
is_finished none = false
is_finished (some s) = str_eq s "finished"

-- `if status and state != "finished"`
unfoldable pub state_problem : Plist StatusPlist → List Problem
state_problem (dictionary s) =
    if not s.is_empty && not (is_finished s.snapshot_state_key)
    then snapshot_state s.snapshot_state_key ∷ []
    else []
state_problem _ = []

-- `encrypted is False`
abbrev pub is_unencrypted : Plist ManifestPlist → Bool
is_unencrypted (dictionary m) = elim m.is_encrypted [
  | none ↦ false
  | some f ↦ elim f [ flag b ↦ not b | not_boolean ↦ false ]
]
is_unencrypted _ = false

unfoldable pub db_problem : Directory → List Problem
db_problem d =
    if not d.db_nonempty
    then manifest_db_empty ∷ []
    else if is_unencrypted d.manifest && not d.db_is_sqlite
    then manifest_db_not_sqlite ∷ []
    else []

abbrev pub or_else : Option String → String → String
or_else none s = s
or_else (some t) s = if str_eq t "" then s else t

unfoldable pub udid_of : Directory → String
udid_of d = elim d.info [
  | dictionary i ↦ or_else i.unique_identifier (or_else i.target_identifier d.name)
  | _ ↦ d.name
]

unfoldable pub udid_problem : (String → String) → Directory → List Problem
unfolding udid_of
udid_problem lower d =
    if str_eq (lower (udid_of d)) (lower d.name) then [] else udid_mismatch (udid_of d) ∷ []

-- The problems that `read_backup` collects, in its order.
unfoldable pub problems : (String → String) → Directory → List Problem
unfolding load_plist state_problem db_problem udid_problem
problems lower d =
    load_plist info_plist d.info
    ++ (load_plist manifest_plist d.manifest
        ++ (load_plist status_plist d.status
            ++ (state_problem d.status ++ (db_problem d ++ udid_problem lower d))))

-- `BackupInfo.complete`
unfoldable pub complete : (String → String) → Directory → Bool
unfolding problems
complete lower d = elim (problems lower d) [ [] ↦ true | p ∷ ps ↦ false ]

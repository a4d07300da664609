-- ===== src/Backups/Inventory/Finished.antt =====
-- When src/bioseasy/inventory.py takes a backup for complete.
use bioseasy.Prelude.{
  String, ◌≡◌, refl, sym, ap, ◌∙◌, ◌↔◌, ◌⊎◌, true, Option, none, some, List, [], ◌∷◌, ◌++◌, arith,
  eq_iff,
}
use bioseasy.Backups.Inventory.{
  Plist, missing, unreadable, no_dictionary, dictionary, InfoPlist, ManifestPlist, StatusPlist,
  Directory, load_plist, is_finished, state_problem, is_unencrypted, db_problem, udid_of,
  udid_problem, problems, complete,
}

-- The three files are dictionaries, of which the status is empty or finished; Manifest.db is there,
-- and an SQLite file unless the backup is or may be encrypted; the device is the directory's.
abbrev pub IsFinished : (String → String) → Directory → Type 0
IsFinished lower d =
    ((i : InfoPlist) × (d.info ≡ dictionary i))
    × ((m : ManifestPlist) × (d.manifest ≡ dictionary m))
    × ((s : StatusPlist) × (d.status ≡ dictionary s)
        × ((s.is_empty ≡ true) ⊎ (s.snapshot_state_key ≡ some "finished")))
    × (d.db_nonempty ≡ true)
    × ((is_unencrypted d.manifest ≡ true) → d.db_is_sqlite ≡ true)
    × (lower (udid_of d) ≡ lower d.name)

nil_of_append : {A : Type 0} (xs ys : List A) → xs ++ ys ≡ [] → (xs ≡ []) × (ys ≡ [])
nil_of_append [] ys e = (refl, e)
nil_of_append (x ∷ xs) ys e = ground arith

load_plist-nil :
    {A : Type 0} (f : _) (p : Plist A) → load_plist f p ≡ [] → (a : A) × (p ≡ dictionary a)
unfolding load_plist
load_plist-nil f missing e = ground arith
load_plist-nil f unreadable e = ground arith
load_plist-nil f no_dictionary e = ground arith
load_plist-nil f (dictionary a) e = (a, refl)

finished_key : (o : Option String) → is_finished o ≡ true → o ≡ some "finished"
finished_key none e = ground arith
finished_key (some s) e = ground (arith, eq_iff s "finished")

state_problem-nil :
    (p : Plist StatusPlist) (s : StatusPlist)
    → p ≡ dictionary s
    → state_problem p ≡ []
    → (s.is_empty ≡ true) ⊎ (s.snapshot_state_key ≡ some "finished")
unfolding state_problem
state_problem-nil p s e none_found =
    let found : state_problem (dictionary s) ≡ [] = ap state_problem (sym e) ∙ none_found in
    ground (arith, finished_key s.snapshot_state_key)

db_problem-nil :
    (d : Directory)
    → db_problem d ≡ []
    → (d.db_nonempty ≡ true) × ((is_unencrypted d.manifest ≡ true) → d.db_is_sqlite ≡ true)
unfolding db_problem
db_problem-nil d e = (ground arith, λ u. ground (arith, u))

udid_problem-nil :
    (lower : String → String) (d : Directory)
    → udid_problem lower d ≡ []
    → lower (udid_of d) ≡ lower d.name
unfolding udid_problem
udid_problem-nil lower d e = ground (arith, eq_iff (lower (udid_of d)) (lower d.name))

problems_of_complete :
    (lower : String → String) (d : Directory) → complete lower d ≡ true → problems lower d ≡ []
unfolding complete
problems_of_complete lower d e = ground arith

IsFinished-of_complete :
    (lower : String → String) (d : Directory) → complete lower d ≡ true → IsFinished lower d
unfolding problems
IsFinished-of_complete lower d e =
    let (a, rest_a) = nil_of_append (load_plist _ d.info) _ (problems_of_complete lower d e) in
    let (b, rest_b) = nil_of_append (load_plist _ d.manifest) _ rest_a in
    let (c, rest_c) = nil_of_append (load_plist _ d.status) _ rest_b in
    let (p, rest_p) = nil_of_append (state_problem d.status) _ rest_c in
    let (q, u) = nil_of_append (db_problem d) _ rest_p in
    let (s, is_s) = load_plist-nil _ d.status c in
    (
      load_plist-nil _ d.info a,
      load_plist-nil _ d.manifest b,
      (s, is_s, state_problem-nil d.status s is_s p),
      (db_problem-nil d q).0,
      (db_problem-nil d q).1,
      udid_problem-nil lower d u,
    )

complete_of_finished :
    (lower : String → String) (d : Directory) → IsFinished lower d → complete lower d ≡ true
unfolding complete problems load_plist state_problem db_problem udid_problem
complete_of_finished lower d ((i, is_i), (m, is_m), (s, is_s, done), nonempty, sqlite, same) =
    ground (arith, eq_iff (lower (udid_of d)) (lower d.name), sqlite)

-- A backup counts as complete exactly when its three property lists are dictionaries, the status is
-- either empty or says that the snapshot is finished, Manifest.db is not empty and, where the manifest
-- says that the backup is not encrypted, an SQLite file, and the device's id is the directory's name,
-- up to case.
pub complete_iff :
    (lower : String → String) (d : Directory) → (complete lower d ≡ true) ↔ IsFinished lower d
complete_iff lower d = (IsFinished-of_complete lower d, complete_of_finished lower d)

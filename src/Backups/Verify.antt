-- ===== src/Backups/Verify.antt =====
-- src/bioseasy/verify.py: does every file that Manifest.db lists exist? What the disk and SQLite answer
-- is a record; `detail` is given by its parts.
pub mod Report
pub mod Results
use bioseasy.Prelude.{
  ℕ, zero, suc, ◌+◌, ◌-◌, ◌*◌, ◌/◌, ◌%◌, ◌^◌, ◌≤◌, ◌<◌, String, ◌≡◌, refl, sym, ap, ◌∙◌, subst, ◌≢◌,
  ◌↔◌, ◌⊎◌, inl, inr, Bool, true, false, not, ◌&&◌, ◌||◌, Option, none, some, List, [], ◌∷◌, ◌++◌,
  map, arith, str_eq, eq_iff, ltb, leb, ◌==◌, if◌then◌else◌, ltb→lt, leb→le, lt→ltb, le→leb,
  Bool-cases, Option-cases, is_none, List-cases, length, length-append, All,
}

pub data Outcome : Type 0 where
  verified missing_files not_checked : Outcome

pub data Detail : Type 0 where
  no_detail manifest_unreadable db_empty : Detail
  encrypted : Bool → Bool → Bool → ℕ → Detail
  db_unreadable : String → Detail
  stopped_after : ℕ → Option ℕ → ℕ → Detail

pub record VerifyResult : Type 0 where
  pub outcome : Outcome
  pub listed : ℕ
  pub present : ℕ
  pub missing : ℕ
  pub missing_fileids : List String
  pub detail : Detail

-- A row of Files: the clock when the loop reads it, and whether its payload is a file.
pub record Row : Type 0 where
  pub file_id : String
  pub flags : Option ℕ
  pub is_file : Bool
  pub monotonic : ℕ

-- `manifest` is the IsEncrypted of a readable Manifest.plist; `database_error` is the class of the
-- error that the cursor ends with, after its rows.
pub record Disk : Type 0 where
  pub manifest : Option Bool
  pub db_nonempty : Bool
  pub info_is_file : Bool
  pub status_is_file : Bool
  pub payload_file_count : ℕ
  pub total_row_count : Option ℕ
  pub rows : List Row
  pub database_error : Option String

abbrev pub max_missing_examples : ℕ
max_missing_examples = 20

abbrev pub directory_flag : ℕ
directory_flag = 2

pub record Walk : Type 0 where
  pub listed : ℕ
  pub present : ℕ
  pub missing : ℕ
  pub missing_ids : List String
  pub stopped_early : Bool

abbrev pub is_directory : Row → Bool
is_directory r = elim r.flags [ none ↦ false | some f ↦ f == directory_flag ]

abbrev pub is_past : Option ℕ → ℕ → Bool
is_past none now = false
is_past (some deadline) now = leb deadline now

unfoldable pub check_row : Row → Walk → Walk
check_row r w =
    if is_directory r
    then w
    else if r.is_file
    then record w { listed = suc w.listed; present = suc w.present }
    else record w {
      listed = suc w.listed;
      missing = suc w.missing;
      missing_ids =
          if ltb (length w.missing_ids) max_missing_examples
          then w.missing_ids ++ r.file_id ∷ []
          else w.missing_ids;
    }

-- The `for` loop over the cursor.
unfoldable pub walk : Option ℕ → List Row → Walk → Walk
walk deadline [] w = w
walk deadline (r ∷ rest) w =
    let further = walk deadline rest (check_row r w) in
    if is_past deadline r.monotonic then record w { stopped_early = true } else further

abbrev pub start_walk : Walk
start_walk = record {
  listed = 0;
  present = 0;
  missing = 0;
  missing_ids = [];
  stopped_early = false;
}

abbrev pub unchecked : Detail → VerifyResult
unchecked d = record {
  outcome = not_checked;
  listed = 0;
  present = 0;
  missing = 0;
  missing_fileids = [];
  detail = d;
}

unfoldable pub conclude : Option ℕ → Walk → VerifyResult
conclude total w =
    if w.stopped_early
    then record {
      outcome = if w.missing == 0 then not_checked else missing_files;
      listed = w.listed;
      present = w.present;
      missing = w.missing;
      missing_fileids = w.missing_ids;
      detail = stopped_after (w.present + w.missing) total w.missing;
    }
    else record {
      outcome = if w.missing == 0 then verified else missing_files;
      listed = w.listed;
      present = w.present;
      missing = w.missing;
      missing_fileids = w.missing_ids;
      detail = no_detail;
    }

-- The cursor's error counts only where the loop reads on to it.
unfoldable pub read_rows : Option String → Option ℕ → Walk → VerifyResult
unfolding conclude
read_rows none total w = conclude total w
read_rows (some error) total w =
    if w.stopped_early then conclude total w else unchecked (db_unreadable error)

verify_manifest : Disk → Option ℕ → Option Bool → VerifyResult
verify_manifest disk deadline none = unchecked manifest_unreadable
verify_manifest disk deadline (some true) =
    unchecked
      (encrypted disk.info_is_file disk.status_is_file disk.db_nonempty disk.payload_file_count)
verify_manifest disk deadline (some false) =
    if not disk.db_nonempty
    then unchecked db_empty
    else read_rows disk.database_error disk.total_row_count (walk deadline disk.rows start_walk)

unfoldable pub verify_snapshot : Disk → Option ℕ → VerifyResult
unfolding verify_manifest
verify_snapshot disk deadline = verify_manifest disk deadline disk.manifest

-- The table of results: udid, name, result and time of the check.
pub record Verification : Type 0 where
  pub udid : String
  pub snapshot_name : String
  pub result : VerifyResult
  pub checked_at : ℕ

abbrev pub is_of : String → String → Verification → Bool
is_of udid name v = str_eq v.udid udid && str_eq v.snapshot_name name

-- INSERT … ON CONFLICT(udid, snapshot_name) DO UPDATE
unfoldable pub save_result :
    List Verification → String → String → VerifyResult → ℕ → List Verification
save_result [] udid name result now =
    record { udid = udid; snapshot_name = name; result = result; checked_at = now } ∷ []
save_result (v ∷ rest) udid name result now =
    if is_of udid name v
    then record v { result = result; checked_at = now } ∷ rest
    else v ∷ save_result rest udid name result now

unfoldable pub delete_result : List Verification → String → String → List Verification
delete_result [] udid name = []
delete_result (v ∷ rest) udid name =
    let others = delete_result rest udid name in if is_of udid name v then others else v ∷ others

unfoldable pub delete_results : List Verification → String → List String → List Verification
unfolding delete_result
delete_results table udid [] = table
delete_results table udid (name ∷ names) = delete_results (delete_result table udid name) udid names

-- `load_results(conn, udid).get(name)`
unfoldable pub load_result : List Verification → String → String → Option Verification
load_result [] udid name = none
load_result (v ∷ rest) udid name = if is_of udid name v then some v else load_result rest udid name

-- The newest check of the device.
unfoldable pub last_checked_at : List Verification → String → Option ℕ
last_checked_at [] udid = none
last_checked_at (v ∷ rest) udid = elim (last_checked_at rest udid) [
  | none ↦ if str_eq v.udid udid then some v.checked_at else none
  | some t ↦ if str_eq v.udid udid && ltb t v.checked_at then some v.checked_at else some t
]

-- A generation, and the time of its last check: the key sorts those without one first.
pub record Candidate : Type 0 where
  pub name : String
  pub taken_at : ℕ
  pub checked_at : Option ℕ

abbrev pub precedes : Candidate → Candidate → Bool
precedes a b = elim a.checked_at [
  | none ↦ elim b.checked_at [ none ↦ ltb a.taken_at b.taken_at | some t ↦ true ]
  | some s ↦ elim b.checked_at [ none ↦ false | some t ↦ ltb s t ]
]

-- `min(snaps, key=key)`: of several least ones, the first.
unfoldable pub pick_from : Candidate → List Candidate → Candidate
pick_from best [] = best
pick_from best (c ∷ rest) = pick_from (if precedes c best then c else best) rest

unfoldable pub pick_snapshot : List Candidate → Option Candidate
unfolding pick_from
pick_snapshot [] = none
pick_snapshot (c ∷ rest) = some (pick_from c rest)

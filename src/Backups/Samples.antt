-- ===== src/Backups/Samples.antt =====
-- Concrete backups for src/bioseasy/verify.py and inventory.py.
use bioseasy.Prelude.{◌≡◌, ◌↔◌, true, false, none, some, List, [], ◌∷◌, length}
use bioseasy.Backups.Verify.{verified, Row, Disk, start_walk, walk, verify_snapshot}
use bioseasy.Backups.Verify.Report.{IsWhole, walk-report, verify_snapshot-verified_iff}
use bioseasy.Backups.Inventory.{Directory, dictionary, flag, complete}
use bioseasy.Backups.Inventory.Finished.{IsFinished, complete_iff}

abbrev folder : Row
folder = record { file_id = "d0"; flags = some 2; is_file = false; monotonic = 1 }

abbrev photo : Row
photo = record { file_id = "a1"; flags = some 1; is_file = true; monotonic = 2 }

abbrev lost : Row
lost = record { file_id = "b2"; flags = none; is_file = false; monotonic = 3 }

abbrev plain : List Row → Disk
plain rows = record {
  manifest = some false;
  db_nonempty = true;
  info_is_file = true;
  status_is_file = true;
  payload_file_count = 1;
  total_row_count = some (length rows);
  rows = rows;
  database_error = none;
}

walk-report_example : walk (some 9) (folder ∷ photo ∷ lost ∷ []) start_walk ≡ record {
  listed = 2;
  present = 1;
  missing = 1;
  missing_ids = "b2" ∷ [];
  stopped_early = false;
}
walk-report_example = walk-report (some 9) (folder ∷ photo ∷ lost ∷ [])

verify_snapshot-verified_iff_example :
    ((verify_snapshot (plain (folder ∷ photo ∷ [])) (some 9)).outcome ≡ verified)
    ↔ IsWhole (plain (folder ∷ photo ∷ [])) (some 9)
verify_snapshot-verified_iff_example =
    verify_snapshot-verified_iff (plain (folder ∷ photo ∷ [])) (some 9)

abbrev backup : Directory
backup = record {
  name = "phone";
  info = dictionary (record { unique_identifier = some "phone"; target_identifier = none });
  manifest = dictionary (record { is_encrypted = some (flag true) });
  status = dictionary (record { is_empty = false; snapshot_state_key = some "finished" });
  db_nonempty = true;
  db_is_sqlite = false;
}

complete_iff_example : (complete (λ s. s) backup ≡ true) ↔ IsFinished (λ s. s) backup
complete_iff_example = complete_iff (λ s. s) backup

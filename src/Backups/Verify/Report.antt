-- ===== src/Backups/Verify/Report.antt =====
-- What the results of src/bioseasy/verify.py say of the disk.
use bioseasy.Prelude.{
  ℕ, zero, suc, ◌+◌, ◌-◌, ◌≤◌, ◌<◌, String, ◌≡◌, refl, sym, ap, ◌∙◌, ◌≢◌, ◌↔◌, Bool, true, false,
  Option, none, some, List, [], ◌∷◌, ◌++◌, arith, ltb, if◌then◌else◌, length, length-append,
}
use bioseasy.Backups.Verify.{
  verified, missing_files, Row, Disk, Walk, is_directory, is_past, check_row, walk, start_walk,
  conclude, read_rows, verify_manifest, verify_snapshot,
}

-- The rows that the loop reads before the deadline.
abbrev pub read_before : Option ℕ → List Row → List Row
read_before deadline [] = []
read_before deadline (r ∷ rest) =
    let further = read_before deadline rest in
    if is_past deadline r.monotonic then [] else r ∷ further

abbrev pub payload : List Row → List Row
payload [] = []
payload (r ∷ rest) = let others = payload rest in if is_directory r then others else r ∷ others

abbrev pub absent : List Row → List String
absent [] = []
absent (r ∷ rest) = let others = absent rest in if r.is_file then others else r.file_id ∷ others

abbrev pub on_disk : List Row → ℕ
on_disk [] = 0
on_disk (r ∷ rest) = let n = on_disk rest in if r.is_file then suc n else n

abbrev pub take : ℕ → List String → List String
take zero xs = []
take (suc n) [] = []
take (suc n) (x ∷ xs) = x ∷ take n xs

abbrev pub report : List Row → Bool → Walk → Walk
report rows stopped w = record {
  listed = w.listed + length (payload rows);
  present = w.present + on_disk (payload rows);
  missing = w.missing + length (absent (payload rows));
  missing_ids = w.missing_ids ++ take (20 - length w.missing_ids) (absent (payload rows));
  stopped_early = stopped;
}

abbrev pub is_stopped : Option ℕ → List Row → Bool
is_stopped deadline [] = false
is_stopped deadline (r ∷ rest) =
    let later = is_stopped deadline rest in if is_past deadline r.monotonic then true else later

append_assoc :
    (xs : List String) (y : String) (ys : List String) → (xs ++ y ∷ []) ++ ys ≡ xs ++ y ∷ ys
append_assoc [] y ys = refl
append_assoc (x ∷ xs) y ys = ap (λ zs. x ∷ zs) (append_assoc xs y ys)

append-nil : (xs : List String) → xs ++ [] ≡ xs
append-nil [] = refl
append-nil (x ∷ xs) = ap (λ zs. x ∷ zs) (append-nil xs)

take-one :
    (n m : ℕ) (x : String) (xs : List String)
    → m ≡ suc n
    → n < 20
    → x ∷ take (20 - m) xs ≡ take (20 - n) (x ∷ xs)
take-one n m x xs e below = ap (λ k. take k (x ∷ xs)) (sym (counted e)) ∙ refl
  where
    counted : m ≡ suc n → 20 - n ≡ suc (20 - m)
    counted e = ground (arith, below)

take-room :
    (ids : List String) (x : String) (xs : List String)
    → ltb (length ids) 20 ≡ true
    → (ids ++ x ∷ []) ++ take (20 - length (ids ++ x ∷ [])) xs
      ≡ ids ++ take (20 - length ids) (x ∷ xs)
take-room ids x xs room =
    append_assoc ids x (take (20 - length (ids ++ x ∷ [])) xs)
    ∙ ap (λ zs. ids ++ zs)
        (take-one (length ids) (length (ids ++ x ∷ [])) x xs
          (ground (arith, length-append ids (x ∷ []))) (ground (arith, room)))

take-full : (n : ℕ) (xs : List String) → 20 ≤ n → take (20 - n) xs ≡ []
take-full n xs full = let spent : 20 - n ≡ 0 = omega arith in ap (λ k. take k xs) spent

take-nil : (n : ℕ) → take n [] ≡ []
take-nil zero = refl
take-nil (suc n) = refl

-- A row that was checked is counted first.
report-cons :
    (r : Row) (rest : List Row) (stopped : Bool) (w : Walk)
    → length w.missing_ids ≤ 20
    → report rest stopped (check_row r w) ≡ report (r ∷ rest) stopped w
unfolding check_row
report-cons r rest stopped w small = ground (
  arith,
  take-room w.missing_ids r.file_id (absent (payload rest)),
  take-full (length w.missing_ids) (absent (payload rest)),
  take-full (length w.missing_ids) (r.file_id ∷ absent (payload rest)),
)

check_row-small :
    (r : Row) (w : Walk) → length w.missing_ids ≤ 20 → length (check_row r w).missing_ids ≤ 20
unfolding check_row
check_row-small r w small = ground (arith, length-append w.missing_ids (r.file_id ∷ []))

check_row-going : (r : Row) (w : Walk) → (check_row r w).stopped_early ≡ w.stopped_early
unfolding check_row
check_row-going r w = ground arith

report-nil :
    (stopped : Bool) (w : Walk) → report [] stopped w ≡ record w { stopped_early = stopped }
report-nil stopped w =
    ground (arith, take-nil (20 - length w.missing_ids), append-nil w.missing_ids)

walk-eq-report :
    (deadline : Option ℕ) (rows : List Row) (w : Walk)
    → w.stopped_early ≡ false
    → length w.missing_ids ≤ 20
    → walk deadline rows w ≡ report (read_before deadline rows) (is_stopped deadline rows) w
unfolding walk check_row
walk-eq-report deadline [] w going small = ground (arith, report-nil false w)
walk-eq-report deadline (r ∷ rest) w going small = ground (
  arith,
  report-nil true w,
  report-cons r (read_before deadline rest) (is_stopped deadline rest) w small,
  check_row-small r w small,
  check_row-going r w,
  walk-eq-report deadline rest (check_row r w),
)

-- The loop over the files gives a result that is read off the rows before the deadline: those that are
-- no directory, as many as are files and as are not, and the names of the first twenty that are not.
pub walk-report :
    (deadline : Option ℕ) (rows : List Row)
    → let files = payload (read_before deadline rows) in
      walk deadline rows start_walk ≡ record {
        listed = length files;
        present = on_disk files;
        missing = length (absent files);
        missing_ids = take 20 (absent files);
        stopped_early = is_stopped deadline rows;
      }
walk-report deadline rows =
    walk-eq-report deadline rows start_walk refl (omega arith) ∙ ground arith

-- The files of an unencrypted generation that could be read to the end, each of which exists.
abbrev pub IsWhole : Disk → Option ℕ → Type 0
IsWhole disk deadline =
    (disk.manifest ≡ some false)
    × (disk.db_nonempty ≡ true)
    × (disk.database_error ≡ none)
    × (is_stopped deadline disk.rows ≡ false)
    × (absent (payload (read_before deadline disk.rows)) ≡ [])

-- A generation is reported as verified exactly when it is not encrypted, its Manifest.plist and
-- Manifest.db are readable, the deadline did not cut the loop short, and every listed file that is not
-- a directory exists.
pub verify_snapshot-verified_iff :
    (disk : Disk) (deadline : Option ℕ)
    → ((verify_snapshot disk deadline).outcome ≡ verified) ↔ IsWhole disk deadline
unfolding verify_snapshot verify_manifest read_rows conclude
verify_snapshot-verified_iff disk deadline = ground (arith, walk-report deadline disk.rows)

-- A generation is reported as missing files only if one of the listed files was looked for and is not
-- there, also where the deadline cut the loop short.
pub verify_snapshot-missing :
    (disk : Disk) (deadline : Option ℕ)
    → (verify_snapshot disk deadline).outcome ≡ missing_files
    → absent (payload (read_before deadline disk.rows)) ≢ []
unfolding verify_snapshot verify_manifest read_rows conclude
verify_snapshot-missing disk deadline e none_absent = ground (arith, walk-report deadline disk.rows)

-- ===== src/Jobs/Execute/Ending.antt =====
-- How a run of src/bioseasy/jobs.py ends.
use bioseasy.Prelude.{
  ℕ, String, ◌≡◌, refl, ap, ◌∙◌, subst, ◌↔◌, inl, inr, false, Option, none, some, List, [], ◌∷◌,
  arith, Option-cases, is_none,
}
use bioseasy.Jobs.Store.{
  Run, Status, succeeded, failed, not_confirmed, is_running, find_run, find_run-update,
}
use bioseasy.Jobs.Manager.{
  lookup-remove, JobState, Progress, System, progress, finish, lookup, end_run, write_progress,
}
use bioseasy.Jobs.Execute.{
  Exc, not_confirmed_error, engine_error, snapshot_error, other, Result, ok, raised, Report,
  Attempt, Body, ◌>>◌, report_all, recover, concluded, inspected, transferred, refused, checked,
  leave, after, exit_with, tracked_run, run,
}

abbrev pub row_status : ℕ → List Run → Option Status
row_status i runs = elim (find_run i runs) [ none ↦ none | some r ↦ some r.status ]

abbrev HasRow : System → ℕ → Type 0
HasRow s i = is_none (row_status i s.runs) ≡ false

finish_status :
    (s : System) (st : JobState) (v : Status) (m : String) (now : ℕ)
    → HasRow s st.run_id
    → row_status st.run_id (finish s st v m now).runs ≡ some v
unfolding finish end_run
finish_status s st v m now has =
    ground (arith, find_run-update st.run_id st.run_id (end_run v now m) s.runs (λ r. refl))

progress-HasRow :
    (s : System) (u : String) (p : Progress) (monotonic now i : ℕ)
    → HasRow s i
    → HasRow (progress s u p monotonic now) i
unfolding progress write_progress
progress-HasRow s u p monotonic now i has = elim (Option-cases (lookup u s.states)) [
  | inl e ↦ ground arith
  | inr (current, e) ↦ ground (
    arith,
    find_run-update i current.run_id
        (write_progress now
          (record current { phase = p.phase; percent = p.percent; message = p.message }))
        s.runs (λ r. refl),
  )
]

report_all-HasRow :
    (s : System) (u : String) (reports : List Report) (i : ℕ)
    → HasRow s i
    → HasRow (report_all s u reports) i
unfolding report_all
report_all-HasRow s u [] i has = has
report_all-HasRow s u (r ∷ rest) i has =
    report_all-HasRow (progress s u r.progress r.monotonic r.now) u rest i
      (progress-HasRow s u r.progress r.monotonic r.now i has)

-- The status that an exception leads to.
abbrev pub exc_status : Exc → Status
exc_status (not_confirmed_error m) = not_confirmed
exc_status (engine_error m) = failed
exc_status (snapshot_error m) = failed
exc_status other = failed

recover_status :
    (s : System) (st : JobState) (now : ℕ) (e : Exc)
    → HasRow s st.run_id
    → row_status st.run_id (recover s st now e).runs ≡ some (exc_status e)
unfolding recover
recover_status s st now (not_confirmed_error m) has = finish_status s st not_confirmed m now has
recover_status s st now (engine_error m) has = finish_status s st failed m now has
recover_status s st now (snapshot_error m) has = finish_status s st failed _ now has
recover_status s st now other has = finish_status s st failed _ now has

-- The row has its last status and the manager has forgotten the device.
pub record EndedAs (t : System) (st : JobState) (v : Status) : Type 0 where
  pub row : row_status st.run_id t.runs ≡ some v
  pub forgotten : lookup st.udid t.states ≡ none

finish-EndedAs :
    (s : System) (st : JobState) (v : Status) (m : String) (now : ℕ)
    → HasRow s st.run_id
    → EndedAs (finish s st v m now) st v
unfolding finish
finish-EndedAs s st v m now has = record {
  row = finish_status s st v m now has;
  forgotten = lookup-remove st.udid s.states;
}

recover-EndedAs :
    (s : System) (st : JobState) (now : ℕ) (e : Exc)
    → HasRow s st.run_id
    → EndedAs (recover s st now e) st (exc_status e)
unfolding recover
recover-EndedAs s st now (not_confirmed_error m) has = finish-EndedAs s st not_confirmed m now has
recover-EndedAs s st now (engine_error m) has = finish-EndedAs s st failed m now has
recover-EndedAs s st now (snapshot_error m) has = finish-EndedAs s st failed _ now has
recover-EndedAs s st now other has = finish-EndedAs s st failed _ now has

-- How a run ends, from what its calls did.
abbrev verdict_snapshot : Result (Unit {0}) → Result (Unit {0}) → Status
verdict_snapshot (raised e) later = exc_status e
verdict_snapshot (ok _) (raised e) = exc_status e
verdict_snapshot (ok _) (ok _) = succeeded

abbrev verdict_files : Attempt → Result (List String) → Status
verdict_files a (raised e) = exc_status e
verdict_files a (ok []) = verdict_snapshot a.snapshot (a.identity >> a.confirm)
verdict_files a (ok (p ∷ ps)) = failed

abbrev verdict_engine : Attempt → Result (Unit {0}) → Status
verdict_engine a (raised e) = exc_status e
verdict_engine a (ok _) = verdict_files a a.read_backup

abbrev verdict_notice : Result (Unit {0}) → Status
verdict_notice (raised e) = exc_status e
verdict_notice (ok _) = failed

abbrev verdict_storage : Attempt → Result (List String) → Status
verdict_storage a (raised e) = exc_status e
verdict_storage a (ok []) = verdict_engine a a.backup
verdict_storage a (ok (p ∷ ps)) = verdict_notice a.notify_storage

abbrev verdict_track : Attempt → Result (Unit {0}) → Status
verdict_track a (raised e) = exc_status e
verdict_track a (ok _) = verdict_storage a a.storage_check

abbrev pub verdict : Attempt → Status
verdict a = verdict_track a a.track

-- A body that ended the run itself, or one that an exception left, with the row still there.
abbrev Ends : Body → JobState → Status → Type 0
Ends (t, none) st v = EndedAs t st v
Ends (t, some e) st v = HasRow t st.run_id × (exc_status e ≡ v)

module _ (st : JobState) where
  concluded-Ends :
      (s : System) (now : ℕ) (snapshot later : Result (Unit {0}))
      → HasRow s st.run_id
      → Ends (concluded s st now snapshot later) st (verdict_snapshot snapshot later)
  unfolding concluded
  concluded-Ends s now (raised (snapshot_error m)) later has = finish-EndedAs s st failed _ now has
  concluded-Ends s now (raised (not_confirmed_error m)) later has = (has, refl)
  concluded-Ends s now (raised (engine_error m)) later has = (has, refl)
  concluded-Ends s now (raised other) later has = (has, refl)
  concluded-Ends s now (ok _) (raised e) has = (has, refl)
  concluded-Ends s now (ok _) (ok _) has = finish-EndedAs s st succeeded _ now has

  inspected-Ends :
      (s : System) (a : Attempt) (files : Result (List String))
      → HasRow s st.run_id
      → Ends (inspected s st a files) st (verdict_files a files)
  unfolding inspected
  inspected-Ends s a (raised e) has = (has, refl)
  inspected-Ends s a (ok []) has = concluded-Ends s a.now a.snapshot (a.identity >> a.confirm) has
  inspected-Ends s a (ok (p ∷ ps)) has = finish-EndedAs s st failed _ a.now has

  transferred-Ends :
      (s : System) (a : Attempt) (engine : Result (Unit {0}))
      → HasRow s st.run_id
      → Ends (transferred s st a engine) st (verdict_engine a engine)
  unfolding transferred
  transferred-Ends s a (raised e) has = (has, refl)
  transferred-Ends s a (ok _) has = inspected-Ends s a a.read_backup has

  refused-Ends :
      (t : System) (message : String) (notice : Result (Unit {0}))
      → EndedAs t st failed
      → Ends (refused t message notice) st (verdict_notice notice)
  unfolding refused
  refused-Ends t message (raised e) ended = (rw ended.row, refl)
  refused-Ends t message (ok _) ended = record { row = ended.row; forgotten = ended.forgotten }

  checked-Ends :
      (s : System) (a : Attempt) (storage : Result (List String))
      → HasRow s st.run_id
      → Ends (checked s st a storage) st (verdict_storage a storage)
  unfolding checked
  checked-Ends s a (raised e) has = (has, refl)
  checked-Ends s a (ok []) has =
      transferred-Ends (report_all s st.udid a.reports) a a.backup
        (report_all-HasRow s st.udid a.reports st.run_id has)
  checked-Ends s a (ok (p ∷ ps)) has =
      refused-Ends _ _ a.notify_storage (finish-EndedAs s st failed _ a.now has)

  exit_with-EndedAs :
      (now : ℕ) (b : Body) (v : Status) → Ends b st v → EndedAs (exit_with st now b) st v
  unfolding after leave
  exit_with-EndedAs now (t, none) v ends = record { row = ends.row; forgotten = ends.forgotten }
  exit_with-EndedAs now (t, some e) v (has, same) =
      subst (EndedAs (exit_with st now (t, some e)) st) same
        (recover-EndedAs (leave t st (some e)) st now e has)

  tracked_run-EndedAs :
      (s : System) (a : Attempt) (track : Result (Unit {0}))
      → HasRow s st.run_id
      → EndedAs (tracked_run s st a track) st (verdict_track a track)
  unfolding tracked_run
  tracked_run-EndedAs s a (raised e) has = recover-EndedAs s st a.now e has
  tracked_run-EndedAs s a (ok _) has =
      exit_with-EndedAs a.now _ (verdict_storage a a.storage_check)
        (checked-Ends _ a a.storage_check has)

exc_status_ends : (e : Exc) → is_running (exc_status e) ≡ false
exc_status_ends (not_confirmed_error m) = refl
exc_status_ends _ = refl

verdict_ends : (a : Attempt) → is_running (verdict a) ≡ false
verdict_ends a = ground arith

-- Whatever the engine, the disk and the snapshots do, a run whose row exists ends: the row gets the
-- status of the verdict, which is not `running`, and the manager forgets the device.
pub run-EndedAs :
    (s : System) (st : JobState) (a : Attempt)
    → is_none (row_status st.run_id s.runs) ≡ false
    → EndedAs (run s st a) st (verdict a) × (is_running (verdict a) ≡ false)
unfolding run
run-EndedAs s st a has = (tracked_run-EndedAs st s a a.track has, verdict_ends a)

-- Every call returned, the storage check and the finished backup name no problem.
pub record IsClean (a : Attempt) : Type 0 where
  pub tracked : a.track ≡ ok tt
  pub fit : a.storage_check ≡ ok []
  pub backed_up : a.backup ≡ ok tt
  pub complete : a.read_backup ≡ ok []
  pub kept : a.snapshot ≡ ok tt
  pub named : a.identity ≡ ok tt
  pub confirmed : a.confirm ≡ ok tt

IsClean-of_succeeded : (a : Attempt) → verdict a ≡ succeeded → IsClean a
IsClean-of_succeeded a h = ground arith

-- A run is recorded as succeeded exactly when every step of it went well; the engine returning is
-- not enough.
pub run-succeeded_iff :
    (s : System) (st : JobState) (a : Attempt)
    → is_none (row_status st.run_id s.runs) ≡ false
    → (row_status st.run_id (run s st a).runs ≡ some succeeded) ↔ IsClean a
run-succeeded_iff s st a has = (
  λ h. IsClean-of_succeeded a (ground (arith, (run-EndedAs s st a has).0.row)),
  λ c. (run-EndedAs s st a has).0.row ∙ ap some (ground arith),
)

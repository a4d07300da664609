-- ===== src/Jobs/Execute/Activity.antt =====
-- What src/bioseasy/jobs.py leaves in the activities of src/bioseasy/activity.py.
use bioseasy.Prelude.{
  ℕ, String, ◌≡◌, refl, ap, ◌∙◌, false, some, List, [], ◌∷◌, ◌++◌, arith, is_none,
}
use bioseasy.Jobs.Store.{failed, not_confirmed}
use bioseasy.Jobs.Manager.{lookup-remove, JobState, Progress, System, progress, finish, remove}
use bioseasy.Jobs.Execute.{
  not_confirmed_error, ok, raised, Report, Attempt, report_all, recover, run, activity_outcome,
}
use bioseasy.Jobs.Execute.Ending.{row_status, run-EndedAs}

progress-activities :
    (s : System) (u : String) (p : Progress) (m now : ℕ)
    → ((progress s u p m now).told ≡ s.told) × ((progress s u p m now).activities ≡ s.activities)
unfolding progress
progress-activities s u p m now = (ground arith, ground arith)

report_all-activities :
    (s : System) (u : String) (reports : List Report)
    → ((report_all s u reports).told ≡ s.told)
      × ((report_all s u reports).activities ≡ s.activities)
unfolding report_all
report_all-activities s u [] = (refl, refl)
report_all-activities s u (r ∷ rest) =
    let t = progress s u r.progress r.monotonic r.now in
    let (told, acts) = report_all-activities t u rest in
    let (told', acts') = progress-activities s u r.progress r.monotonic r.now in
    (told ∙ told', acts ∙ acts')

-- Where nobody confirmed the backup on the device, the run's row says so, and the activity of the
-- same run is recorded as failed.
pub run-not_confirmed :
    (s : System) (st : JobState) (a : Attempt) (m : String)
    → is_none (row_status st.run_id s.runs) ≡ false
    → a.track ≡ ok tt
    → a.storage_check ≡ ok []
    → a.backup ≡ raised (not_confirmed_error m)
    → (row_status st.run_id (run s st a).runs ≡ some not_confirmed)
      × ((run s st a).activities ≡ s.activities ++ (st.udid, failed) ∷ [])
unfolding run finish recover activity_outcome
run-not_confirmed s st a m has tracked fit refused =
    let entered = record s { tracked = (st.udid, tt) ∷ s.tracked; told = remove st.udid s.told } in
    let (told, acts) = report_all-activities entered st.udid a.reports in
    (
      (run-EndedAs s st a has).0.row ∙ ap some (ground arith),
      ground (arith, lookup-remove st.udid s.told),
    )

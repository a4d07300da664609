-- ===== src/Jobs/Execute.antt =====
-- `_run` of src/bioseasy/jobs.py: one backup, from its start to the row's last status. What the
-- engine, the disk and the snapshots do is given: each call returns or raises.
pub mod Ending
pub mod Activity
use bioseasy.Prelude.{
  ℕ, zero, suc, ◌+◌, ◌-◌, ◌*◌, ◌/◌, ◌%◌, ◌^◌, ◌≤◌, ◌<◌, String, ◌≡◌, refl, sym, ap, ◌∙◌, subst, ◌≢◌,
  ◌↔◌, ◌⊎◌, inl, inr, Bool, true, false, not, ◌&&◌, ◌||◌, Option, none, some, List, [], ◌∷◌, ◌++◌,
  map, arith, str_eq, eq_iff, ltb, leb, ◌==◌, if◌then◌else◌, ltb→lt, leb→le, lt→ltb, le→leb,
  Bool-cases, Option-cases, is_none, List-cases, length, length-append, All,
}
use Prim.Native.String.{◌++◌ as str_append}
use bioseasy.Jobs.Store.{Status, succeeded, failed, not_confirmed}
use bioseasy.Jobs.Manager.{
  JobState, Progress, Event, storage_failed, System, progress, finish, lookup, remove,
}

-- The exceptions that `_run` tells apart.
pub data Exc : Type 0 where
  not_confirmed_error engine_error snapshot_error : String → Exc
  other : Exc

pub data Result {ℓ} (A : Type ℓ) : Type ℓ where
  ok : A → Result A
  raised : Exc → Result A

infixl 10 ◌>>=◌
abbrev pub ◌>>=◌ {ℓ κ} : {A : Type ℓ} {B : Type κ} → Result A → (A → Result B) → Result B
ok a >>= f = f a
raised e >>= f = raised e

infixl 10 ◌>>◌
abbrev pub ◌>>◌ {ℓ κ} : {A : Type ℓ} {B : Type κ} → Result A → Result B → Result B
m >> n = m >>= λ _. n

-- A progress callback, with the clocks that it reads.
pub record Report : Type 0 where
  pub progress : Progress
  pub monotonic : ℕ
  pub now : ℕ

-- What the world does during one run. The two lists of problems are those of the storage check and
-- of the finished backup; `now` is the clock of `_finish`.
pub record Attempt : Type 0 where
  pub track : Result (Unit {0})
  pub storage_check : Result (List String)
  pub notify_storage : Result (Unit {0})
  pub reports : List Report
  pub backup : Result (Unit {0})
  pub read_backup : Result (List String)
  pub snapshot : Result (Unit {0})
  pub identity : Result (Unit {0})
  pub confirm : Result (Unit {0})
  pub now : ℕ

-- "; ".join(problems)
abbrev join : List String → String
join [] = ""
join (p ∷ []) = p
join (p ∷ q ∷ rest) = str_append p (str_append "; " (join (q ∷ rest)))

abbrev crash_message : String
crash_message = "Internal error, see the container log"

-- The calls of `_progress` that the engine makes.
unfoldable pub report_all : System → String → List Report → System
report_all s u [] = s
report_all s u (r ∷ rest) = report_all (progress s u r.progress r.monotonic r.now) u rest

-- The `except` clauses.
unfoldable pub recover : System → JobState → ℕ → Exc → System
recover s st now (not_confirmed_error m) = finish s st not_confirmed m now
recover s st now (engine_error m) = finish s st failed m now
recover s st now (snapshot_error m) = finish s st failed crash_message now
recover s st now other = finish s st failed crash_message now

-- A step of the body: the state, and the exception that leaves the `with` block.
abbrev pub Body : Type 0
Body = System × Option Exc

-- After the engine returned and the backup reads as complete. `_snapshot` has a handler of its own
-- for a SnapshotError.
concluded : System → JobState → ℕ → Result (Unit {0}) → Result (Unit {0}) → Body
concluded s st now (raised (snapshot_error m)) later =
    (finish s st failed (str_append "Snapshot failed: " m) now, none)
concluded s st now (raised e) later = (s, some e)
concluded s st now (ok _) (raised e) = (s, some e)
concluded s st now (ok _) (ok _) = (finish s st succeeded "" now, none)

abbrev conclude : System → JobState → Attempt → Body
conclude s st a = concluded s st a.now a.snapshot (a.identity >> a.confirm)

inspected : System → JobState → Attempt → Result (List String) → Body
unfolding concluded
inspected s st a (raised e) = (s, some e)
inspected s st a (ok []) = conclude s st a
inspected s st a (ok (p ∷ ps)) =
    (finish s st failed (str_append "Backup incomplete: " (join (p ∷ ps))) a.now, none)

transferred : System → JobState → Attempt → Result (Unit {0}) → Body
unfolding inspected
transferred s st a (raised e) = (s, some e)
transferred s st a (ok _) = inspected s st a a.read_backup

abbrev transfer : System → JobState → Attempt → Body
transfer s st a = transferred (report_all s st.udid a.reports) st a a.backup

-- The storage check failed: the run has ended, and the notice comes after it.
refused : System → String → Result (Unit {0}) → Body
refused t message (raised e) = (t, some e)
refused t message (ok _) = (record t { events = t.events ++ storage_failed message ∷ [] }, none)

abbrev refuse : System → JobState → Attempt → String → Body
refuse s st a message = refused (finish s st failed message a.now) message a.notify_storage

checked : System → JobState → Attempt → Result (List String) → Body
unfolding transferred refused
checked s st a (raised e) = (s, some e)
checked s st a (ok []) = transfer s st a
checked s st a (ok (p ∷ ps)) = refuse s st a (str_append "Storage check failed: " (join (p ∷ ps)))

-- `outcome_state["outcome"] or ("failed" if raised else "succeeded")`, on leaving `activity.track`.
unfoldable pub activity_outcome : Option (Status × String) → Option Exc → Status
activity_outcome (some (status, detail)) e = status
activity_outcome none (some e) = failed
activity_outcome none none = succeeded

leave : System → JobState → Option Exc → System
unfolding activity_outcome
leave s st e = record s {
  activities = s.activities ++ (st.udid, activity_outcome (lookup st.udid s.told) e) ∷ [];
}

after : System → JobState → ℕ → Option Exc → System
unfolding recover
after s st now none = s
after s st now (some e) = recover s st now e

-- The activity is left before an `except` clause runs.
abbrev exit_with : JobState → ℕ → Body → System
exit_with st now (t, e) = after (leave t st e) st now e

tracked_run : System → JobState → Attempt → Result (Unit {0}) → System
unfolding checked leave after
tracked_run s st a (raised e) = recover s st a.now e
tracked_run s st a (ok _) = exit_with st a.now (
    checked (record s { tracked = (st.udid, tt) ∷ s.tracked; told = remove st.udid s.told }) st a
      a.storage_check)

unfoldable pub run : System → JobState → Attempt → System
unfolding tracked_run recover
run s st a = tracked_run s st a a.track

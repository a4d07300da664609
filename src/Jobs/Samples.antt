-- ===== src/Jobs/Samples.antt =====
-- Small inputs for src/bioseasy/jobs.py: one phone, two workers, runs that end in several ways.
use bioseasy.Prelude.{ℕ, ◌≡◌, refl, ◌↔◌, false, Option, none, some, List, [], ◌∷◌, ◌++◌, arith}
use bioseasy.Jobs.Store.{
  Run, Worker, running, succeeded, failed, not_confirmed, manual, schedule, starting, is_running,
  running_for, contains, find_run,
}
use bioseasy.Jobs.Sweep.{sweep_orphan_runs, orphaned, registered, silent_since}
use bioseasy.Jobs.Sweep.Orphans.{HasLiveWorker, sweep-HasLiveWorker}
use bioseasy.Jobs.Manager.{JobState, System, state, type_error, start, lookup, fresh, new_run}
use bioseasy.Jobs.Execute.{Attempt, ok, raised, not_confirmed_error, run}
use bioseasy.Jobs.Execute.Ending.{
  EndedAs, IsClean, row_status, verdict, run-EndedAs, run-succeeded_iff,
}
use bioseasy.Jobs.Execute.Activity.{run-not_confirmed}
use bioseasy.Jobs.History.{OneRunning, starts, here, next, Reach-OneRunning}
use bioseasy.Jobs.Starting.{start-type_error_iff, start-other_worker}

abbrev idle : System
idle = record {
  devices = "phone" ∷ [];
  runs = [];
  workers = [];
  worker_id = "w1";
  states = [];
  last_write = [];
  tracked = [];
  told = [];
  activities = [];
  threads = [];
  events = [];
}

abbrev busy_row : Run
busy_row = record {
  id = 1;
  udid = "phone";
  trigger = manual;
  started_at = 1000;
  finished_at = none;
  status = running;
  message = "";
  phase = some starting;
  percent = none;
  progress_message = "";
  worker_id = some "w1";
  heartbeat_at = some 1000;
}

abbrev job : JobState
job = fresh "phone" 1

abbrev busy : System
busy = record idle { runs = busy_row ∷ []; states = ("phone", job) ∷ [] }

abbrev clean : Attempt
clean = record {
  track = ok tt;
  storage_check = ok [];
  notify_storage = ok tt;
  reports = [];
  backup = ok tt;
  read_backup = ok [];
  snapshot = ok tt;
  identity = ok tt;
  confirm = ok tt;
  now = 2000;
}

abbrev ignored : Attempt
ignored = record clean { backup = raised (not_confirmed_error "passcode not entered") }

run-succeeded_iff_example :
    (row_status 1 (run busy job clean).runs ≡ some succeeded) ↔ IsClean clean
run-succeeded_iff_example = run-succeeded_iff busy job clean refl

run-EndedAs_example :
    EndedAs (run busy job ignored) job not_confirmed × (is_running (verdict ignored) ≡ false)
run-EndedAs_example = run-EndedAs busy job ignored refl

run-not_confirmed_example :
    (row_status 1 (run busy job ignored).runs ≡ some not_confirmed)
    × ((run busy job ignored).activities ≡ [] ++ ("phone", failed) ∷ [])
run-not_confirmed_example =
    run-not_confirmed busy job ignored "passcode not entered" refl refl refl refl

idle-OneRunning : OneRunning idle
idle-OneRunning = record { at_most_one = λ u. omega arith }

Reach-OneRunning_example :
    OneRunning (start (start idle "phone" manual 1000 none).1 "phone" schedule 1001 none).1
Reach-OneRunning_example =
    Reach-OneRunning idle-OneRunning
      (next (next here (starts "phone" manual 1000 none)) (starts "phone" schedule 1001 none))

abbrev alive : List Worker
alive = record { id = "w1"; heartbeat_at = 1950 } ∷ []

sweep-HasLiveWorker_example :
    HasLiveWorker alive 2000 busy_row × (find_run 1 (busy_row ∷ []) ≡ some busy_row)
unfolding sweep_orphan_runs orphaned registered silent_since
sweep-HasLiveWorker_example =
    sweep-HasLiveWorker alive 2000 2000 1 (busy_row ∷ []) busy_row refl refl

start-type_error_iff_example : ((start idle "tablet" schedule 1000 none).0 ≡ type_error) ↔ (
    (lookup "tablet" idle.states ≡ none)
    × (◌≡◌ {A = Option ℕ} none none)
    × (running_for "tablet" idle.runs ≡ none)
    × (contains "tablet" idle.devices ≡ false))
start-type_error_iff_example = start-type_error_iff idle "tablet" schedule 1000 none

start-other_worker_example :
    (find_run 1 (idle.runs) ≡ none)
    × ((start idle "phone" manual 1000 none).0 ≡ state job)
    × ((start idle "phone" manual 1000 none).1.threads ≡ [] ++ job ∷ [])
    × (start
          (record idle { runs = new_run idle "phone" manual 1000 ∷ []; worker_id = "w2" })
          "phone"
          schedule
          1001
          none
        ≡ (
          state job,
          record idle { runs = new_run idle "phone" manual 1000 ∷ []; worker_id = "w2" },
        ))
unfolding start running_for
start-other_worker_example =
    start-other_worker idle
      (record idle { runs = new_run idle "phone" manual 1000 ∷ []; worker_id = "w2" }) "phone"
      manual schedule 1000 1001 refl refl refl refl refl

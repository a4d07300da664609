-- ===== src/Jobs/Manager.antt =====
-- `JobManager` of src/bioseasy/jobs.py without its threads: what `start`, `_progress`, `_finish` and
-- the heartbeat write. The database, the manager's dictionaries and the messages to the outside
-- are one state; a write is taken to succeed unless a constraint of the schema refuses it.
use bioseasy.Prelude.{
  ℕ, suc, ◌+◌, String, ◌≡◌, refl, Bool, true, false, Option, none, some, List, [], ◌∷◌, ◌++◌, arith,
  str_eq, leb, if◌then◌else◌,
}
use bioseasy.Jobs.Store.{
  Status, Trigger, Phase, Run, Worker, running, waiting_for_passcode, starting, update_run,
  running_for, max_id, contains,
}

pub record JobState : Type 0 where
  pub udid : String
  pub run_id : ℕ
  pub phase : Phase
  pub percent : Option ℕ
  pub message : String

pub record Progress : Type 0 where
  pub phase : Phase
  pub percent : Option ℕ
  pub message : String

-- The calls of the hooks.
pub data Event : Type 0 where
  on_event : Status → String → String → Event
  passcode : String → String → Event
  storage_failed : String → Event

-- A dictionary by device: the first entry counts.
abbrev pub lookup {ℓ} : {V : Type ℓ} → String → List (String × V) → Option V
lookup u [] = none
lookup u ((v, x) ∷ rest) = if str_eq v u then some x else lookup u rest

unfoldable pub remove {ℓ} : {V : Type ℓ} → String → List (String × V) → List (String × V)
remove u [] = []
remove u ((v, x) ∷ rest) =
    let others = remove u rest in if str_eq v u then others else (v, x) ∷ others

unfoldable pub put {ℓ} : {V : Type ℓ} → String → V → List (String × V) → List (String × V)
unfolding remove
put u x entries = (u, x) ∷ remove u entries

pub record System : Type 0 where
  pub devices : List String
  pub runs : List Run
  pub workers : List Worker
  pub worker_id : String
  pub states : List (String × JobState)
  pub last_write : List (String × ℕ)
  pub tracked : List (String × Unit {0})
  -- What `set_outcome` was last told for a device's activity, and the outcomes that the table has.
  pub told : List (String × (Status × String))
  pub activities : List (String × Status)
  pub threads : List JobState
  pub events : List Event

-- What `start` answers: a state, or the TypeError of a missing row.
pub data Started : Type 0 where
  state : JobState → Started
  type_error : Started

abbrev pub or_starting : Option Phase → Phase
or_starting none = starting
or_starting (some p) = p

abbrev pub fresh : String → ℕ → JobState
fresh u i = record { udid = u; run_id = i; phase = starting; percent = none; message = "" }

abbrev pub new_run : System → String → Trigger → ℕ → Run
new_run s u trigger now = record {
  id = suc (max_id s.runs);
  udid = u;
  trigger = trigger;
  started_at = now;
  finished_at = none;
  status = running;
  message = "";
  phase = some starting;
  percent = none;
  progress_message = "";
  worker_id = some s.worker_id;
  heartbeat_at = some now;
}

-- The state is entered under the lock, and the thread is started.
spawn : System → JobState → System
spawn s st = record s { states = put st.udid st s.states; threads = s.threads ++ st ∷ [] }

-- UPDATE runs SET worker_id = ?, heartbeat_at = ? WHERE id = ?
unfoldable pub claim : String → ℕ → Run → Run
claim w now r = record r { worker_id = some w; heartbeat_at = some now }

-- The INSERT fails where `runs_one_running` has a row, or where the device is not registered. Either
-- is an IntegrityError, and the handler reads the running row.
insert : System → String → Trigger → ℕ → Option Run → Bool → Started × System
unfolding spawn
insert s u trigger now (some r) registered = (
  state (record {
    udid = u;
    run_id = r.id;
    phase = or_starting r.phase;
    percent = r.percent;
    message = r.progress_message;
  }),
  s,
)
insert s u trigger now none false = (type_error, s)
insert s u trigger now none true =
    let st = fresh u (suc (max_id s.runs)) in
    (state st, spawn (record s { runs = s.runs ++ new_run s u trigger now ∷ [] }) st)

start_absent : System → String → Trigger → ℕ → Option ℕ → Started × System
unfolding insert
start_absent s u trigger now (some i) =
    let st = fresh u i in
    (state st, spawn (record s { runs = update_run i (claim s.worker_id now) s.runs }) st)
start_absent s u trigger now none =
    insert s u trigger now (running_for u s.runs) (contains u s.devices)

-- `now` is `_now()`.
unfoldable pub start : System → String → Trigger → ℕ → Option ℕ → Started × System
unfolding start_absent
start s u trigger now run_id = elim (lookup u s.states) [
  | some st ↦ (state st, s)
  | none ↦ start_absent s u trigger now run_id
]

-- `PROGRESS_WRITE_INTERVAL`, in microseconds of `time.monotonic()`.
abbrev pub progress_write_interval : ℕ
progress_write_interval = 1000000

unfoldable pub write_progress : ℕ → JobState → Run → Run
write_progress now st r = record r {
  phase = some st.phase;
  percent = st.percent;
  progress_message = st.message;
  heartbeat_at = some now;
}

abbrev last_or_zero : Option ℕ → ℕ
last_or_zero none = 0
last_or_zero (some t) = t

-- The two writes that are throttled.
throttled : System → JobState → ℕ → ℕ → System
throttled s st monotonic now =
    if leb (last_or_zero (lookup st.udid s.last_write) + progress_write_interval) monotonic
    then record s {
      last_write = put st.udid monotonic s.last_write;
      runs = update_run st.run_id (write_progress now st) s.runs;
    }
    else s

ask_passcode : System → String → Progress → System
ask_passcode s u p = elim p.phase [
  | waiting_for_passcode ↦ record s { events = s.events ++ passcode u p.message ∷ [] }
  | _ ↦ s
]

unfoldable pub progress : System → String → Progress → ℕ → ℕ → System
unfolding throttled ask_passcode
progress s u p monotonic now = elim (lookup u s.states) [
  | none ↦ s
  | some current ↦
      let st = record current { phase = p.phase; percent = p.percent; message = p.message } in
      ask_passcode (throttled (record s { states = put u st s.states }) st monotonic now) u p
]

-- UPDATE runs SET status = ?, finished_at = ?, message = ? WHERE id = ?
unfoldable pub end_run : Status → ℕ → String → Run → Run
end_run status now message r = record r {
  status = status;
  finished_at = some now;
  message = message;
}

tell : System → String → Status → String → Option (Unit {0}) → List (String × (Status × String))
tell s u status message none = s.told
tell s u status message (some _) = put u (status, message) s.told

unfoldable pub finish : System → JobState → Status → String → ℕ → System
unfolding tell
finish s st status message now = record s {
  runs = update_run st.run_id (end_run status now message) s.runs;
  states = remove st.udid s.states;
  last_write = remove st.udid s.last_write;
  tracked = remove st.udid s.tracked;
  told = tell s st.udid status message (lookup st.udid s.tracked);
  events = s.events ++ on_event status st.udid message ∷ [];
}

-- INSERT INTO workers … ON CONFLICT(id) DO UPDATE
unfoldable pub beat : String → ℕ → List Worker → List Worker
beat w now [] = record { id = w; heartbeat_at = now } ∷ []
beat w now (x ∷ rest) =
    if str_eq x.id w then record x { heartbeat_at = now } ∷ rest else x ∷ beat w now rest

unfoldable pub write_heartbeat : System → ℕ → System
unfolding beat
write_heartbeat s now = record s { workers = beat s.worker_id now s.workers }

pub lookup-remove {ℓ} :
    {V : Type ℓ} (u : String) (entries : List (String × V)) → lookup u (remove u entries) ≡ none
unfolding remove
lookup-remove u [] = refl
lookup-remove u ((v, x) ∷ rest) = ground (arith, lookup-remove u rest)

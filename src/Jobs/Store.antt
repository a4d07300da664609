-- ===== src/Jobs/Store.antt =====
-- The tables that src/bioseasy/jobs.py writes (`runs`, `workers`, and the keys of `devices`, of the
-- schema in src/bioseasy/db.py). A timestamp is in whole seconds, as the tables hold it: the text
-- order of one format is the order of the numbers. A query walks the rows in the order of their ids.
use bioseasy.Prelude.{
  ℕ, suc, ◌+◌, ◌≤◌, ◌<◌, String, ◌≡◌, refl, Bool, true, false, ◌&&◌, ◌||◌, Option, none, some, List,
  [], ◌∷◌, ◌++◌, arith, str_eq, ltb, ◌==◌, if◌then◌else◌,
}

pub data Status : Type 0 where
  running succeeded failed not_confirmed cancelled : Status

pub data Trigger : Type 0 where
  manual schedule device api : Trigger

pub data Phase : Type 0 where
  starting waiting_for_passcode transferring finishing : Phase

-- `percent` is only carried along.
pub record Run : Type 0 where
  pub id : ℕ
  pub udid : String
  pub trigger : Trigger
  pub started_at : ℕ
  pub finished_at : Option ℕ
  pub status : Status
  pub message : String
  pub phase : Option Phase
  pub percent : Option ℕ
  pub progress_message : String
  pub worker_id : Option String
  pub heartbeat_at : Option ℕ

pub record Worker : Type 0 where
  pub id : String
  pub heartbeat_at : ℕ

abbrev pub is_running : Status → Bool
is_running running = true
is_running _ = false

-- UPDATE runs SET … WHERE id = ?
unfoldable pub update_run : ℕ → (Run → Run) → List Run → List Run
update_run i f [] = []
update_run i f (r ∷ rest) = (if r.id == i then f r else r) ∷ update_run i f rest

-- SELECT * FROM runs WHERE udid = ? AND status = 'running'
unfoldable pub running_for : String → List Run → Option Run
running_for u [] = none
running_for u (r ∷ rest) =
    if str_eq r.udid u && is_running r.status then some r else running_for u rest

-- The id that SQLite gives a new row: one more than the largest.
abbrev pub max_id : List Run → ℕ
max_id [] = 0
max_id (r ∷ rest) = let m = max_id rest in if ltb m r.id then r.id else m

abbrev pub contains : String → List String → Bool
contains u [] = false
contains u (v ∷ rest) = str_eq v u || contains u rest

-- The row of one id, for the statements.
abbrev pub find_run : ℕ → List Run → Option Run
find_run i [] = none
find_run i (r ∷ rest) = if r.id == i then some r else find_run i rest

-- How many running rows a device has.
abbrev pub running_count : String → List Run → ℕ
running_count u [] = 0
running_count u (r ∷ rest) =
    let n = running_count u rest in if str_eq r.udid u && is_running r.status then suc n else n

pub running_count-zero :
    (u : String) (runs : List Run) → running_for u runs ≡ none → running_count u runs ≡ 0
unfolding running_for
running_count-zero u [] h = refl
running_count-zero u (r ∷ rest) h = ground (arith, running_count-zero u rest)

pub running_count-append :
    (u : String) (runs more : List Run)
    → running_count u (runs ++ more) ≡ running_count u runs + running_count u more
running_count-append u [] more = omega arith
running_count-append u (r ∷ rest) more = ground (arith, running_count-append u rest more)

-- A write that keeps the device and starts nothing keeps the count from growing.
pub running_count-update :
    (u : String) (i : ℕ) (f : Run → Run) (runs : List Run)
    → ((r : Run) → (f r).udid ≡ r.udid)
    → ((r : Run) → is_running (f r).status ≡ true → is_running r.status ≡ true)
    → running_count u (update_run i f runs) ≤ running_count u runs
unfolding update_run
running_count-update u i f [] same stays = omega arith
running_count-update u i f (r ∷ rest) same stays =
    ground (arith, same r, stays r, running_count-update u i f rest same stays)

pub find_run-update :
    (j i : ℕ) (f : Run → Run) (runs : List Run)
    → ((r : Run) → (f r).id ≡ r.id)
    → find_run j (update_run i f runs)
      ≡ elim (find_run j runs) [ none ↦ none | some r ↦ some (if j == i then f r else r) ]
unfolding update_run
find_run-update j i f [] same = refl
find_run-update j i f (r ∷ rest) same = ground (arith, same r, find_run-update j i f rest same)

pub running_for-append :
    (u : String) (runs more : List Run)
    → running_for u runs ≡ none
    → running_for u (runs ++ more) ≡ running_for u more
unfolding running_for
running_for-append u [] more h = refl
running_for-append u (r ∷ rest) more h = ground (arith, running_for-append u rest more)

pub find_run-past_max : (i : ℕ) (runs : List Run) → max_id runs < i → find_run i runs ≡ none
find_run-past_max i [] h = refl
find_run-past_max i (r ∷ rest) h = ground (arith, find_run-past_max i rest)

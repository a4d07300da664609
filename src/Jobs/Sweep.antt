-- ===== src/Jobs/Sweep.antt =====
-- `sweep_orphan_runs` of src/bioseasy/jobs.py: runs whose worker is gone are failed.
pub mod Orphans
use bioseasy.Prelude.{
  ℕ, zero, suc, ◌+◌, ◌-◌, ◌*◌, ◌/◌, ◌%◌, ◌^◌, ◌≤◌, ◌<◌, String, ◌≡◌, refl, sym, ap, ◌∙◌, subst, ◌≢◌,
  ◌↔◌, ◌⊎◌, inl, inr, Bool, true, false, not, ◌&&◌, ◌||◌, Option, none, some, List, [], ◌∷◌, ◌++◌,
  map, arith, str_eq, eq_iff, ltb, leb, ◌==◌, if◌then◌else◌, ltb→lt, leb→le, lt→ltb, le→leb,
  Bool-cases, Option-cases, is_none, List-cases, length, length-append, All,
}
use bioseasy.Jobs.Store.{Status, Run, Worker, running, failed, is_running}

-- `ORPHAN_THRESHOLD`, in seconds.
abbrev pub orphan_threshold : ℕ
orphan_threshold = 60

-- worker_id IN (SELECT id FROM workers)
unfoldable pub registered : String → List Worker → Bool
registered w [] = false
registered w (x ∷ rest) = str_eq x.id w || registered w rest

-- worker_id IN (SELECT id FROM workers WHERE heartbeat_at < ?)
unfoldable pub silent_since : ℕ → String → List Worker → Bool
silent_since t w [] = false
silent_since t w (x ∷ rest) = str_eq x.id w && ltb x.heartbeat_at t || silent_since t w rest

unfoldable pub orphaned : List Worker → ℕ → Run → Bool
orphaned workers stale_before r = is_running r.status && elim r.worker_id [
  | none ↦ true
  | some w ↦ not (registered w workers) || silent_since stale_before w workers
]

unfoldable pub fail_run : ℕ → Run → Run
fail_run clock r = record r {
  status = failed;
  finished_at = some clock;
  message = "Worker restarted during the backup";
}

-- `clock` is `_now()`, and the count is `cur.rowcount`.
unfoldable pub sweep_orphan_runs : List Worker → ℕ → ℕ → List Run → List Run × ℕ
sweep_orphan_runs workers now clock [] = ([], 0)
sweep_orphan_runs workers now clock (r ∷ rest) =
    let (swept, n) = sweep_orphan_runs workers now clock rest in
    if orphaned workers (now - orphan_threshold) r
    then (fail_run clock r ∷ swept, suc n)
    else (r ∷ swept, n)

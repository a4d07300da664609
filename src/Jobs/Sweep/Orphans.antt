-- ===== src/Jobs/Sweep/Orphans.antt =====
-- What a sweep of src/bioseasy/jobs.py leaves behind.
use bioseasy.Prelude.{
  ℕ, ◌+◌, ◌-◌, ◌≤◌, String, ◌≡◌, refl, sym, ap, ◌∙◌, inl, inr, true, false, none, some, List, [],
  ◌∷◌, arith, str_eq, eq_iff, if◌then◌else◌, Bool-cases, Option-cases,
}
use mathlib.Core.List.{Memᴰ}
use mathlib.Core.Option.{some-injective}
use bioseasy.Jobs.Store.{Run, Worker, running, is_running, running_count, find_run}
use bioseasy.Jobs.Sweep.{
  sweep_orphan_runs, orphaned, fail_run, registered, silent_since, orphan_threshold,
}

-- The row of each id after a sweep: failed if it was orphaned, and as it was otherwise.
pub sweep-find_run :
    (workers : List Worker) (now clock i : ℕ) (runs : List Run)
    → find_run i (sweep_orphan_runs workers now clock runs).0 ≡ elim (find_run i runs) [
      | none ↦ none
      | some r ↦ some (if orphaned workers (now - orphan_threshold) r then fail_run clock r else r)
    ]
unfolding sweep_orphan_runs fail_run
sweep-find_run workers now clock i [] = refl
sweep-find_run workers now clock i (r ∷ rest) =
    ground (arith, sweep-find_run workers now clock i rest)

pub running_count-sweep :
    (workers : List Worker) (now clock : ℕ) (u : String) (runs : List Run)
    → running_count u (sweep_orphan_runs workers now clock runs).0 ≤ running_count u runs
unfolding sweep_orphan_runs fail_run
running_count-sweep workers now clock u [] = omega arith
running_count-sweep workers now clock u (r ∷ rest) =
    ground (arith, running_count-sweep workers now clock u rest)

-- A worker that owns the run and has a heartbeat of the last 60 seconds.
pub record HasLiveWorker (workers : List Worker) (now : ℕ) (r : Run) : Type 0 where
  pub worker : Worker
  pub listed : Memᴰ worker workers
  pub owns : r.worker_id ≡ some worker.id
  pub fresh : now ≤ worker.heartbeat_at + orphan_threshold

find_registered :
    (w : String) (t : ℕ) (workers : List Worker)
    → registered w workers ≡ true
    → silent_since t w workers ≡ false
    → (x : Worker) × Memᴰ x workers × (x.id ≡ w) × (t ≤ x.heartbeat_at)
unfolding registered silent_since
find_registered w t [] h k = cc
find_registered w t (x ∷ rest) h k = elim (Bool-cases (str_eq x.id w)) [
  | inl same ↦ (x, Memᴰ.head refl, (eq_iff x.id w).0 same, ground arith)
  | inr other ↦
      let (y, listed, named, fresh) = find_registered w t rest (ground arith) (ground arith) in
      (y, Memᴰ.tail listed, named, fresh)
]

not_orphaned :
    (workers : List Worker) (now : ℕ) (r : Run)
    → is_running r.status ≡ true
    → orphaned workers (now - orphan_threshold) r ≡ false
    → HasLiveWorker workers now r
unfolding orphaned
not_orphaned workers now r live h = elim (Option-cases r.worker_id) [
  | inl e ↦ absurd (ground arith)
  | inr (w, e) ↦
      let (x, listed, named, fresh) =
        find_registered w (now - orphan_threshold) workers (ground arith) (ground arith) in
      record { worker = x; listed = listed; owns = cc; fresh = omega arith }
]

swept_row :
    (workers : List Worker) (now clock i : ℕ) (runs : List Run) (before r : Run)
    → find_run i runs ≡ some before
    → find_run i (sweep_orphan_runs workers now clock runs).0 ≡ some r
    → r
      ≡ (if orphaned workers (now - orphan_threshold) before then fail_run clock before else before)
swept_row workers now clock i runs before r e found =
    let row = sweep-find_run workers now clock i runs in
    some-injective _ _ (sym found ∙ row ∙ rw e refl)

still_running :
    (workers : List Worker) (now clock : ℕ) (before r : Run)
    → r
      ≡ (if orphaned workers (now - orphan_threshold) before then fail_run clock before else before)
    → r.status ≡ running
    → (orphaned workers (now - orphan_threshold) before ≡ false) × (r ≡ before)
unfolding fail_run
still_running workers now clock before r e live =
    elim (Bool-cases (orphaned workers (now - orphan_threshold) before)) [
      | inl lost ↦ absurd (ground arith)
      | inr kept ↦ (kept, e ∙ rw kept)
    ]

-- A run that is still running after a sweep was running before it, unchanged, and its worker is
-- alive.
pub sweep-HasLiveWorker :
    (workers : List Worker) (now clock i : ℕ) (runs : List Run) (r : Run)
    → find_run i (sweep_orphan_runs workers now clock runs).0 ≡ some r
    → r.status ≡ running
    → HasLiveWorker workers now r × (find_run i runs ≡ some r)
sweep-HasLiveWorker workers now clock i runs r found live = elim (Option-cases (find_run i runs)) [
  | inl e ↦ absurd (ground (arith, sweep-find_run workers now clock i runs))
  | inr (before, e) ↦
      let (owned, same) =
        still_running workers now clock before r
          (swept_row workers now clock i runs before r e found) live in
      (not_orphaned workers now r (rw live) (rw same owned), e ∙ ap some (sym same))
]

-- ===== src/Jobs/History.antt =====
-- Any order of the steps of src/bioseasy/jobs.py: starts, progress, endings, sweeps, heartbeats, and
-- another worker that takes the tables over.
use bioseasy.Prelude.{
  ℕ, ◌≤◌, String, ◌≡◌, refl, inl, inr, false, Option, [], ◌∷◌, arith, eq_iff, Option-cases,
}
use bioseasy.Jobs.Store.{
  Trigger, Status, is_running, running_for, running_count, running_count-zero, running_count-append,
  running_count-update,
}
use bioseasy.Jobs.Sweep.{sweep_orphan_runs}
use bioseasy.Jobs.Sweep.Orphans.{running_count-sweep}
use bioseasy.Jobs.Manager.{
  new_run, JobState, Progress, System, start, progress, finish, write_heartbeat, claim,
  write_progress, end_run, lookup,
}

-- The index `runs_one_running`: a device has at most one running row.
pub record OneRunning (s : System) : Type 0 where
  pub at_most_one : (u : String) → running_count u s.runs ≤ 1

-- One step of a worker on the shared tables.
pub data Step (s : System) : System → Type 0 where
  starts : (u : String) (t : Trigger) (now : ℕ) (i : Option ℕ) → Step s (start s u t now i).1
  reports : (u : String) (p : Progress) (m now : ℕ) → Step s (progress s u p m now)
  ends :
      (st : JobState) (v : Status) (m : String) (now : ℕ)
      → is_running v ≡ false
      → Step s (finish s st v m now)
  sweeps :
      (now clock : ℕ)
      → Step s (record s { runs = (sweep_orphan_runs s.workers now clock s.runs).0 })
  beats : (now : ℕ) → Step s (write_heartbeat s now)
  -- A process with dictionaries of its own takes the next step.
  switches : (t : System) → t.runs ≡ s.runs → Step s t

pub data Reach (s : System) : System → Type 0 where
  here : Reach s s
  next : {t u : System} → Reach s t → Step t u → Reach s u

start-OneRunning :
    (s : System) (u : String) (t : Trigger) (now : ℕ) (i : Option ℕ)
    → OneRunning s
    → OneRunning (start s u t now i).1
unfolding start claim
start-OneRunning s u t now i h = record {
  at_most_one = λ v. elim (Option-cases (lookup u s.states)) [
    | inl absent ↦ elim (Option-cases i) [
      | inl no_row ↦ elim (Option-cases (running_for u s.runs)) [
        | inl idle ↦ ground (
          arith,
          h.at_most_one v,
          running_count-zero u s.runs idle,
          running_count-append v s.runs (new_run s u t now ∷ []),
          eq_iff u v,
        )
        | inr (r, busy) ↦ ground (arith, h.at_most_one v)
      ]
      | inr (row, e) ↦ ground (
        arith,
        h.at_most_one v,
        running_count-update v row (claim s.worker_id now) s.runs (λ r. refl) (λ r e. e),
      )
    ]
    | inr (st, e) ↦ ground (arith, h.at_most_one v)
  ];
}

progress-OneRunning :
    (s : System) (u : String) (p : Progress) (m now : ℕ)
    → OneRunning s
    → OneRunning (progress s u p m now)
unfolding progress write_progress
progress-OneRunning s u p m now h = record {
  at_most_one = λ v. elim (Option-cases (lookup u s.states)) [
    | inl absent ↦ ground (arith, h.at_most_one v)
    | inr (current, e) ↦ ground (
      arith,
      h.at_most_one v,
      running_count-update v current.run_id
          (write_progress now
            (record current { phase = p.phase; percent = p.percent; message = p.message }))
          s.runs (λ r. refl) (λ r e. e),
    )
  ];
}

finish-OneRunning :
    (s : System) (st : JobState) (v : Status) (m : String) (now : ℕ)
    → is_running v ≡ false
    → OneRunning s
    → OneRunning (finish s st v m now)
unfolding finish end_run
finish-OneRunning s st v m now done h = record {
  at_most_one = λ u. omega (
    arith,
    h.at_most_one u,
    running_count-update u st.run_id (end_run v now m) s.runs (λ r. refl) (λ r e. cc),
  );
}

Step-OneRunning : {s t : System} → Step s t → OneRunning s → OneRunning t
unfolding write_heartbeat
Step-OneRunning {s} (starts u t now i) h = start-OneRunning s u t now i h
Step-OneRunning {s} (reports u p m now) h = progress-OneRunning s u p m now h
Step-OneRunning {s} (ends st v m now done) h = finish-OneRunning s st v m now done h
Step-OneRunning {s} (sweeps now clock) h = record {
  at_most_one =
      λ u. omega (arith, h.at_most_one u, running_count-sweep s.workers now clock u s.runs);
}
Step-OneRunning (beats now) h = record { at_most_one = h.at_most_one }
Step-OneRunning (switches t same) h = record { at_most_one = λ u. rw same (h.at_most_one u) }

-- Whatever the order of the steps, and whichever worker takes them, no device ever has two
-- running rows.
pub Reach-OneRunning : {s t : System} → OneRunning s → Reach s t → OneRunning t
Reach-OneRunning h here = h
Reach-OneRunning h (next r step) = Step-OneRunning step (Reach-OneRunning h r)

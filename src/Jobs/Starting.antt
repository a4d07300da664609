-- ===== src/Jobs/Starting.antt =====
-- What `start` of src/bioseasy/jobs.py answers.
use bioseasy.Prelude.{
  ℕ, suc, String, ◌≡◌, ◌∙◌, ◌↔◌, true, false, Option, none, some, [], ◌∷◌, ◌++◌, arith, eq_iff,
}
use bioseasy.Jobs.Store.{
  Trigger, max_id, running_for, running_for-append, contains, find_run, find_run-past_max,
}
use bioseasy.Jobs.Manager.{System, state, type_error, start, lookup, new_run, fresh}

-- A device that is not registered and has no running row makes `start` raise; nothing else does.
pub start-type_error_iff :
    (s : System) (u : String) (t : Trigger) (now : ℕ) (i : Option ℕ)
    → ((start s u t now i).0 ≡ type_error) ↔ (
        (lookup u s.states ≡ none)
        × (i ≡ none)
        × (running_for u s.runs ≡ none)
        × (contains u s.devices ≡ false))
unfolding start
start-type_error_iff s u t now i = (λ h. ground arith, λ h. ground arith)

fresh_row :
    (s : System) (u : String) (t : Trigger) (now : ℕ)
    → running_for u s.runs ≡ none
    → running_for u (s.runs ++ new_run s u t now ∷ []) ≡ some (new_run s u t now)
unfolding running_for
fresh_row s u t now idle =
    running_for-append u s.runs (new_run s u t now ∷ []) idle ∙ ground (arith, eq_iff u u)

-- Two workers start a backup of one idle, registered device, one after the other: the first inserts
-- a row with a new id and starts a thread, and the second reports that run and changes nothing.
pub start-other_worker :
    (s other : System) (u : String) (t t' : Trigger) (now now' : ℕ)
    → lookup u s.states ≡ none
    → running_for u s.runs ≡ none
    → contains u s.devices ≡ true
    → other.runs ≡ (start s u t now none).1.runs
    → lookup u other.states ≡ none
    → (find_run (suc (max_id s.runs)) s.runs ≡ none)
      × ((start s u t now none).0 ≡ state (fresh u (suc (max_id s.runs))))
      × ((start s u t now none).1.threads ≡ s.threads ++ fresh u (suc (max_id s.runs)) ∷ [])
      × (start other u t' now' none ≡ (state (fresh u (suc (max_id s.runs))), other))
unfolding start
start-other_worker s other u t t' now now' absent idle registered shared absent' = (
  find_run-past_max (suc (max_id s.runs)) s.runs (omega arith),
  ground arith,
  ground arith,
  ground (arith, fresh_row s u t now idle),
)

-- ===== src/Devices/Status/Ageing.antt =====
-- How the state of src/bioseasy/status.py changes while nothing but time passes.
use bioseasy.Prelude.{ℕ, ◌≤◌, Option, none, some, arith}
use bioseasy.Devices.Status.{
  State, overdue, due, BackupInfo, StatusRow, by_age, by_backup, state_of, status,
}

-- From a good backup to an overdue one; a state that does not depend on the age has the place 0.
abbrev pub urgency : State → ℕ
urgency due = 1
urgency overdue = 2
urgency _ = 0

-- While neither the row nor the backup changes, a device's state only gets more urgent.
state-urgency :
    (row : StatusRow) (info : Option BackupInfo) (t now : ℕ)
    → t ≤ now
    → urgency (status row info t).state ≤ urgency (status row info now).state
unfolding status state_of by_backup by_age
state-urgency row none t now later = ground arith
state-urgency row (some info) t now later = ground arith

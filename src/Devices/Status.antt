-- ===== src/Devices/Status.antt =====
-- `_status` of src/bioseasy/status.py: the state of a device from its last run and its backup. Times are
-- whole seconds.
pub mod Ageing
use bioseasy.Prelude.{
  ℕ, zero, suc, ◌+◌, ◌-◌, ◌*◌, ◌/◌, ◌%◌, ◌^◌, ◌≤◌, ◌<◌, String, ◌≡◌, refl, sym, ap, ◌∙◌, subst, ◌≢◌,
  ◌↔◌, ◌⊎◌, inl, inr, Bool, true, false, not, ◌&&◌, ◌||◌, Option, none, some, List, [], ◌∷◌, ◌++◌,
  map, arith, str_eq, eq_iff, ltb, leb, ◌==◌, if◌then◌else◌, ltb→lt, leb→le, lt→ltb, le→leb,
  Bool-cases, Option-cases, is_none, List-cases, length, length-append, All,
}

pub data State : Type 0 where
  running waiting_for_passcode never incomplete overdue due fine : State

-- What `read_backup` says of the device's directory.
pub record BackupInfo : Type 0 where
  pub complete : Bool
  pub last_backup : Option ℕ
  pub encrypted : Option Bool

-- The columns of the row, with the effective settings of the device.
pub record StatusRow : Type 0 where
  pub interval_hours : ℕ
  pub overdue_days : ℕ
  pub last_status : Option String
  pub last_phase : Option String
  pub last_started : Option ℕ
  pub last_percent : Option ℕ
  pub paired_at : Option ℕ
  pub pair_used_at : Option ℕ

pub record DeviceStatus : Type 0 where
  pub state : State
  pub last_success_at : Option ℕ
  pub next_due_at : Option ℕ
  pub last_run_status : Option String
  pub last_run_at : Option ℕ
  pub progress_percent : Option ℕ
  pub backup_complete : Option Bool
  pub encrypted : Option Bool
  pub pair_days_unused : Option ℕ

abbrev pub pair_warn_days : ℕ
pair_warn_days = 21

abbrev pub pair_expired_days : ℕ
pair_expired_days = 30

abbrev pub is_text : Option String → String → Bool
is_text none t = false
is_text (some s) t = str_eq s t

-- `pair_used_at or paired_at`; the difference of days is not negative here.
unfoldable pub pair_days_unused : Option ℕ → Option ℕ → ℕ → Option ℕ
pair_days_unused paired_at (some used) now = some ((now - used) / 86400)
pair_days_unused (some paired) none now = some ((now - paired) / 86400)
pair_days_unused none none now = none

pub data PairWarning : Type 0 where
  needs_pairing will_expire : ℕ → PairWarning

unfoldable pub pair_warning : Option ℕ → Option PairWarning
pair_warning none = none
pair_warning (some days) =
    if ltb days pair_warn_days
    then none
    else if leb pair_expired_days days
    then some (needs_pairing days)
    else some (will_expire days)

-- The state by the age of the last success, of which `now - last > span` is written as a sum.
unfoldable pub by_age : ℕ → ℕ → ℕ → Option ℕ → State
by_age interval_hours overdue_days now none = due
by_age interval_hours overdue_days now (some last) =
    if ltb (last + overdue_days * 86400) now
    then overdue
    else if ltb (last + interval_hours * 3600) now
    then due
    else fine

unfoldable pub by_backup : StatusRow → ℕ → Option BackupInfo → State
unfolding by_age
by_backup row now none = never
by_backup row now (some info) =
    if not info.complete
    then incomplete
    else by_age row.interval_hours row.overdue_days now info.last_backup

unfoldable pub state_of : StatusRow → Option BackupInfo → ℕ → State
unfolding by_backup
state_of row info now =
    if is_text row.last_status "running"
    then if is_text row.last_phase "waiting_for_passcode" then waiting_for_passcode else running
    else by_backup row now info

unfoldable pub last_success : Option BackupInfo → Option ℕ
last_success none = none
last_success (some info) = if info.complete then info.last_backup else none

unfoldable pub status : StatusRow → Option BackupInfo → ℕ → DeviceStatus
unfolding state_of last_success pair_days_unused
status row info now = record {
  state = state_of row info now;
  last_success_at = last_success info;
  next_due_at = elim (last_success info) [
    | none ↦ none
    | some t ↦ some (t + row.interval_hours * 3600)
  ];
  last_run_status = row.last_status;
  last_run_at = row.last_started;
  progress_percent = if is_text row.last_status "running" then row.last_percent else none;
  backup_complete = elim info [ none ↦ none | some i ↦ some i.complete ];
  encrypted = elim info [ none ↦ none | some i ↦ i.encrypted ];
  pair_days_unused = pair_days_unused row.paired_at row.pair_used_at now;
}

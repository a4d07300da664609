-- ===== src/Scheduler/Samples.antt =====
-- Small inputs for src/bioseasy/scheduler.py: one device, one evening, a time zone that is UTC.
use bioseasy.Prelude.{
  ℕ, ◌+◌, ◌-◌, ◌*◌, ◌≤◌, ◌≡◌, refl, ◌↔◌, true, false, none, some, List, [], ◌∷◌, arith, ltb, length,
}
use bioseasy.Clock.{minute, hour, day, TimeZone, time_of_day}
use bioseasy.Scheduler.HourMinute.{parse_hhmm, format_hhmm}
use bioseasy.Scheduler.Window.{covers, in_window, last_start, last_window_start_at_or_before}
use bioseasy.Scheduler.Window.Occurrence.{covers-occurrence, window_length}
use bioseasy.Scheduler.Retry.{next_slot_reached, attempt_allowed}
use bioseasy.Scheduler.Retry.Slots.{Attempts-le_four}
use bioseasy.Scheduler.Decide.{
  DeviceView, Decision, starting, unreachable, sending_reminder, decide, is_due,
}
use bioseasy.Scheduler.Decide.Outcome.{
  MayStart, IsReadable, decide-MayStart, decide-alerts, decide-none_iff,
}
use bioseasy.Ticker.{tick_decision, tick_decision-eq-decide}

abbrev pub utc : TimeZone
utc = record { to_local = λ t. record { wall = t; fold = false }; to_utc = λ l. l.wall }

abbrev evening : ℕ
evening = 700000 * day + 20 * hour + 10 * minute

-- 20:00 to 23:00, every 24 hours, never backed up.
abbrev phone : DeviceView
phone = record {
  interval_hours = 24;
  window_start = some (format_hhmm 20 0);
  window_end = some (format_hhmm 23 0);
  only_when_charging = true;
  overdue_days = 7;
  added_at = some (699999 * day);
  last_success_at = none;
  last_attempt_at = none;
  last_nudge_at = some (699999 * day);
  last_overdue_alert_at = none;
  last_window_notice_at = none;
  running = false;
}

abbrev started : Decision
started = record {
  start_backup = true;
  nudge = false;
  overdue = false;
  reason = starting ∷ [];
  notice = false;
}

decide-phone : decide phone evening utc true (some true) 5 ≡ some started
unfolding decide in_window parse_hhmm covers last_window_start_at_or_before is_due attempt_allowed
decide-phone = refl

abbrev reminded : Decision
reminded = record {
  start_backup = false;
  nudge = true;
  overdue = false;
  reason = unreachable ∷ sending_reminder ∷ [];
  notice = false;
}

decide-away : decide phone evening utc false (some true) 5 ≡ some reminded
unfolding decide in_window parse_hhmm covers last_window_start_at_or_before is_due
decide-away = refl

-- 22:00 to 06:00, at one in the morning.
covers-occurrence_example :
    covers (22 * hour) (6 * hour) (time_of_day (700000 * day + 1 * hour))
    ≡ ltb (700000 * day + 1 * hour) (
        (last_start (utc.to_local (700000 * day + 1 * hour)) (22 * hour)).wall
        + window_length (22 * hour) (6 * hour))
covers-occurrence_example =
    covers-occurrence (utc.to_local (700000 * day + 1 * hour)) (22 * hour) (6 * hour) (omega arith)
      (omega arith) (omega arith)

abbrev tries : List (ℕ × ℕ)
tries =
    (evening, evening)
    ∷ (evening + 20 * minute, evening + 20 * minute)
    ∷ (evening + 50 * minute, evening + 50 * minute)
    ∷ (evening + 110 * minute, evening + 110 * minute)
    ∷ []

Attempts-le_four_example : length tries ≤ 4
unfolding attempt_allowed next_slot_reached
Attempts-le_four_example = Attempts-le_four (evening - 10 * minute) tries refl (
  omega arith,
  refl,
  omega arith,
  (
    omega arith,
    refl,
    omega arith,
    (omega arith, refl, omega arith, (omega arith, refl, omega arith, tt)),
  ),
)

decide-MayStart_example : MayStart phone evening utc true (some true)
decide-MayStart_example = decide-MayStart phone evening utc true (some true) 5 decide-phone refl

decide-alerts_example :
    (reminded.nudge ≡ true → (t : ℕ) → phone.last_nudge_at ≡ some t → t + 24 * hour ≤ evening)
    × (reminded.overdue ≡ true
        → (t : ℕ) → phone.last_overdue_alert_at ≡ some t
        → t + 24 * hour ≤ evening)
    × (reminded.start_backup ≡ true → (reminded.nudge ≡ false) × (reminded.notice ≡ false))
decide-alerts_example = decide-alerts phone evening utc false (some true) 5 decide-away

decide-none_iff_example :
    (decide phone evening utc true none 5 ≡ none)
    ↔ (¬ IsReadable (some (format_hhmm 20 0)) (some (format_hhmm 23 0)))
decide-none_iff_example = decide-none_iff phone evening utc true none 5 refl

tick_decision-eq-decide_example :
    tick_decision phone evening utc true (some false) 5
    ≡ decide phone evening utc true (some false) 5
tick_decision-eq-decide_example = tick_decision-eq-decide phone evening utc true (some false) 5

-- Half past two, with a fullwidth 2 and 0.
parse_hhmm-fullwidth :
    parse_hhmm (b'0' ∷ 65298 ∷ b':' ∷ b'3' ∷ 65296 ∷ []) ≡ some (record { hour = 2; minute = 30 })
unfolding parse_hhmm
parse_hhmm-fullwidth = refl

-- A superscript two is a digit for `isdigit`, and none for `int`.
parse_hhmm-superscript : parse_hhmm (b'0' ∷ 178 ∷ b':' ∷ b'3' ∷ b'0' ∷ []) ≡ none
unfolding parse_hhmm
parse_hhmm-superscript = refl

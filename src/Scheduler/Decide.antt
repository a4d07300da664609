-- ===== src/Scheduler/Decide.antt =====
-- `decide` of src/bioseasy/scheduler.py: one device, at one instant.
pub mod Outcome
use bioseasy.Prelude.{
  ℕ, ◌+◌, ◌-◌, ◌*◌, Bool, true, false, not, ◌&&◌, ◌||◌, Option, none, some, List, [], ◌∷◌, ◌++◌,
  leb, ◌==◌, is_none, if◌then◌else◌,
}
use bioseasy.Clock.{minute, hour, day, Local, TimeZone}
use bioseasy.Scheduler.HourMinute.{Text}
use bioseasy.Scheduler.Window.{
  in_window, last_window_start_at_or_before, window_notice_identity, ◌>>=◌,
}
use bioseasy.Scheduler.Retry.{attempt_allowed}

pub record DeviceView : Type 0 where
  pub interval_hours : ℕ
  pub window_start : Option Text
  pub window_end : Option Text
  pub only_when_charging : Bool
  pub overdue_days : ℕ
  pub added_at : Option ℕ
  pub last_success_at : Option ℕ
  pub last_attempt_at : Option ℕ
  pub last_nudge_at : Option ℕ
  pub last_overdue_alert_at : Option ℕ
  pub last_window_notice_at : Option ℕ
  pub running : Bool

-- The sentences of `Decision.reason`, by name: the cause comes first, the last three are appended.
pub data Sentence : Type 0 where
  already_running nothing_due starting unreachable outside waiting not_charging blocked : Sentence
  overdue_alert_due sending_reminder sending_notice : Sentence

pub record Decision : Type 0 where
  pub start_backup : Bool
  pub nudge : Bool
  pub overdue : Bool
  pub reason : List Sentence
  pub notice : Bool

abbrev overdue_alert_cooldown : ℕ
overdue_alert_cooldown = 24 * hour

-- `now - last >= span`: the difference of two datetimes may be negative, so it is written as a sum.
abbrev pub elapsed : ℕ → ℕ → ℕ → Bool
elapsed last now span = leb (last + span) now

unfoldable pub stale : Option ℕ → ℕ → ℕ → Bool
stale none now threshold = true
stale (some last) now threshold = elapsed last now threshold

-- `charging is True`.
abbrev pub is_charging : Option Bool → Bool
is_charging (some true) = true
is_charging (some false) = false
is_charging none = false

unfoldable pub is_due : DeviceView → ℕ → Bool
unfolding stale
is_due d now = stale d.last_success_at now (d.interval_hours * hour)

abbrev local_wall : TimeZone → Option ℕ → Option ℕ
local_wall tz none = none
local_wall tz (some t) = some (tz.to_local t).wall

-- `attempt_allowed` stays False outside the window; inside it the window's start is set.
attempt_if_inside : DeviceView → TimeZone → ℕ → Bool → Option Text → Option Bool
attempt_if_inside d tz now false start = some false
attempt_if_inside d tz now true none = some false
attempt_if_inside d tz now true (some start) = do
  occurrence ← last_window_start_at_or_before (tz.to_local now) start
  some (attempt_allowed (tz.to_local now).wall occurrence.wall (local_wall tz d.last_attempt_at))

overdue_basis : DeviceView → Option ℕ
overdue_basis d = elim d.last_success_at [ some t ↦ some t | none ↦ d.added_at ]

abbrev overdue_since : Option ℕ → ℕ → ℕ → Bool
overdue_since none now span = false
overdue_since (some t) now span = elapsed t now span

-- `device.last_window_notice_at != next_start_utc`.
abbrev not_noticed : Option ℕ → ℕ → Bool
not_noticed none next = true
not_noticed (some t) next = not (t == next)

-- The lead is compared in microseconds: `0 <= (next - now) / 60 s <= lead minutes`.
notice_at : DeviceView → ℕ → ℕ → ℕ → Bool
notice_at d now lead next =
    leb now next && leb next (now + lead * minute) && not_noticed d.last_window_notice_at next

notice_if_outside : DeviceView → TimeZone → ℕ → ℕ → Bool → Option Text → Option Text → Option Bool
notice_if_outside d tz now lead true (some start) (some end) = do
  next ← window_notice_identity tz start now
  some (notice_at d now lead next)
notice_if_outside d tz now lead _ _ _ = some false

cause : Bool → Bool → Bool → Bool → Bool → Bool → Sentence
cause due start reachable inside allowed charging =
    if not due
    then nothing_due
    else if start
    then starting
    else if not reachable
    then unreachable
    else if not inside
    then outside
    else if not allowed
    then waiting
    else if not charging
    then not_charging
    else blocked

abbrev when : Bool → Sentence → List Sentence
when true s = s ∷ []
when false s = []

-- `none` is the ValueError of a malformed window.
unfoldable pub decide : DeviceView → ℕ → TimeZone → Bool → Option Bool → ℕ → Option Decision
unfolding attempt_if_inside overdue_basis notice_at notice_if_outside cause
decide d now tz reachable charging lead =
    if d.running
    then some (record {
      start_backup = false;
      nudge = false;
      overdue = false;
      reason = already_running ∷ [];
      notice = false;
    })
    else do
      let due = is_due d now
      inside ← in_window (tz.to_local now) d.window_start d.window_end
      let charging_ok = not d.only_when_charging || is_charging charging
      allowed ← attempt_if_inside d tz now inside d.window_start
      let start = due && (reachable && (inside && (charging_ok && allowed)))
      let nudge = due && (not start && stale d.last_nudge_at now (d.interval_hours * hour))
      let span = overdue_since (overdue_basis d) now (d.overdue_days * day)
      let overdue = span && stale d.last_overdue_alert_at now overdue_alert_cooldown
      notice ← notice_if_outside d tz now lead (due && not inside) d.window_start d.window_end
      some (record {
        start_backup = start;
        nudge = nudge;
        overdue = overdue;
        reason =
            cause due start reachable inside allowed charging_ok
            ∷ (when overdue overdue_alert_due
                ++ (when nudge sending_reminder ++ when notice sending_notice));
        notice = notice;
      })

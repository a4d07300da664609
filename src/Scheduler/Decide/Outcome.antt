-- ===== src/Scheduler/Decide/Outcome.antt =====
-- What `decide` of src/bioseasy/scheduler.py answers.
use bioseasy.Prelude.{
  ℕ, ◌+◌, ◌*◌, ◌≤◌, ◌≡◌, refl, ◌≢◌, ◌↔◌, ◌⊎◌, inl, inr, Bool, true, false, Option, none, some,
  arith, Option-cases,
}
use bioseasy.Clock.{hour, TimeZone}
use bioseasy.Scheduler.HourMinute.{Text, HourMinute, parse_hhmm}
use bioseasy.Scheduler.Window.{
  clock, in_window, last_start, last_window_start_at_or_before, next_window_start_after_or_at,
  window_notice_identity,
}
use bioseasy.Scheduler.Retry.{attempt_allowed}
use bioseasy.Scheduler.Decide.{window_notice_identity, DeviceView, Decision, decide, is_due, stale}

-- What a scheduled start needs.
pub record MayStart (d : DeviceView) (now : ℕ) (tz : TimeZone) (reachable : Bool)
    (charging : Option Bool) : Type 0 where
  pub idle : d.running ≡ false
  pub due : (t : ℕ) → d.last_success_at ≡ some t → t + d.interval_hours * hour ≤ now
  pub reached : reachable ≡ true
  pub inside : in_window (tz.to_local now) d.window_start d.window_end ≡ some true
  pub charged : (d.only_when_charging ≡ false) ⊎ (charging ≡ some true)
  pub allowed :
      (start : Text) (t : HourMinute)
      → d.window_start ≡ some start
      → parse_hhmm start ≡ some t
      → (d.last_attempt_at ≡ none)
        ⊎ ((last : ℕ) × (d.last_attempt_at ≡ some last)
            × (attempt_allowed
                  (tz.to_local now).wall
                  (last_start (tz.to_local now) (clock t)).wall
                  (some (tz.to_local last).wall)
                ≡ true))

module _ (d : DeviceView) (now : ℕ) (tz : TimeZone) (reachable : Bool) (charging : Option Bool)
    (lead : ℕ) {r : Decision} (decided : decide d now tz reachable charging lead ≡ some r) where
  start_idle : r.start_backup ≡ true → (d.running ≡ false) × (reachable ≡ true)
  unfolding decide
  start_idle s = ground arith

  start_due :
      r.start_backup ≡ true
      → (t : ℕ) → d.last_success_at ≡ some t
      → t + d.interval_hours * hour ≤ now
  unfolding decide is_due
  start_due s t e = ground arith

  start_inside :
      r.start_backup ≡ true → in_window (tz.to_local now) d.window_start d.window_end ≡ some true
  unfolding decide
  start_inside s = ground arith

  start_charged : r.start_backup ≡ true → (d.only_when_charging ≡ false) ⊎ (charging ≡ some true)
  unfolding decide
  start_charged s = ground arith

  start_allowed :
      r.start_backup ≡ true
      → (start : Text) (t : HourMinute) → d.window_start ≡ some start
      → parse_hhmm start ≡ some t
      → (d.last_attempt_at ≡ none)
        ⊎ ((last : ℕ) × (d.last_attempt_at ≡ some last)
            × (attempt_allowed
                  (tz.to_local now).wall
                  (last_start (tz.to_local now) (clock t)).wall
                  (some (tz.to_local last).wall)
                ≡ true))
  unfolding decide last_window_start_at_or_before
  start_allowed s start t e p = ground arith

  -- A scheduled start happens only for an idle, due, reachable device, inside its window, on the
  -- charger where that is required, and in a slot of the occurrence with no attempt yet.
  pub decide-MayStart : r.start_backup ≡ true → MayStart d now tz reachable charging
  decide-MayStart s = record {
    idle = (start_idle s).0;
    due = start_due s;
    reached = (start_idle s).1;
    inside = start_inside s;
    charged = start_charged s;
    allowed = start_allowed s;
  }

  -- The alerts of one decision: a reminder at most once per interval, an overdue alert at most
  -- once per 24 hours, and neither a reminder nor a notice beside a start.
  pub decide-alerts :
      (r.nudge ≡ true → (t : ℕ) → d.last_nudge_at ≡ some t → t + d.interval_hours * hour ≤ now)
      × (r.overdue ≡ true → (t : ℕ) → d.last_overdue_alert_at ≡ some t → t + 24 * hour ≤ now)
      × (r.start_backup ≡ true → (r.nudge ≡ false) × (r.notice ≡ false))
  unfolding decide stale is_due
  decide-alerts = (λ n t e. ground arith, λ o t e. ground arith, λ s. ground arith)

-- A window that `decide` can read: unset, or two times of day.
abbrev pub IsReadable : Option Text → Option Text → Type 0
IsReadable none none = Unit
IsReadable (some start) (some end) =
    ((s : HourMinute) × (parse_hhmm start ≡ some s))
    × ((e : HourMinute) × (parse_hhmm end ≡ some e))
IsReadable _ _ = ⊥

module _ (d : DeviceView) (now : ℕ) (tz : TimeZone) (reachable : Bool) (charging : Option Bool)
    (lead : ℕ) where
  readable_cases :
      (start end : Option Text)
      → d.window_start ≡ start
      → d.window_end ≡ end
      → IsReadable start end
      → decide d now tz reachable charging lead ≢ none
  unfolding decide in_window last_window_start_at_or_before window_notice_identity
      next_window_start_after_or_at
  readable_cases none none p q ok = ground arith
  readable_cases (some start) (some end) p q ok = ground arith
  readable_cases none (some end) p q ok = absurd ok
  readable_cases (some start) none p q ok = absurd ok

  unreadable_cases :
      (start end : Option Text)
      → d.window_start ≡ start
      → d.window_end ≡ end
      → d.running ≡ false
      → ¬ IsReadable start end
      → decide d now tz reachable charging lead ≡ none
  unfolding decide in_window last_window_start_at_or_before window_notice_identity
      next_window_start_after_or_at
  unreadable_cases none none p q idle bad = absurd (bad tt)
  unreadable_cases (some start) (some end) p q idle bad = elim (Option-cases (parse_hhmm start)) [
    | inl e ↦ ground arith
    | inr (s, e) ↦ elim (Option-cases (parse_hhmm end)) [
      | inl f ↦ ground arith
      | inr (t, f) ↦ absurd (bad ((s, e), (t, f)))
    ]
  ]
  unreadable_cases none (some end) p q idle bad = ground arith
  unreadable_cases (some start) none p q idle bad = ground arith

  -- For a device that is not running a backup, `decide` raises exactly when its window cannot be
  -- read.
  pub decide-none_iff :
      d.running ≡ false
      → (decide d now tz reachable charging lead ≡ none)
        ↔ (¬ IsReadable d.window_start d.window_end)
  decide-none_iff idle = (
    λ raised ok. readable_cases d.window_start d.window_end refl refl ok raised,
    unreadable_cases d.window_start d.window_end refl refl idle,
  )

-- ===== src/Ticker.antt =====
-- src/bioseasy/ticker.py: one round of the schedule.
pub mod Round
use bioseasy.Prelude.{ℕ, ◌≡◌, Bool, true, ◌&&◌, Option, none, some, arith, if◌then◌else◌}
use bioseasy.Clock.{TimeZone}
use bioseasy.Scheduler.Window.{◌>>=◌}
use bioseasy.Scheduler.Decide.{DeviceView, Decision, decide}

-- The `try` body of `tick` for one device: the charging state is probed only if a decision that
-- takes it for charging would start.
probe_if : DeviceView → Decision → Option Bool → Option Bool
probe_if d optimistic probe =
    if d.only_when_charging && optimistic.start_backup then probe else none

unfoldable pub tick_decision : DeviceView → ℕ → TimeZone → Bool → Option Bool → ℕ → Option Decision
unfolding probe_if
tick_decision d now tz reachable probe lead =
    if d.only_when_charging
    then (do
      optimistic ← decide d now tz reachable (some true) lead
      decide d now tz reachable (probe_if d optimistic probe) lead)
    else decide d now tz reachable none lead

-- Leaving the probe out changes no decision.
pub tick_decision-eq-decide :
    (d : DeviceView) (now : ℕ) (tz : TimeZone) (reachable : Bool) (probe : Option Bool) (lead : ℕ)
    → tick_decision d now tz reachable probe lead ≡ decide d now tz reachable probe lead
unfolding tick_decision decide
tick_decision-eq-decide d now tz reachable probe lead = ground arith

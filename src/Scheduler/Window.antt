-- ===== src/Scheduler/Window.antt =====
-- The window of src/bioseasy/scheduler.py: `in_window`, and the instants at which the current and
-- the next occurrence of a window begin. `none` is a ValueError.
pub mod Occurrence
use bioseasy.Prelude.{
  ℕ, zero, suc, ◌+◌, ◌-◌, ◌*◌, ◌/◌, ◌%◌, ◌^◌, ◌≤◌, ◌<◌, String, ◌≡◌, refl, sym, ap, ◌∙◌, subst, ◌≢◌,
  ◌↔◌, ◌⊎◌, inl, inr, Bool, true, false, not, ◌&&◌, ◌||◌, Option, none, some, List, [], ◌∷◌, ◌++◌,
  map, arith, str_eq, eq_iff, ltb, leb, ◌==◌, if◌then◌else◌, ltb→lt, leb→le, lt→ltb, le→leb,
  Bool-cases, Option-cases, is_none, length, length-append, All,
}
use bioseasy.Clock.{minute, day, Local, TimeZone, time_of_day, at_fold_0}
use bioseasy.Scheduler.HourMinute
use bioseasy.Scheduler.HourMinute.{Text, HourMinute, parse_hhmm}

infixl 5 ◌>>=◌
abbrev pub ◌>>=◌ {ℓ κ} : {A : Type ℓ} {B : Type κ} → Option A → (A → Option B) → Option B
none >>= f = none
some a >>= f = f a

-- A `datetime.time` in microseconds since midnight.
abbrev pub clock : HourMinute → ℕ
clock t = (t.hour * 60 + t.minute) * minute

-- The comparison of `in_window` once both bounds are parsed.
unfoldable pub covers : ℕ → ℕ → ℕ → Bool
covers start end now =
    if start == end
    then true
    else if ltb start end
    then leb start now && ltb now end
    else leb start now || ltb now end

unfoldable pub in_window : Local → Option Text → Option Text → Option Bool
in_window now none none = some false
in_window now none (some end) = none
in_window now (some start) none = none
in_window now (some start) (some end) = do
  s ← parse_hhmm start
  e ← parse_hhmm end
  some (covers (clock s) (clock e) (time_of_day now.wall))

-- `now_local.replace(hour, minute, second=0, microsecond=0)` keeps the date and the fold.
abbrev pub at_clock : Local → ℕ → Local
at_clock now c = record now { wall = now.wall - time_of_day now.wall + c }

unfoldable pub last_start : Local → ℕ → Local
last_start now c =
    let candidate = at_clock now c in
    if ltb now.wall candidate.wall then at_fold_0 (candidate.wall - day) else candidate

unfoldable pub next_start : Local → ℕ → Local
next_start now c =
    let candidate = at_clock now c in
    if ltb candidate.wall now.wall then at_fold_0 (candidate.wall + day) else candidate

unfoldable pub last_window_start_at_or_before : Local → Text → Option Local
last_window_start_at_or_before now start = do t ← parse_hhmm start; some (last_start now (clock t))

unfoldable pub next_window_start_after_or_at : Local → Text → Option Local
next_window_start_after_or_at now start = do t ← parse_hhmm start; some (next_start now (clock t))

unfoldable pub window_notice_identity : TimeZone → Text → ℕ → Option ℕ
window_notice_identity tz start now = do
  next ← next_window_start_after_or_at (tz.to_local now) start
  some (tz.to_utc next)

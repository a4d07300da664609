-- ===== src/Scheduler/Window/Occurrence.antt =====
-- A window of src/bioseasy/scheduler.py as an arc of the day that starts at one instant.
use bioseasy.Prelude.{ℕ, ◌+◌, ◌-◌, ◌%◌, ◌≤◌, ◌<◌, ◌≡◌, arith, ltb, ◌==◌, if◌then◌else◌}
use bioseasy.Clock.{day, Local, time_of_day}
use bioseasy.Scheduler.Window.{covers, last_start, next_start}

-- How long a window lasts: the way from its start on to its end, and a day where they are equal.
abbrev pub window_length : ℕ → ℕ → ℕ
window_length start end = if start == end then day else (end + day - start) % day

pub last_start_bounds :
    (now : Local) (c : ℕ)
    → c < day
    → day ≤ now.wall
    → ((last_start now c).wall ≤ now.wall)
      × (now.wall < (last_start now c).wall + day)
      × (time_of_day (last_start now c).wall ≡ c)
unfolding last_start
last_start_bounds now c hc hd = ground arith

pub next_start_bounds :
    (now : Local) (c : ℕ)
    → c < day
    → (now.wall ≤ (next_start now c).wall)
      × ((next_start now c).wall < now.wall + day)
      × (time_of_day (next_start now c).wall ≡ c)
unfolding next_start
next_start_bounds now c hc = ground arith

-- The window covers a time of day exactly when that time lies within the window's length after
-- its start, on a clock that goes round at midnight.
pub covers-eq-arc :
    (s e now : ℕ)
    → s < day
    → e < day
    → now < day
    → covers s e now ≡ ltb ((now + day - s) % day) (window_length s e)
unfolding covers
covers-eq-arc s e now hs he hn = ground arith

-- For bounds that are times of day and a clock past the first day, a window covers the clock exactly
-- when less than the window's length has passed since the occurrence began that the code finds.
pub covers-occurrence :
    (now : Local) (s e : ℕ)
    → s < day
    → e < day
    → day ≤ now.wall
    → covers s e (time_of_day now.wall) ≡ ltb now.wall ((last_start now s).wall + window_length s e)
unfolding covers last_start
covers-occurrence now s e hs he hd = ground arith

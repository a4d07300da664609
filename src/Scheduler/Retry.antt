-- ===== src/Scheduler/Retry.antt =====
-- `_attempt_allowed` of src/bioseasy/scheduler.py: the attempts within one window occurrence.
pub mod Slots
use bioseasy.Prelude.{
  ℕ, ◌+◌, ◌-◌, ◌*◌, Bool, true, false, List, [], ◌∷◌, Option, none, some, ltb, leb, if◌then◌else◌,
}
use bioseasy.Clock.{minute}

abbrev pub retry_offsets : List ℕ
retry_offsets = 0 ∷ 30 * minute ∷ 60 * minute ∷ 120 * minute ∷ []

-- The `for` loop: the first offset past the last attempt decides.
unfoldable pub next_slot_reached : List ℕ → ℕ → ℕ → ℕ → Bool
next_slot_reached [] elapsed start now = false
next_slot_reached (offset ∷ rest) elapsed start now =
    let later = next_slot_reached rest elapsed start now in
    if ltb elapsed offset then leb (start + offset) now else later

-- The arguments are wall clocks of one time zone.
unfoldable pub attempt_allowed : ℕ → ℕ → Option ℕ → Bool
attempt_allowed now start none = true
attempt_allowed now start (some last) =
    if ltb last start then true else next_slot_reached retry_offsets (last - start) start now

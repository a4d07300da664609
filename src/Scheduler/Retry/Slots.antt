-- ===== src/Scheduler/Retry/Slots.antt =====
-- The retry schedule of src/bioseasy/scheduler.py as four slots of a window occurrence.
use bioseasy.Prelude.{
  ℕ, ◌+◌, ◌-◌, ◌*◌, ◌/◌, ◌%◌, ◌≤◌, ◌<◌, ◌≡◌, true, Option, none, some, List, [], ◌∷◌, arith, ltb,
  if◌then◌else◌, length,
}
use bioseasy.Clock.{second, minute}
use bioseasy.Scheduler.Retry.{attempt_allowed, next_slot_reached}

-- How many of the four slots have begun, the given time after the occurrence began.
abbrev pub slot : ℕ → ℕ
slot t =
    if ltb t (30 * minute)
    then 1
    else if ltb t (60 * minute)
    then 2
    else if ltb t (120 * minute)
    then 3
    else 4

-- For a last attempt inside the occurrence and not later than now, a new attempt is allowed exactly when
-- more of the four slots have begun by now than had at the last attempt.
pub attempt_allowed-eq-slot :
    (now start last : ℕ)
    → start ≤ last
    → last ≤ now
    → attempt_allowed now start (some last) ≡ ltb (slot (last - start)) (slot (now - start))
unfolding attempt_allowed next_slot_reached
attempt_allowed-eq-slot now start last h k = ground arith

pub slot-lt_of_attempt_allowed :
    (now start last : ℕ)
    → start ≤ last
    → attempt_allowed now start (some last) ≡ true
    → slot (last - start) < slot (now - start)
unfolding attempt_allowed next_slot_reached
slot-lt_of_attempt_allowed now start last h k = ground arith

-- Attempts of one occurrence, in order: the wall clock at which each was allowed, and the start
-- that its run row records, which is cut to a whole second.
abbrev pub Attempts : ℕ → Option ℕ → List (ℕ × ℕ) → Type 0
Attempts start previous [] = Unit
Attempts start previous ((allowed, recorded) ∷ rest) =
    (start ≤ allowed)
    × (attempt_allowed allowed start previous ≡ true)
    × (allowed / second * second ≤ recorded)
    × Attempts start (some recorded) rest

slot_recorded :
    (start allowed recorded : ℕ)
    → start % second ≡ 0
    → start ≤ allowed
    → allowed / second * second ≤ recorded
    → (start ≤ recorded) × (slot (allowed - start) ≤ slot (recorded - start))
slot_recorded start allowed recorded whole h k = ground arith

Attempts-after :
    (start last : ℕ) (attempts : List (ℕ × ℕ))
    → start % second ≡ 0
    → start ≤ last
    → Attempts start (some last) attempts
    → slot (last - start) + length attempts ≤ 4
Attempts-after start last [] whole h a = ground arith
Attempts-after start last ((allowed, recorded) ∷ rest) whole h a =
    let (started, later) = slot_recorded start allowed recorded whole a.0 a.2 in
    let step = slot-lt_of_attempt_allowed allowed start last h a.1 in
    let ih = Attempts-after start recorded rest whole started a.3 in omega arith

pub slot_pos : (t : ℕ) → 0 < slot t
slot_pos t = ground arith

-- An occurrence that begins on a whole second sees at most four attempts.
pub Attempts-le_four :
    (start : ℕ) (attempts : List (ℕ × ℕ))
    → start % second ≡ 0
    → Attempts start none attempts
    → length attempts ≤ 4
Attempts-le_four start [] whole a = omega arith
Attempts-le_four start ((allowed, recorded) ∷ rest) whole a =
    let (started, later) = slot_recorded start allowed recorded whole a.0 a.2 in
    omega (arith, slot_pos (recorded - start), Attempts-after start recorded rest whole started a.3)

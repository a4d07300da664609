-- ===== src/Devices/Setup/Detection.antt =====
-- How often src/bioseasy/runtime.py lets a device's setup be detected again.
use bioseasy.Prelude.{
  is_none, ◌&&◌, if◌then◌else◌, ℕ, ◌+◌, ◌≤◌, ◌<◌, String, ◌≡◌, refl, ap, ◌∙◌, ◌≢◌, Bool, true,
  false, Option, none, some, List, [], ◌∷◌, arith, eq_iff,
}
use bioseasy.Devices.Setup.{SetupTables, DetectState, used_if, internal_error, mark_pair_used}
use bioseasy.Devices.Setup.Detect.{
  Found, setup_detect_state, set_detection, setup_detect_cooldown, due_after, due_of,
  setup_detect_due, mark_setup_detect_running, detected, ended, unreachable, run_setup_detect,
}

state-set :
    (udid : String) (state : DetectState) (l : List (String × DetectState))
    → setup_detect_state udid (set_detection udid state l) ≡ some state
unfolding setup_detect_state set_detection
state-set udid state [] = ground (arith, eq_iff udid udid)
state-set udid state ((k, d) ∷ rest) = ground (arith, eq_iff k udid, state-set udid state rest)

state-set_other :
    (udid other : String) (state : DetectState) (l : List (String × DetectState))
    → other ≢ udid
    → setup_detect_state udid (set_detection other state l) ≡ setup_detect_state udid l
unfolding setup_detect_state set_detection
state-set_other udid other state [] differ = ground (arith, eq_iff other udid)
state-set_other udid other state ((k, d) ∷ rest) differ =
    ground (arith, eq_iff k udid, eq_iff k other, state-set_other udid other state rest differ)

-- What may come after a detection was marked as running at `start`: it may end, any number of
-- times and at any later time, and detections of other devices may be marked and end.
pub data Later (udid : String) (start : ℕ) (t : SetupTables) : SetupTables → Type 0 where
  here : Later udid start t t
  ends :
      {mid : SetupTables} (found : Found) (used : Bool) (now : ℕ)
      → start ≤ now
      → Later udid start t mid
      → Later udid start t (run_setup_detect udid found used now mid)
  other_marked :
      {mid : SetupTables} (other : String) (now : ℕ)
      → other ≢ udid
      → Later udid start t mid
      → Later udid start t (mark_setup_detect_running other now mid)
  other_ends :
      {mid : SetupTables} (other : String) (found : Found) (used : Bool) (now : ℕ)
      → other ≢ udid
      → Later udid start t mid
      → Later udid start t (run_setup_detect other found used now mid)

-- The state was written at `start` or later.
abbrev WrittenSince : String → ℕ → SetupTables → Type 0
WrittenSince udid start t =
    (d : DetectState) × (at : ℕ) × (setup_detect_state udid t.detections ≡ some d)
    × (d.updated_at ≡ some at)
    × (start ≤ at)

used-detections :
    (used : Bool) (udid : String) (now : ℕ) (t : SetupTables)
    → (used_if used udid now t).detections ≡ t.detections
unfolding used_if mark_pair_used
used-detections true udid now t = refl
used-detections false udid now t = refl

run-detections :
    (udid : String) (found : Found) (used : Bool) (now : ℕ) (t : SetupTables)
    → (d : DetectState) × (d.updated_at ≡ some now)
      × ((run_setup_detect udid found used now t).detections ≡ set_detection udid d t.detections)
unfolding run_setup_detect detected ended
run-detections udid none used now t =
    let state = ended true (some internal_error) now in
    (state, refl, ap (set_detection udid state) (used-detections used udid now t))
run-detections udid (some (by_wifi, encrypted)) used now t =
    let state =
      ended false (if is_none by_wifi && is_none encrypted then some unreachable else none) now in
    (state, refl, ap (set_detection udid state) (used-detections used udid now t))

Later-WrittenSince :
    {udid : String} {start : ℕ} {t : SetupTables} {later : SetupTables}
    → WrittenSince udid start t
    → Later udid start t later
    → WrittenSince udid start later
unfolding mark_setup_detect_running
Later-WrittenSince w here = w
Later-WrittenSince {udid} w (ends {mid} found used now le before) =
    let (d, at, same) = run-detections udid found used now mid in
    (d, now, ap (setup_detect_state udid) same ∙ state-set udid d mid.detections, at, le)
Later-WrittenSince {udid} w (other_marked {mid} other now differ before) =
    let (d, at, e, f, le) = Later-WrittenSince w before in
    (d, at, state-set_other udid other _ mid.detections differ ∙ e, f, le)
Later-WrittenSince {udid} w (other_ends {mid} other found used now differ before) =
    let (d, at, e, f, le) = Later-WrittenSince w before in
    let (d', _, same) = run-detections other found used now mid in
    (
      d,
      at,
      ap (setup_detect_state udid) same ∙ state-set_other udid other d' mid.detections differ ∙ e,
      f,
      le,
    )

recent-due :
    (running : Bool) (o : Option ℕ) (at now start : ℕ)
    → o ≡ some at
    → start ≤ at
    → now < start + setup_detect_cooldown
    → due_after running o now ≡ false
unfolding due_after
recent-due true none at now start e le h = ground arith
recent-due true (some b) at now start e le h = ground arith
recent-due false none at now start e le h = ground arith
recent-due false (some b) at now start e le h = ground arith

-- For ten minutes after a device's detection was marked as running, no further one is due,
-- whether it is still running or has ended, and whatever happens with other devices.
pub setup_detect_due-apart :
    (udid : String) (start now : ℕ) (t later : SetupTables)
    → Later udid start (mark_setup_detect_running udid start t) later
    → now < start + setup_detect_cooldown
    → setup_detect_due udid later now ≡ false
unfolding setup_detect_due due_of mark_setup_detect_running
setup_detect_due-apart udid start now t later steps h =
    let marked : WrittenSince udid start (mark_setup_detect_running udid start t) =
      (_, start, state-set udid _ t.detections, refl, omega arith) in
    let (d, at, e, f, le) = Later-WrittenSince marked steps in
    ap (λ o. due_of o now) e ∙ recent-due d.is_running d.updated_at at now start f le h

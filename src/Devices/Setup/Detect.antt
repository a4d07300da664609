-- ===== src/Devices/Setup/Detect.antt =====
-- The detection of src/bioseasy/runtime.py of what is already on, and what a backup confirms.
use bioseasy.Prelude.{
  ℕ, ◌-◌, String, Bool, true, false, not, ◌&&◌, Option, none, some, List, [], ◌∷◌, str_eq, leb,
  if◌then◌else◌, is_none,
}
use bioseasy.Devices.Setup.{
  DeviceMarks, DetectState, SetupTables, internal_error, update_device, used_if,
}

-- COALESCE(column, ?)
abbrev pub or_now : Option ℕ → ℕ → Option ℕ
or_now none now = some now
or_now (some t) now = some t

set_wifi : String → ℕ → List DeviceMarks → List DeviceMarks
set_wifi udid now =
    update_device udid (λ d. record d { wifi_enabled_at = or_now d.wifi_enabled_at now })

set_encryption : String → ℕ → List DeviceMarks → List DeviceMarks
set_encryption udid now =
    update_device udid
      (λ d. record d { encryption_enabled_at = or_now d.encryption_enabled_at now })

-- Both columns, each where its test holds.
set_both : String → Bool → Bool → ℕ → List DeviceMarks → List DeviceMarks
unfolding set_wifi set_encryption
set_both udid by_wifi encrypted now devices =
    let devices' = if by_wifi then set_wifi udid now devices else devices in
    if encrypted then set_encryption udid now devices' else devices'

unfoldable pub mark_setup_confirmed_from_backup :
    String → Bool → Bool → ℕ → SetupTables → SetupTables
unfolding set_both
mark_setup_confirmed_from_backup udid by_wifi encrypted now t =
    if not by_wifi && not encrypted
    then t
    else record t { devices = set_both udid by_wifi encrypted now t.devices }

unfoldable pub setup_detect_state : String → List (String × DetectState) → Option DetectState
setup_detect_state udid [] = none
setup_detect_state udid ((k, d) ∷ rest) =
    if str_eq k udid then some d else setup_detect_state udid rest

unfoldable pub set_detection :
    String → DetectState → List (String × DetectState) → List (String × DetectState)
set_detection udid state [] = (udid, state) ∷ []
set_detection udid state ((k, d) ∷ rest) =
    if str_eq k udid then (k, state) ∷ rest else (k, d) ∷ set_detection udid state rest

abbrev pub setup_detect_cooldown : ℕ
setup_detect_cooldown = 600

abbrev pub setup_detect_stuck_after : ℕ
setup_detect_stuck_after = 3600

unfoldable pub due_after : Bool → Option ℕ → ℕ → Bool
due_after true none now = false
due_after true (some at) now = leb setup_detect_stuck_after (now - at)
due_after false none now = true
due_after false (some at) now = leb setup_detect_cooldown (now - at)

unfoldable pub due_of : Option DetectState → ℕ → Bool
unfolding due_after
due_of none now = true
due_of (some d) now = due_after d.is_running d.updated_at now

unfoldable pub setup_detect_due : String → SetupTables → ℕ → Bool
unfolding due_of
setup_detect_due udid t now = due_of (setup_detect_state udid t.detections) now

unfoldable pub mark_setup_detect_running : String → ℕ → SetupTables → SetupTables
mark_setup_detect_running udid now t = record t {
  detections =
      set_detection udid
        (record { is_running = true; has_failed = false; message = none; updated_at = some now })
        t.detections;
}

-- What `detect_setup_state` finds: none is "could not be confirmed". `none` for the pair is an
-- exception.
abbrev pub Found : Type 0
Found = Option (Option Bool × Option Bool)

is_confirmed : Option Bool → Bool
is_confirmed none = false
is_confirmed (some b) = b

abbrev pub unreachable : String
unreachable = "Could not reach the device to check its current state."

unfoldable pub ended : Bool → Option String → ℕ → DetectState
ended crash message now = record {
  is_running = false;
  has_failed = crash;
  message = message;
  updated_at = some now;
}

unfoldable pub detected : String → Found → ℕ → SetupTables → SetupTables
unfolding set_both is_confirmed ended
detected udid none now t = record t {
  detections = set_detection udid (ended true (some internal_error) now) t.detections;
}
detected udid (some (by_wifi, encrypted)) now t = record t {
  devices = set_both udid (is_confirmed by_wifi) (is_confirmed encrypted) now t.devices;
  detections =
      set_detection udid
        (ended false (if is_none by_wifi && is_none encrypted then some unreachable else none) now)
        t.detections;
}

unfoldable pub run_setup_detect : String → Found → Bool → ℕ → SetupTables → SetupTables
unfolding detected used_if
run_setup_detect udid found used now t = detected udid found now (used_if used udid now t)

-- ===== src/Devices/Samples.antt =====
-- Concrete settings and setup steps for src/bioseasy/defaults.py, discovery.py and runtime.py.
use bioseasy.Prelude.{
  ℕ, zero, suc, String, ◌≡◌, refl, ap, ◌∙◌, ◌≢◌, ◌⊎◌, true, false, none, some, [], ◌∷◌, arith, All,
}
use Prim.Native.String.{◌++◌ as str_append, count}
use text.Mathlib.TextLemmas.{length-append as count-append}
use bioseasy.Devices.Defaults.{Numerals, GlobalDefaults, get_global_defaults, set_global_defaults}
use bioseasy.Devices.Defaults.RoundTrip.{get_global_defaults-set}
use bioseasy.Devices.Discovery.{
  DeviceSeen, Added, ScanTables, wifi, refresh_seen_devices, added_of, seen_of,
}
use bioseasy.Devices.Discovery.Scans.{Keeps, IsLast, refresh_seen_devices-Keeps}
use bioseasy.Devices.Setup.{
  Step, encryption, done, SetupTables, action_of, mark_setup_action_running, returned,
}
use bioseasy.Devices.Setup.Detect.{mark_setup_detect_running, run_setup_detect, setup_detect_due}
use bioseasy.Devices.Setup.Ends.{run_step, ended_as, run_step-ends}
use bioseasy.Devices.Setup.Detection.{here, ends, setup_detect_due-apart}

-- Numerals of strokes.
tally : ℕ → String
tally zero = ""
tally (suc n) = str_append "1" (tally n)

abbrev strokes : Numerals
strokes = record { str = tally; int = λ s. some (count s) }

count-tally : (k : ℕ) → count (tally k) ≡ k
unfolding tally
count-tally zero = refl
count-tally (suc k) = count-append "1" (tally k) ∙ omega (arith, count-tally k)

abbrev defaults : GlobalDefaults
defaults = record {
  window_start = "21:00";
  window_end = "06:00";
  only_when_charging = false;
  interval_hours = 12;
  overdue_days = 3;
  retention = record {
    keep_last = 1;
    keep_daily = 2;
    keep_weekly = 3;
    keep_monthly = 4;
    keep_yearly = 5;
  };
  free_space_threshold_gb = 20;
  notice_lead_minutes = 10;
}

get_global_defaults-set_example :
    get_global_defaults strokes (set_global_defaults strokes [] defaults) ≡ defaults
get_global_defaults-set_example =
    get_global_defaults-set strokes [] defaults (λ k. ap some (count-tally k))

abbrev no_setup : SetupTables
no_setup = record { actions = []; pairings = []; netchecks = []; devices = []; detections = [] }

run_step-ends_example :
    (action_of "a" encryption
        (run_step encryption "a" returned true 60
          (mark_setup_action_running "a" encryption 5 no_setup)).actions
      ≡ some
          (record { udid = "a"; step = encryption; state = done; message = none; updated_at = 60 }))
    × ((udid' : String) (step' : Step)
        → ("a" ≢ udid') ⊎ (encryption ≢ step')
        → action_of udid' step'
            (run_step encryption "a" returned true 60
              (mark_setup_action_running "a" encryption 5 no_setup)).actions
          ≡ action_of udid' step' no_setup.actions)
unfolding ended_as
run_step-ends_example = run_step-ends encryption "a" returned true 5 60 no_setup

-- A detection that started at 5 and found nothing at 60 is not due again at 600.
setup_detect_due-apart_example :
    setup_detect_due "a"
      (run_setup_detect "a" none false 60 (mark_setup_detect_running "a" 5 no_setup))
      600
    ≡ false
setup_detect_due-apart_example =
    setup_detect_due-apart "a" 5 600 no_setup
      (run_setup_detect "a" none false 60 (mark_setup_detect_running "a" 5 no_setup))
      (ends none false 60 (omega arith) here) (omega arith)

abbrev phone : DeviceSeen
phone = record {
  udid = "a";
  name = some "iPhone";
  product_type = some "iPhone15,2";
  os_version = none;
  transport = wifi;
  paired = true;
}

abbrev before_scan : ScanTables
before_scan = record {
  seen = [];
  added =
      record {
        udid = "a";
        name = some "Anna's phone";
        name_custom = true;
        product_type = none;
        os_version = some "18.1";
      }
      ∷ [];
}

refresh_seen_devices-Keeps_example :
    ((udid : String) (a : Added)
      → added_of udid before_scan.added ≡ some a
      → (later : Added) × (added_of udid (refresh_seen_devices (phone ∷ []) 100 before_scan).added
          ≡ some later)
        × Keeps a later)
    × ((udid : String)
        → All (λ (d : DeviceSeen). d.udid ≢ udid) (phone ∷ [])
        → seen_of udid (refresh_seen_devices (phone ∷ []) 100 before_scan).seen
          ≡ seen_of udid before_scan.seen)
    × ((d : DeviceSeen)
        → IsLast d (phone ∷ [])
        → seen_of d.udid (refresh_seen_devices (phone ∷ []) 100 before_scan).seen
          ≡ some (record { seen = d; last_seen_at = 100 }))
refresh_seen_devices-Keeps_example = refresh_seen_devices-Keeps (phone ∷ []) 100 before_scan

-- ===== src/Devices/Setup.antt =====
-- The background steps of src/bioseasy/runtime.py that set a device up: pairing, Wi-Fi, encryption, the
-- change of the backup password and the connectivity check, with the rows that they write; Detect has
-- the detection of what is already on. What the engine does is an input; a step reads the clock once,
-- in whole seconds. The devices of the rows exist. A detection is the value that its JSON text in the
-- table `settings` stands for.
pub mod Detect
pub mod Ends
pub mod Detection
use bioseasy.Prelude.{
  ℕ, zero, suc, ◌+◌, ◌-◌, ◌*◌, ◌/◌, ◌%◌, ◌^◌, ◌≤◌, ◌<◌, String, ◌≡◌, refl, sym, ap, ◌∙◌, subst, ◌≢◌,
  ◌↔◌, ◌⊎◌, inl, inr, Bool, true, false, not, ◌&&◌, ◌||◌, Option, none, some, List, [], ◌∷◌, ◌++◌,
  map, arith, str_eq, eq_iff, ltb, leb, ◌==◌, if◌then◌else◌, ltb→lt, leb→le, lt→ltb, le→leb,
  Bool-cases, Option-cases, is_none, List-cases, length, length-append, All, if-holds,
}

pub data Step : Type 0 where
  wifi encryption password_change : Step

pub data ActionState : Type 0 where
  running done failed : ActionState

pub record Action : Type 0 where
  pub udid : String
  pub step : Step
  pub state : ActionState
  pub message : Option String
  pub updated_at : ℕ

pub data PairingState : Type 0 where
  pending running done failed : PairingState

pub record Pairing : Type 0 where
  pub udid : String
  pub state : PairingState
  pub message : Option String
  pub updated_at : ℕ

-- `problem` says that the check itself crashed; its steps are texts of the engine.
pub record Netcheck : Type 0 where
  pub udid : String
  pub finished : Bool
  pub problem : Bool
  pub updated_at : ℕ

-- The columns of a device row that the steps write.
pub record DeviceMarks : Type 0 where
  pub udid : String
  pub wifi_enabled_at : Option ℕ
  pub encryption_enabled_at : Option ℕ
  pub password_checked_at : Option ℕ
  pub password_check_result : Option String
  pub pair_used_at : Option ℕ

pub record DetectState : Type 0 where
  pub is_running : Bool
  pub has_failed : Bool
  pub message : Option String
  pub updated_at : Option ℕ

pub record SetupTables : Type 0 where
  pub actions : List Action
  pub pairings : List Pairing
  pub netchecks : List Netcheck
  pub devices : List DeviceMarks
  pub detections : List (String × DetectState)

-- How a call of the engine ends, and whether a session with the pair record succeeded before.
pub data Call : Type 0 where
  returned crashed : Call
  engine_error : String → Call

abbrev pub internal_error : String
internal_error = "Internal error, see the container log"

unfoldable pub step_eq : Step → Step → Bool
step_eq wifi wifi = true
step_eq encryption encryption = true
step_eq password_change password_change = true
step_eq _ _ = false

unfoldable pub is_action : String → Step → Action → Bool
is_action udid step a = str_eq a.udid udid && step_eq a.step step

-- SELECT * FROM setup_actions WHERE udid = ? AND step = ?
unfoldable pub action_of : String → Step → List Action → Option Action
action_of udid step [] = none
action_of udid step (a ∷ rest) = if is_action udid step a then some a else action_of udid step rest

-- UPDATE setup_actions SET state = ?, message = ?, updated_at = ? WHERE udid = ? AND step = ?
update_action : String → Step → ActionState → Option String → ℕ → List Action → List Action
update_action udid step state message now [] = []
update_action udid step state message now (a ∷ rest) =
    (if is_action udid step a
      then record a { state = state; message = message; updated_at = now }
      else a)
    ∷ update_action udid step state message now rest

-- INSERT … ON CONFLICT(udid, step) DO UPDATE
upsert_running : String → Step → ℕ → List Action → List Action
upsert_running udid step now [] =
    record { udid = udid; step = step; state = running; message = none; updated_at = now } ∷ []
upsert_running udid step now (a ∷ rest) =
    if is_action udid step a
    then record a { state = running; message = none; updated_at = now } ∷ rest
    else a ∷ upsert_running udid step now rest

unfoldable pub mark_setup_action_running : String → Step → ℕ → SetupTables → SetupTables
unfolding upsert_running
mark_setup_action_running udid step now t = record t {
  actions = upsert_running udid step now t.actions;
}

-- UPDATE devices SET … WHERE udid = ?
unfoldable pub update_device :
    String → (DeviceMarks → DeviceMarks) → List DeviceMarks → List DeviceMarks
update_device udid f [] = []
update_device udid f (d ∷ rest) =
    (if str_eq d.udid udid then f d else d) ∷ update_device udid f rest

unfoldable pub device_of : String → List DeviceMarks → Option DeviceMarks
device_of udid [] = none
device_of udid (d ∷ rest) = if str_eq d.udid udid then some d else device_of udid rest

unfoldable pub mark_pair_used : String → ℕ → SetupTables → SetupTables
mark_pair_used udid now t = record t {
  devices = update_device udid (λ d. record d { pair_used_at = some now }) t.devices;
}

unfoldable pub used_if : Bool → String → ℕ → SetupTables → SetupTables
used_if used udid now t = if used then mark_pair_used udid now t else t

setup_action_failed : String → Step → String → ℕ → SetupTables → SetupTables
setup_action_failed udid step message now t = record t {
  actions = update_action udid step failed (some message) now t.actions;
}

setup_action_done : String → Step → (DeviceMarks → DeviceMarks) → ℕ → SetupTables → SetupTables
setup_action_done udid step column now t = record t {
  actions = update_action udid step done none now t.actions;
  devices = update_device udid column t.devices;
}

-- The three handlers of `run_wifi_enable`, `run_encryption_enable` and `run_password_change`.
end_step : String → Step → (DeviceMarks → DeviceMarks) → Call → ℕ → SetupTables → SetupTables
unfolding setup_action_failed setup_action_done update_action
end_step udid step column returned now t = setup_action_done udid step column now t
end_step udid step column crashed now t = setup_action_failed udid step internal_error now t
end_step udid step column (engine_error message) now t = setup_action_failed udid step message now t

unfoldable pub run_wifi_enable : String → Call → Bool → ℕ → SetupTables → SetupTables
unfolding end_step used_if
run_wifi_enable udid call used now t =
    end_step udid wifi (λ d. record d { wifi_enabled_at = some now }) call now
      (used_if used udid now t)

unfoldable pub run_encryption_enable : String → Call → ℕ → SetupTables → SetupTables
unfolding end_step
run_encryption_enable udid call now t =
    end_step udid encryption (λ d. record d { encryption_enabled_at = some now }) call now t

unfoldable pub run_password_change : String → Call → ℕ → SetupTables → SetupTables
unfolding end_step
run_password_change udid call now t =
    end_step udid password_change
      (λ d. record d { password_checked_at = none; password_check_result = none }) call now t

update_pairing : String → PairingState → Option String → ℕ → List Pairing → List Pairing
update_pairing udid state message now [] = []
update_pairing udid state message now (p ∷ rest) =
    (if str_eq p.udid udid
      then record p { state = state; message = message; updated_at = now }
      else p)
    ∷ update_pairing udid state message now rest

pairing_end : Call → PairingState × Option String
pairing_end returned = (done, none)
pairing_end crashed = (failed, some internal_error)
pairing_end (engine_error message) = (failed, some message)

unfoldable pub run_pairing : String → Call → ℕ → SetupTables → SetupTables
unfolding update_pairing pairing_end
run_pairing udid call now t =
    let started = update_pairing udid running none now t.pairings in
    record t {
      pairings = update_pairing udid (pairing_end call).0 (pairing_end call).1 now started;
    }

upsert_netcheck : String → ℕ → List Netcheck → List Netcheck
upsert_netcheck udid now [] =
    record { udid = udid; finished = false; problem = false; updated_at = now } ∷ []
upsert_netcheck udid now (n ∷ rest) =
    if str_eq n.udid udid
    then record n { finished = false; problem = false; updated_at = now } ∷ rest
    else n ∷ upsert_netcheck udid now rest

unfoldable pub mark_netcheck_running : String → ℕ → SetupTables → SetupTables
unfolding upsert_netcheck
mark_netcheck_running udid now t = record t { netchecks = upsert_netcheck udid now t.netchecks }

finish_netcheck : String → Bool → ℕ → List Netcheck → List Netcheck
finish_netcheck udid problem now [] = []
finish_netcheck udid problem now (n ∷ rest) =
    (if str_eq n.udid udid
      then record n { finished = true; problem = problem; updated_at = now }
      else n)
    ∷ finish_netcheck udid problem now rest

has_returned : Call → Bool
has_returned returned = true
has_returned _ = false

-- Every exception of the check, an EngineError too, ends as a problem.
unfoldable pub run_netcheck : String → Call → Bool → ℕ → SetupTables → SetupTables
unfolding finish_netcheck has_returned used_if
run_netcheck udid call used now t =
    let t' = used_if used udid now t in
    record t' { netchecks = finish_netcheck udid (not (has_returned call)) now t'.netchecks }

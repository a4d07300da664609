-- ===== src/Devices/Setup/Ends.antt =====
-- A setup step of src/bioseasy/runtime.py that was marked as running ends.
use bioseasy.Prelude.{
  ◌⊎◌, ◌≢◌, ℕ, String, ◌≡◌, refl, ap, ◌∙◌, inl, inr, Bool, true, false, Option, none, some, List,
  [], ◌∷◌, arith, eq_iff, if◌then◌else◌, Bool-cases,
}
use bioseasy.Devices.Setup.{
  mark_setup_action_running, Step, wifi, encryption, password_change, ActionState, running, done,
  failed, Action, SetupTables, DeviceMarks, Call, returned, crashed, engine_error, internal_error,
  step_eq, is_action, action_of, update_action, upsert_running, end_step, setup_action_failed,
  setup_action_done, used_if, mark_pair_used, run_wifi_enable, run_encryption_enable,
  run_password_change,
}

-- The background call of a step.
unfoldable pub run_step : Step → String → Call → Bool → ℕ → SetupTables → SetupTables
run_step wifi udid call used now t = run_wifi_enable udid call used now t
run_step encryption udid call used now t = run_encryption_enable udid call now t
run_step password_change udid call used now t = run_password_change udid call now t

-- What the row says after the call.
unfoldable pub ended_as : Call → ActionState × Option String
ended_as returned = (done, none)
ended_as crashed = (failed, some internal_error)
ended_as (engine_error message) = (failed, some message)

step_eq_refl : (s : Step) → step_eq s s ≡ true
unfolding step_eq
step_eq_refl wifi = refl
step_eq_refl encryption = refl
step_eq_refl password_change = refl

step_eq-eq : (a b : Step) → step_eq a b ≡ true → a ≡ b
unfolding step_eq
step_eq-eq wifi wifi e = refl
step_eq-eq wifi encryption e = ground arith
step_eq-eq wifi password_change e = ground arith
step_eq-eq encryption wifi e = ground arith
step_eq-eq encryption encryption e = refl
step_eq-eq encryption password_change e = ground arith
step_eq-eq password_change wifi e = ground arith
step_eq-eq password_change encryption e = ground arith
step_eq-eq password_change password_change e = refl

same_row :
    (udid : String) (step : Step) (a : Action)
    → is_action udid step a ≡ true
    → (a.udid ≡ udid) × (a.step ≡ step)
unfolding is_action
same_row udid step a e = (ground (arith, eq_iff a.udid udid), step_eq-eq a.step step (ground arith))

own_row :
    (udid : String) (step : Step) (state : ActionState) (message : Option String) (at : ℕ)
    → is_action udid step
        (record { udid = udid; step = step; state = state; message = message; updated_at = at })
      ≡ true
unfolding is_action
own_row udid step state message at = ground (arith, eq_iff udid udid, step_eq_refl step)

same_key :
    (udid : String) (step : Step) (a : Action) (state : ActionState) (message : Option String)
    (now : ℕ)
    → is_action udid step (record a { state = state; message = message; updated_at = now })
      ≡ is_action udid step a
unfolding is_action
same_key udid step a state message now = refl

action_of-upsert :
    (udid : String) (step : Step) (now : ℕ) (actions : List Action)
    → action_of udid step (upsert_running udid step now actions)
      ≡ some
          (record { udid = udid; step = step; state = running; message = none; updated_at = now })
unfolding action_of upsert_running
action_of-upsert udid step now [] = ground (arith, own_row udid step running none now)
action_of-upsert udid step now (a ∷ rest) = elim (Bool-cases (is_action udid step a)) [
  | inl e ↦ ground (arith, e, same_row udid step a, same_key udid step a running none now)
  | inr e ↦ ground (arith, e, action_of-upsert udid step now rest)
]

action_of-update :
    (udid udid' : String) (step step' : Step) (state : ActionState) (message : Option String)
    (now : ℕ) (actions : List Action)
    → action_of udid' step' (update_action udid step state message now actions)
      ≡ elim (action_of udid' step' actions) [
        | none ↦ none
        | some a ↦ some (
            if is_action udid step a
            then record a { state = state; message = message; updated_at = now }
            else a)
      ]
unfolding action_of update_action
action_of-update udid udid' step step' state message now [] = refl
action_of-update udid udid' step step' state message now (a ∷ rest) = ground (
  arith,
  same_key udid' step' a state message now,
  action_of-update udid udid' step step' state message now rest,
)

used-actions :
    (used : Bool) (udid : String) (now : ℕ) (t : SetupTables)
    → (used_if used udid now t).actions ≡ t.actions
unfolding used_if mark_pair_used
used-actions true udid now t = refl
used-actions false udid now t = refl

end_step-actions :
    (udid : String) (step : Step) (column : DeviceMarks → DeviceMarks) (call : Call) (now : ℕ)
    (t : SetupTables)
    → (end_step udid step column call now t).actions
      ≡ update_action udid step (ended_as call).0 (ended_as call).1 now t.actions
unfolding end_step setup_action_failed setup_action_done ended_as
end_step-actions udid step column returned now t = refl
end_step-actions udid step column crashed now t = refl
end_step-actions udid step column (engine_error message) now t = refl

run_step-actions :
    (step : Step) (udid : String) (call : Call) (used : Bool) (now : ℕ) (t : SetupTables)
    → (run_step step udid call used now t).actions
      ≡ update_action udid step (ended_as call).0 (ended_as call).1 now t.actions
unfolding run_step run_wifi_enable run_encryption_enable run_password_change
run_step-actions wifi udid call used now t =
    end_step-actions udid wifi (λ d. record d { wifi_enabled_at = some now }) call now
      (used_if used udid now t)
    ∙ ap (update_action udid wifi (ended_as call).0 (ended_as call).1 now)
        (used-actions used udid now t)
run_step-actions encryption udid call used now t =
    end_step-actions udid encryption (λ d. record d { encryption_enabled_at = some now }) call now t
run_step-actions password_change udid call used now t =
    end_step-actions udid password_change
      (λ d. record d { password_checked_at = none; password_check_result = none }) call now t

other_row :
    (udid udid' : String) (step step' : Step) (a : Action)
    → (udid ≢ udid') ⊎ (step ≢ step')
    → is_action udid' step' a ≡ true
    → is_action udid step a ≡ false
unfolding is_action
other_row udid udid' step step' a differ e = ground (
  arith,
  eq_iff a.udid udid,
  eq_iff a.udid udid',
  step_eq-eq a.step step,
  step_eq-eq a.step step',
)

found_key :
    (udid : String) (step : Step) (actions : List Action) (a : Action)
    → action_of udid step actions ≡ some a
    → is_action udid step a ≡ true
unfolding action_of
found_key udid step [] a e = ground arith
found_key udid step (x ∷ rest) a e = ground (arith, found_key udid step rest a)

action_of-update_other :
    (udid udid' : String) (step step' : Step) (state : ActionState) (message : Option String)
    (now : ℕ) (actions : List Action)
    → (udid ≢ udid') ⊎ (step ≢ step')
    → action_of udid' step' (update_action udid step state message now actions)
      ≡ action_of udid' step' actions
action_of-update_other udid udid' step step' state message now actions differ =
    action_of-update udid udid' step step' state message now actions
    ∙ unchanged (action_of udid' step' actions) refl
  where
    unchanged :
        (o : Option Action)
        → action_of udid' step' actions ≡ o
        → (elim o [
          | none ↦ none
          | some a ↦ some (
              if is_action udid step a
              then record a { state = state; message = message; updated_at = now }
              else a)
        ])
          ≡ o
    unchanged none e = refl
    unchanged (some a) e =
        rw (other_row udid udid' step step' a differ (found_key udid' step' actions a e))

action_of-upsert_other :
    (udid udid' : String) (step step' : Step) (now : ℕ) (actions : List Action)
    → (udid ≢ udid') ⊎ (step ≢ step')
    → action_of udid' step' (upsert_running udid step now actions) ≡ action_of udid' step' actions
unfolding action_of upsert_running
action_of-upsert_other udid udid' step step' now [] differ = ground (
  arith,
  other_row udid udid' step step'
      (record { udid = udid; step = step; state = running; message = none; updated_at = now })
      differ,
  own_row udid step running none now,
)
action_of-upsert_other udid udid' step step' now (a ∷ rest) differ = ground (
  arith,
  same_key udid' step' a running none now,
  other_row udid udid' step step' a differ,
  action_of-upsert_other udid udid' step step' now rest differ,
)

-- A step that was marked as running and is then run ends, whatever the engine does: its row says
-- `done` where the engine returned, and otherwise `failed`, with the engine's message or that of a
-- crash; the rows of other devices and other steps stay as they were.
pub run_step-ends :
    (step : Step) (udid : String) (call : Call) (used : Bool) (start now : ℕ) (t : SetupTables)
    → (action_of udid step
          (run_step step udid call used now (mark_setup_action_running udid step start t)).actions
        ≡ some (record {
          udid = udid;
          step = step;
          state = (ended_as call).0;
          message = (ended_as call).1;
          updated_at = now;
        }))
      × ((udid' : String) (step' : Step)
          → (udid ≢ udid') ⊎ (step ≢ step')
          → action_of udid' step'
              (run_step step udid call used now
                (mark_setup_action_running udid step start t)).actions
            ≡ action_of udid' step' t.actions)
unfolding mark_setup_action_running
run_step-ends step udid call used start now t =
    let marked = upsert_running udid step start t.actions in
    let (state, message) = ended_as call in
    let written = run_step-actions step udid call used now (record t { actions = marked }) in
    (
      ap (action_of udid step) written
          ∙ action_of-update udid udid step step state message now marked
          ∙ ap
              (λ (o : Option Action). elim o [
                | none ↦ none
                | some a ↦ some (
                    if is_action udid step a
                    then record a { state = state; message = message; updated_at = now }
                    else a)
              ])
              (action_of-upsert udid step start t.actions)
          ∙ ground (arith, own_row udid step running none start),
      λ udid' step' differ.
          ap (action_of udid' step') written
          ∙ action_of-update_other udid udid' step step' state message now marked differ
          ∙ action_of-upsert_other udid udid' step step' start t.actions differ,
    )

-- ===== src/Ticker/Round.antt =====
-- Around the decisions of src/bioseasy/ticker.py: the lease of a tick, and the deep verification that it
-- enqueues. Times are whole seconds.
use bioseasy.Prelude.{
  ℕ, ◌+◌, ◌≤◌, String, ◌≡◌, refl, Bool, true, false, not, Option, none, some, List, [], ◌∷◌, ◌++◌,
  arith, ltb, if◌then◌else◌, All,
}
use bioseasy.Activity.{Activity, is_running}
use bioseasy.Backups.Verify.{Verification, Candidate, load_result, last_checked_at, pick_snapshot}

-- The setting `tick_lease`, which the schema inserts. The texts that `_iso` writes are ordered as the
-- times are.
unfoldable pub acquire_tick_lease : ℕ → ℕ → ℕ → Bool × ℕ
acquire_tick_lease value now interval =
    if ltb (value + interval) now then (true, now) else (false, value)

-- `DEEP_VERIFY_INTERVAL`
abbrev pub deep_verify_interval : ℕ
deep_verify_interval = 604800

-- A generation on disk: its name and its time.
abbrev pub Generation : Type 0
Generation = String × ℕ

abbrev pub candidates : List Verification → String → List Generation → List Candidate
candidates results udid [] = []
candidates results udid ((name, taken) ∷ rest) =
    record {
      name = name;
      taken_at = taken;
      checked_at = elim (load_result results udid name) [
        | none ↦ none
        | some v ↦ some v.checked_at
      ];
    }
    ∷ candidates results udid rest

-- Whether the last check of the device is less than the interval ago.
abbrev pub is_recent : Option ℕ → ℕ → Bool
is_recent none now = false
is_recent (some last) now = ltb now (last + deep_verify_interval)

target : String → Option Candidate → List (String × String)
target udid none = []
target udid (some c) = (udid, c.name) ∷ []

-- One round of the loop: what is enqueued for the device.
unfoldable pub verify_device :
    List Activity → List Verification → ℕ → String → List Generation → List (String × String)
unfolding target
verify_device activities results now udid generations =
    if is_running activities "verify" udid now
    then []
    else if is_recent (last_checked_at results udid) now
    then []
    else target udid (pick_snapshot (candidates results udid generations))

-- `_verify_due`, with the devices and their generations; an exception of `enqueue_verify` is only
-- logged.
unfoldable pub verify_all :
    List Activity → List Verification → ℕ → List (String × List Generation) → List (String × String)
unfolding verify_device
verify_all activities results now [] = []
verify_all activities results now ((udid, generations) ∷ rest) =
    verify_device activities results now udid generations ++ verify_all activities results now rest

-- `has_root`, `can_enqueue` and `storage_ok` are the three early returns.
unfoldable pub verify_due :
    Bool
    → Bool
    → Option Bool
    → List Activity
    → List Verification
    → ℕ
    → List (String × List Generation)
    → List (String × String)
unfolding verify_all
verify_due has_root can_enqueue storage_ok activities results now devices =
    if not has_root
    then []
    else if not can_enqueue
    then []
    else if elim storage_ok [ none ↦ false | some ok ↦ not ok ]
    then []
    else verify_all activities results now devices

-- Refused attempts, from one value of the setting on.
pub data Attempts (interval : ℕ) (value : ℕ) : ℕ → Type 0 where
  none_yet : Attempts interval value value
  refused :
      (v now : ℕ)
      → Attempts interval value v
      → (acquire_tick_lease v now interval).0 ≡ false
      → Attempts interval value (acquire_tick_lease v now interval).1

kept_value : {interval value v : ℕ} → Attempts interval value v → v ≡ value
unfolding acquire_tick_lease
kept_value none_yet = refl
kept_value {interval} (refused v now before denied) = ground (arith, kept_value before)

-- After a tick was granted at a time, every attempt up to one interval later is refused, whatever
-- refused attempts lie between.
acquire_tick_lease-apart :
    (value t interval v now : ℕ)
    → (acquire_tick_lease value t interval).0 ≡ true
    → Attempts interval (acquire_tick_lease value t interval).1 v
    → now ≤ t + interval
    → (acquire_tick_lease v now interval).0 ≡ false
unfolding acquire_tick_lease
acquire_tick_lease-apart value t interval v now granted between soon =
    ground (arith, kept_value between, granted)

-- No verification is running for the device, and the last one is not recent.
abbrev pub IsDue : List Activity → List Verification → ℕ → String × String → Type 0
IsDue activities results now (udid, name) =
    (is_running activities "verify" udid now ≡ false)
    × (is_recent (last_checked_at results udid) now ≡ false)

All-append : {A : Type 0} (P : A → Type 0) (xs ys : List A) → All P xs → All P ys → All P (xs ++ ys)
All-append P [] ys px py = py
All-append P (x ∷ xs) ys (p, px) py = (p, All-append P xs ys px py)

target-IsDue :
    (activities : List Activity) (results : List Verification) (now : ℕ) (udid : String)
    (o : Option Candidate) (b c : Bool)
    → is_running activities "verify" udid now ≡ b
    → is_recent (last_checked_at results udid) now ≡ c
    → All (IsDue activities results now) (if b then [] else if c then [] else target udid o)
unfolding target
target-IsDue activities results now udid o true c e f = tt
target-IsDue activities results now udid o false true e f = tt
target-IsDue activities results now udid none false false e f = tt
target-IsDue activities results now udid (some x) false false e f = ((e, f), tt)

verify_all-IsDue :
    (activities : List Activity) (results : List Verification) (now : ℕ)
    (devices : List (String × List Generation))
    → All (IsDue activities results now) (verify_all activities results now devices)
unfolding verify_all verify_device
verify_all-IsDue activities results now [] = tt
verify_all-IsDue activities results now ((udid, generations) ∷ rest) =
    All-append (IsDue activities results now)
      (verify_device activities results now udid generations)
      (verify_all activities results now rest)
      (target-IsDue activities results now udid
        (pick_snapshot (candidates results udid generations)) _ _ refl refl)
      (verify_all-IsDue activities results now rest)

All-of_if :
    {A : Type 0} (P : A → Type 0) (b : Bool) (xs : List A) → All P xs → All P (if b then [] else xs)
All-of_if P true xs p = tt
All-of_if P false xs p = p

-- A deep verification is enqueued only for a device for which none is running, and whose last check
-- there was not, or at least seven days ago.
verify_due-IsDue :
    (has_root can_enqueue : Bool) (storage_ok : Option Bool) (activities : List Activity)
    (results : List Verification) (now : ℕ) (devices : List (String × List Generation))
    → All
        (IsDue activities results now)
        (verify_due has_root can_enqueue storage_ok activities results now devices)
unfolding verify_due
verify_due-IsDue has_root can_enqueue storage_ok activities results now devices =
    let P = IsDue activities results now in
    let every = verify_all activities results now devices in
    let checked = if elim storage_ok [ none ↦ false | some ok ↦ not ok ] then [] else every in
    All-of_if P (not has_root) (if not can_enqueue then [] else checked) (
      All-of_if P (not can_enqueue) checked (
        All-of_if P (elim storage_ok [ none ↦ false | some ok ↦ not ok ]) every
          (verify_all-IsDue activities results now devices)))

-- ===== src/Events.antt =====
-- The feed of src/bioseasy/events.py: the finished runs and the deep verifications of the devices in a
-- user's scope, newest first, in pages. The udid is a device's primary key. The name of a device's
-- owner, joined for the administrator's view, and the texts that `shape` makes are left out; events of
-- one time and one device stand in the order of their rows.
pub mod Selected
pub mod Pages
mod Samples
use bioseasy.Prelude.{
  ℕ, zero, suc, ◌+◌, ◌-◌, ◌*◌, ◌/◌, ◌%◌, ◌^◌, ◌≤◌, ◌<◌, String, ◌≡◌, refl, sym, ap, ◌∙◌, subst, ◌≢◌,
  ◌↔◌, ◌⊎◌, inl, inr, Bool, true, false, not, ◌&&◌, ◌||◌, Option, none, some, List, [], ◌∷◌, ◌++◌,
  map, arith, str_eq, eq_iff, ltb, leb, ◌==◌, if◌then◌else◌, ltb→lt, leb→le, lt→ltb, le→leb,
  Bool-cases, Option-cases, is_none, List-cases, length, length-append, All, if-holds,
}
use Prim.Native.String.{compare}
use Prim.Native.Nat.{Ordering, lt}
use bioseasy.Jobs.Store.{Status, running, Trigger, Run}
use bioseasy.Backups.Verify as Verify
use bioseasy.Backups.Verify.{Verification}

pub record Device : Type 0 where
  pub udid : String
  pub name : Option String
  pub owner_id : Option ℕ

pub record Tables : Type 0 where
  pub runs : List Run
  pub verifications : List Verification
  pub devices : List Device

pub data EventKind : Type 0 where
  backup verification : EventKind

pub data EventOutcome : Type 0 where
  of_run : Status → EventOutcome
  of_check : Verify.Outcome → EventOutcome

pub data EventDetail : Type 0 where
  message : String → EventDetail
  check : Verify.Detail → EventDetail

pub record Event : Type 0 where
  pub at : ℕ
  pub kind : EventKind
  pub outcome : EventOutcome
  pub detail : EventDetail
  pub trigger : Option Trigger
  pub snapshot_name : Option String
  pub udid : String
  pub device_name : Option String
  pub owner_id : Option ℕ

pub record EventPage : Type 0 where
  pub rows : List Event
  pub total : ℕ
  pub page : ℕ
  pub page_size : ℕ

unfoldable pub has_more : EventPage → Bool
has_more p = ltb (p.page * p.page_size) p.total

-- COALESCE(r.finished_at, r.started_at)
abbrev pub finished_or_started : Option ℕ → ℕ → ℕ
finished_or_started none started = started
finished_or_started (some finished) started = finished

abbrev pub run_event : Run → Device → Event
run_event r d = record {
  at = finished_or_started r.finished_at r.started_at;
  kind = backup;
  outcome = of_run r.status;
  detail = message r.message;
  trigger = some r.trigger;
  snapshot_name = none;
  udid = d.udid;
  device_name = d.name;
  owner_id = d.owner_id;
}

abbrev pub check_event : Verification → Device → Event
check_event v d = record {
  at = v.checked_at;
  kind = verification;
  outcome = of_check v.result.outcome;
  detail = check v.result.detail;
  trigger = none;
  snapshot_name = some v.snapshot_name;
  udid = d.udid;
  device_name = d.name;
  owner_id = d.owner_id;
}

unfoldable pub device_of : String → List Device → Option Device
device_of udid [] = none
device_of udid (d ∷ rest) = if str_eq d.udid udid then some d else device_of udid rest

abbrev pub is_running : Status → Bool
is_running running = true
is_running _ = false

-- `{owner}`: no clause for an administrator.
abbrev pub is_owned : Option ℕ → Option ℕ → Bool
is_owned none owner = true
is_owned (some user) none = false
is_owned (some user) (some owner) = owner == user

-- One row of the join.
unfoldable pub with_device : Option ℕ → Option Device → (Device → Event) → Option Event
with_device owner none make = none
with_device owner (some d) make = if is_owned owner d.owner_id then some (make d) else none

unfoldable pub run_row : Option ℕ → List Device → Run → Option Event
run_row owner devices r =
    if is_running r.status then none else with_device owner (device_of r.udid devices) (run_event r)

unfoldable pub verification_row : Option ℕ → List Device → Verification → Option Event
verification_row owner devices v = with_device owner (device_of v.udid devices) (check_event v)

abbrev pub prepended : Option Event → List Event → List Event
prepended none rest = rest
prepended (some e) rest = e ∷ rest

unfoldable pub selected {ℓ} : {A : Type ℓ} → (A → Option Event) → List A → List Event
selected row [] = []
selected row (a ∷ rest) = prepended (row a) (selected row rest)

abbrev pub same_kind : EventKind → EventKind → Bool
same_kind backup backup = true
same_kind verification verification = true
same_kind _ _ = false

-- `kind if kind in KINDS else None`
unfoldable pub kind_of : String → Option EventKind
kind_of kind =
    if str_eq kind "backup"
    then some backup
    else if str_eq kind "verification"
    then some verification
    else none

abbrev pub has_kind : Option EventKind → Event → Bool
has_kind none e = true
has_kind (some k) e = same_kind e.kind k

-- A udid that is None or the empty text narrows nothing.
unfoldable pub matches : Option EventKind → String → Event → Bool
matches kind udid e = has_kind kind e && (str_eq udid "" || str_eq e.udid udid)

unfoldable pub narrowed : Option EventKind → String → List Event → List Event
narrowed kind udid [] = []
narrowed kind udid (e ∷ rest) =
    let others = narrowed kind udid rest in if matches kind udid e then e ∷ others else others

-- The rows of the unioned SELECT of `_query`.
unfoldable pub query : Option ℕ → Option EventKind → String → Tables → List Event
query owner kind udid t = narrowed kind udid (
    selected (run_row owner t.devices) t.runs
    ++ selected (verification_row owner t.devices) t.verifications)

abbrev pub is_lt : Ordering → Bool
is_lt lt = true
is_lt _ = false

-- ORDER BY at DESC, udid
abbrev pub comes_first : Event → Event → Bool
comes_first a b = ltb b.at a.at || (a.at == b.at && is_lt (compare a.udid b.udid))

unfoldable pub insert_newest : Event → List Event → List Event
insert_newest e [] = e ∷ []
insert_newest e (x ∷ rest) =
    let others = x ∷ insert_newest e rest in if comes_first x e then others else e ∷ x ∷ rest

unfoldable pub newest_first : List Event → List Event
newest_first [] = []
newest_first (e ∷ rest) = insert_newest e (newest_first rest)

-- LIMIT and OFFSET
unfoldable pub limit : ℕ → List Event → List Event
limit zero l = []
limit (suc n) [] = []
limit (suc n) (e ∷ rest) = e ∷ limit n rest

unfoldable pub offset : ℕ → List Event → List Event
offset zero l = l
offset (suc n) [] = []
offset (suc n) (e ∷ rest) = offset n rest

abbrev pub at_least_one : ℕ → ℕ
at_least_one zero = 1
at_least_one (suc n) = suc n

-- The number of a page is at least 0, which counts as 1.
unfoldable pub list_events : Option ℕ → String → String → ℕ → ℕ → Tables → EventPage
list_events owner kind udid page page_size t =
    let found = query owner (kind_of kind) udid t in
    record {
      rows = limit page_size (offset ((at_least_one page - 1) * page_size) (newest_first found));
      total = length found;
      page = at_least_one page;
      page_size = page_size;
    }

-- ===== src/Events/Samples.antt =====
-- A concrete feed of src/bioseasy/events.py.
use bioseasy.Prelude.{ℕ, String, ◌≡◌, refl, ◌↔◌, true, none, some, [], ◌∷◌, length}
use bioseasy.Jobs.Store.{Run, succeeded, running, schedule, Status}
use bioseasy.Events.{
  has_more, narrowed, selected, run_row, verification_row, with_device, device_of, insert_newest,
  newest_first, kind_of, query, Tables, Event, kind_of, matches, list_events, query, newest_first,
}
use bioseasy.Events.Selected.{IsIn, IsEvent}
use bioseasy.Events.Pages.{first_pages, first_pages-IsEvent_iff}

abbrev backup_run : ℕ → String → Status → ℕ → Run
backup_run i udid status started = record {
  id = i;
  udid = udid;
  trigger = schedule;
  started_at = started;
  finished_at = none;
  status = status;
  message = "";
  phase = none;
  percent = none;
  progress_message = "";
  worker_id = none;
  heartbeat_at = none;
}

abbrev family : Tables
family = record {
  runs =
      backup_run 1 "a" succeeded 10
      ∷ backup_run 2 "b" succeeded 20
      ∷ backup_run 3 "a" succeeded 30
      ∷ backup_run 4 "a" running 40
      ∷ [];
  verifications = [];
  devices =
      record { udid = "a"; name = some "Anna"; owner_id = some 1 }
      ∷ record { udid = "b"; name = none; owner_id = some 2 }
      ∷ [];
}

-- Two pages of one event each, for the owner of the first device.
first_pages-IsEvent_iff_example :
    (length (first_pages (some 1) "" "" 2 1 family) ≡ (list_events (some 1) "" "" 2 1 family).total)
    × ((e : Event)
        → IsIn e (first_pages (some 1) "" "" 2 1 family)
          ↔ (IsEvent (some 1) family e × (matches (kind_of "") "" e ≡ true)))
unfolding list_events query has_more kind_of matches narrowed selected run_row verification_row
    with_device device_of newest_first insert_newest
first_pages-IsEvent_iff_example = first_pages-IsEvent_iff (some 1) "" "" 1 1 family refl

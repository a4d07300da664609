-- ===== src/Devices/Defaults.antt =====
-- src/bioseasy/defaults.py: the settings of a device, over the global defaults in the table `settings`.
-- Python's `str` and `int` are a parameter; a stored number is not negative.
pub mod RoundTrip
use bioseasy.Prelude.{
  ℕ, zero, suc, ◌+◌, ◌-◌, ◌*◌, ◌/◌, ◌%◌, ◌^◌, ◌≤◌, ◌<◌, String, ◌≡◌, refl, sym, ap, ◌∙◌, subst, ◌≢◌,
  ◌↔◌, ◌⊎◌, inl, inr, Bool, true, false, not, ◌&&◌, ◌||◌, Option, none, some, List, [], ◌∷◌, ◌++◌,
  map, arith, str_eq, eq_iff, ltb, leb, ◌==◌, if◌then◌else◌, ltb→lt, leb→le, lt→ltb, le→leb,
  Bool-cases, Option-cases, is_none, List-cases, length, length-append, All,
}
use bioseasy.Retention.Policy.{RetentionPolicy, Overrides, or_default, resolve_policy}

pub record Numerals : Type 0 where
  pub str : ℕ → String
  pub int : String → Option ℕ

pub record GlobalDefaults : Type 0 where
  pub window_start : String
  pub window_end : String
  pub only_when_charging : Bool
  pub interval_hours : ℕ
  pub overdue_days : ℕ
  pub retention : RetentionPolicy
  pub free_space_threshold_gb : ℕ
  pub notice_lead_minutes : ℕ

pub record EffectiveDevice : Type 0 where
  pub interval_hours : ℕ
  pub window_start : String
  pub window_end : String
  pub only_when_charging : Bool
  pub overdue_days : ℕ
  pub retention : RetentionPolicy

-- The columns of a device row that override a default.
pub record DeviceRow : Type 0 where
  pub interval_hours : Option ℕ
  pub window_start : Option String
  pub window_end : Option String
  pub only_when_charging : Option ℕ
  pub overdue_days : Option ℕ
  pub retention : Overrides

abbrev pub Settings : Type 0
Settings = List (String × String)

-- `db.get_setting` without a default.
unfoldable pub get_setting : Settings → String → Option String
get_setting [] key = none
get_setting ((k, v) ∷ rest) key = if str_eq k key then some v else get_setting rest key

-- INSERT … ON CONFLICT(key) DO UPDATE
unfoldable pub set_setting : String → String → Settings → Settings
set_setting key value [] = (key, value) ∷ []
set_setting key value ((k, v) ∷ rest) =
    if str_eq k key then (k, value) ∷ rest else (k, v) ∷ set_setting key value rest

-- `get_int` and `get_retention_int`
unfoldable pub number_or : Numerals → ℕ → Option String → ℕ
number_or n fallback none = fallback
number_or n fallback (some raw) = or_default (n.int raw) fallback

unfoldable pub bool_or : Bool → Option String → Bool
bool_or fallback none = fallback
bool_or fallback (some raw) = str_eq raw "1"

unfoldable pub get_global_defaults : Numerals → Settings → GlobalDefaults
unfolding number_or bool_or
get_global_defaults n s = record {
  window_start = or_default (get_setting s "backup_default_window_start") "20:00";
  window_end = or_default (get_setting s "backup_default_window_end") "23:00";
  only_when_charging = bool_or true (get_setting s "backup_default_only_when_charging");
  interval_hours = number_or n 24 (get_setting s "backup_default_interval_hours");
  overdue_days = number_or n 7 (get_setting s "backup_default_overdue_days");
  retention = record {
    keep_last = number_or n 3 (get_setting s "backup_default_keep_last");
    keep_daily = number_or n 7 (get_setting s "backup_default_keep_daily");
    keep_weekly = number_or n 4 (get_setting s "backup_default_keep_weekly");
    keep_monthly = number_or n 6 (get_setting s "backup_default_keep_monthly");
    keep_yearly = number_or n 0 (get_setting s "backup_default_keep_yearly");
  };
  free_space_threshold_gb = number_or n 10 (get_setting s "backup_default_free_space_threshold_gb");
  notice_lead_minutes = number_or n 5 (get_setting s "backup_default_notice_lead_minutes");
}

-- The writes of `set_global_defaults`, in their order.
abbrev pub writes : Numerals → GlobalDefaults → Settings
writes n v =
    ("backup_default_window_start", v.window_start)
    ∷ ("backup_default_window_end", v.window_end)
    ∷ ("backup_default_only_when_charging", if v.only_when_charging then "1" else "0")
    ∷ ("backup_default_interval_hours", n.str v.interval_hours)
    ∷ ("backup_default_overdue_days", n.str v.overdue_days)
    ∷ ("backup_default_free_space_threshold_gb", n.str v.free_space_threshold_gb)
    ∷ ("backup_default_notice_lead_minutes", n.str v.notice_lead_minutes)
    ∷ ("backup_default_keep_last", n.str v.retention.keep_last)
    ∷ ("backup_default_keep_daily", n.str v.retention.keep_daily)
    ∷ ("backup_default_keep_weekly", n.str v.retention.keep_weekly)
    ∷ ("backup_default_keep_monthly", n.str v.retention.keep_monthly)
    ∷ ("backup_default_keep_yearly", n.str v.retention.keep_yearly)
    ∷ []

abbrev pub write_all : Settings → Settings → Settings
write_all [] s = s
write_all ((k, v) ∷ rest) s = write_all rest (set_setting k v s)

unfoldable pub set_global_defaults : Numerals → Settings → GlobalDefaults → Settings
set_global_defaults n s v = write_all (writes n v) s

unfoldable pub resolve_device : DeviceRow → GlobalDefaults → EffectiveDevice
unfolding resolve_policy
resolve_device device defaults = record {
  interval_hours = or_default device.interval_hours defaults.interval_hours;
  window_start = or_default device.window_start defaults.window_start;
  window_end = or_default device.window_end defaults.window_end;
  only_when_charging = elim device.only_when_charging [
    | none ↦ defaults.only_when_charging
    | some v ↦ not (v == 0)
  ];
  overdue_days = or_default device.overdue_days defaults.overdue_days;
  retention = resolve_policy device.retention defaults.retention;
}

-- ===== src/Devices/Defaults/RoundTrip.antt =====
-- The global defaults of src/bioseasy/defaults.py survive the table of settings.
use bioseasy.Prelude.{
  ℕ, String, ◌≡◌, refl, ap, ◌∙◌, Bool, true, false, Option, some, [], ◌∷◌, arith, str_eq, eq_iff,
  if◌then◌else◌,
}
use bioseasy.Retention.Policy.{or_default}
use bioseasy.Devices.Defaults.{
  Numerals, GlobalDefaults, Settings, get_setting, set_setting, number_or, bool_or,
  get_global_defaults, writes, write_all, set_global_defaults,
}

get-set :
    (key k value : String) (s : Settings)
    → get_setting (set_setting k value s) key
      ≡ (if str_eq k key then some value else get_setting s key)
unfolding get_setting set_setting
get-set key k value [] = refl
get-set key k value ((j, v) ∷ rest) =
    ground (arith, get-set key k value rest, eq_iff j k, eq_iff j key, eq_iff k key)

-- The last of the writes to a key.
abbrev last_write : String → Settings → Option String → Option String
last_write key [] old = old
last_write key ((k, v) ∷ rest) old = last_write key rest (if str_eq k key then some v else old)

get-write_all :
    (key : String) (ws s : Settings)
    → get_setting (write_all ws s) key ≡ last_write key ws (get_setting s key)
get-write_all key [] s = refl
get-write_all key ((k, v) ∷ rest) s =
    get-write_all key rest (set_setting k v s) ∙ ap (last_write key rest) (get-set key k v s)

number-stored :
    (n : Numerals) (d k : ℕ) → n.int (n.str k) ≡ some k → number_or n d (some (n.str k)) ≡ k
unfolding number_or
number-stored n d k e = ap (λ (o : Option ℕ). or_default o d) e

-- Reading a field back: a text, the Boolean, a number.
text-read :
    (key value fallback : String) (ws s : Settings)
    → last_write key ws (get_setting s key) ≡ some value
    → or_default (get_setting (write_all ws s) key) fallback ≡ value
text-read key value fallback ws s e =
    ap (λ (o : Option String). or_default o fallback) (get-write_all key ws s ∙ e)

bool-read :
    (key : String) (value fallback : Bool) (ws s : Settings)
    → last_write key ws (get_setting s key) ≡ some (if value then "1" else "0")
    → bool_or fallback (get_setting (write_all ws s) key) ≡ value
unfolding bool_or
bool-read key true fallback ws s e = ap (bool_or fallback) (get-write_all key ws s ∙ e)
bool-read key false fallback ws s e = ap (bool_or fallback) (get-write_all key ws s ∙ e)

number-read :
    (n : Numerals) (key : String) (value fallback : ℕ) (ws s : Settings)
    → n.int (n.str value) ≡ some value
    → last_write key ws (get_setting s key) ≡ some (n.str value)
    → number_or n fallback (get_setting (write_all ws s) key) ≡ value
number-read n key value fallback ws s reads e =
    ap (number_or n fallback) (get-write_all key ws s ∙ e) ∙ number-stored n fallback value reads

-- Where `int` reads back what `str` writes, the defaults that were stored are the ones that are read,
-- whatever the table held before.
pub get_global_defaults-set :
    (n : Numerals) (s : Settings) (v : GlobalDefaults)
    → ((k : ℕ) → n.int (n.str k) ≡ some k)
    → get_global_defaults n (set_global_defaults n s v) ≡ v
unfolding get_global_defaults set_global_defaults
get_global_defaults-set n s v reads =
    let ws = writes n v in
    let r = v.retention in
    ground (
      arith,
      text-read "backup_default_window_start" v.window_start "20:00" ws s refl,
      text-read "backup_default_window_end" v.window_end "23:00" ws s refl,
      bool-read "backup_default_only_when_charging" v.only_when_charging true ws s refl,
      number-read n "backup_default_interval_hours" v.interval_hours 24 ws s
          (reads v.interval_hours) refl,
      number-read n "backup_default_overdue_days" v.overdue_days 7 ws s (reads v.overdue_days) refl,
      number-read n "backup_default_free_space_threshold_gb" v.free_space_threshold_gb 10 ws s
          (reads v.free_space_threshold_gb) refl,
      number-read n "backup_default_notice_lead_minutes" v.notice_lead_minutes 5 ws s
          (reads v.notice_lead_minutes) refl,
      number-read n "backup_default_keep_last" r.keep_last 3 ws s (reads r.keep_last) refl,
      number-read n "backup_default_keep_daily" r.keep_daily 7 ws s (reads r.keep_daily) refl,
      number-read n "backup_default_keep_weekly" r.keep_weekly 4 ws s (reads r.keep_weekly) refl,
      number-read n "backup_default_keep_monthly" r.keep_monthly 6 ws s (reads r.keep_monthly) refl,
      number-read n "backup_default_keep_yearly" r.keep_yearly 0 ws s (reads r.keep_yearly) refl,
    )

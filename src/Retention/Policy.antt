-- ===== src/Retention/Policy.antt =====
-- `RetentionPolicy`, `retention_error` and `resolve_policy` of src/bioseasy/snapshots.py.
use bioseasy.Prelude.{ℕ, Bool, ◌&&◌, Option, none, some, ◌==◌}

pub record RetentionPolicy : Type 0 where
  pub keep_last : ℕ
  pub keep_daily : ℕ
  pub keep_weekly : ℕ
  pub keep_monthly : ℕ
  pub keep_yearly : ℕ

-- The retention columns of a device row: NULL means the default.
pub record Overrides : Type 0 where
  pub keep_last : Option ℕ
  pub keep_daily : Option ℕ
  pub keep_weekly : Option ℕ
  pub keep_monthly : Option ℕ
  pub keep_yearly : Option ℕ

-- True where `retention_error` returns its message.
unfoldable pub retention_error : RetentionPolicy → Bool
retention_error p =
    p.keep_last == 0
    && (p.keep_daily == 0 && (p.keep_weekly == 0 && (p.keep_monthly == 0 && p.keep_yearly == 0)))

abbrev pub or_default {ℓ} : {A : Type ℓ} → Option A → A → A
or_default none d = d
or_default (some a) d = a

unfoldable pub resolve_policy : Overrides → RetentionPolicy → RetentionPolicy
resolve_policy o d = record {
  keep_last = or_default o.keep_last d.keep_last;
  keep_daily = or_default o.keep_daily d.keep_daily;
  keep_weekly = or_default o.keep_weekly d.keep_weekly;
  keep_monthly = or_default o.keep_monthly d.keep_monthly;
  keep_yearly = or_default o.keep_yearly d.keep_yearly;
}

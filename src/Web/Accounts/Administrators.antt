-- ===== src/Web/Accounts/Administrators.antt =====
-- Whether the installation has an administrator, under the routes of src/bioseasy/app.py.
use bioseasy.Prelude.{◌+◌, ◌≤◌, ◌≡◌, sym, ◌∙◌, ◌⊎◌, inl, inr, Bool, true, false, List, [], arith}
use bioseasy.Accounts.Users.{User}
use bioseasy.Accounts.Users.Created.{IsNew}
use bioseasy.SignOn.Callback.{Setup}
use bioseasy.Web.Accounts.{Site, admin_count}
use bioseasy.Web.Accounts.Counts.{Distinct, one_if, admin_count-append, append-Distinct}
use bioseasy.Web.Accounts.Quiet.{IsQuiet}
use bioseasy.Web.Accounts.Effects.{Effect, quiet, first, added, edited, joined}
use bioseasy.Web.Accounts.Requests.{Step-Effect, Reach, here, next}

-- No accounts at all, or an administrator.
pub record IsLed (users : List User) : Type 0 where
  pub distinct : Distinct users
  pub led : (users ≡ []) ⊎ (1 ≤ admin_count users)

Quiet-IsLed : (users later : List User) → IsQuiet users later → IsLed users → IsLed later
Quiet-IsLed users later q v = record {
  distinct = q.distinct v.distinct;
  led = elim v.led [ inl e ↦ inl (q.empty e) | inr n ↦ inr (rw q.counts n) ];
}

-- A further account, where there is an administrator or the account is one.
new-IsLed :
    (users : List User) (p : User × List User)
    → IsNew users p
    → 1 ≤ admin_count users + one_if p.0.role
    → Distinct users
    → IsLed p.1
new-IsLed users (u, later) (at, id, _) h d = rw at (record {
  distinct = append-Distinct users u (omega arith) d;
  led = inr (omega (arith, admin_count-append users u));
})

Effect-IsLed :
    (on : Bool) (users later : List User)
    → on ≡ false
    → Effect on users later
    → IsLed users
    → IsLed later
Effect-IsLed on users later off (quiet q) v = Quiet-IsLed users later q v
Effect-IsLed on users later off (first u none_yet new role) v =
    new-IsLed users (u, later) new (ground arith) v.distinct
Effect-IsLed on users later off (added u led new) v =
    new-IsLed users (u, later) new (omega arith) v.distinct
Effect-IsLed on users later off (edited led f) v =
    let (d, n) = f v.distinct in record { distinct = d; led = inr n }
Effect-IsLed on users later off (joined u e new role) v = let h : false ≡ true = sym off ∙ e in cc

-- Where single sign-on registers nobody, an installation that has no accounts, or an administrator
-- and ids that are apart, is again such an installation after any requests.
pub Reach-IsLed :
    {c : Setup} {s later : Site}
    → c.settings.allow_registration ≡ false
    → IsLed s.users
    → Reach c s later
    → IsLed later.users
Reach-IsLed off v here = v
Reach-IsLed {c} off v (next {mid} {later} before step) =
    Effect-IsLed c.settings.allow_registration mid.users later.users off (Step-Effect step)
      (Reach-IsLed off v before)

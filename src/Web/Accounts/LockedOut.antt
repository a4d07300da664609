-- ===== src/Web/Accounts/LockedOut.antt =====
-- An installation whose first account comes from single sign-on, under the routes of
-- src/bioseasy/app.py.
use bioseasy.Prelude.{
  ℕ, String, ◌≡◌, refl, ◌∙◌, ◌≢◌, inl, inr, Bool, Option, List, [], ◌∷◌, ◌++◌, arith,
}
use bioseasy.Accounts.Users.{User, member, Session}
use bioseasy.Accounts.Users.Created.{IsNew}
use bioseasy.SignOn.Callback.{Setup, Identity, Tables}
use bioseasy.SignOn.Callback.Again.{callback-Keeps}
use bioseasy.Web.Accounts.{Site, admin_count}
use bioseasy.Web.Accounts.Counts.{admin_count-append}
use bioseasy.Web.Accounts.Effects.{Effect, quiet, first, added, edited, joined}
use bioseasy.Web.Accounts.Requests.{Step-Effect, Reach, here, next, sso_answer}

-- Accounts, and no administrator among them.
pub record IsLocked (users : List User) : Type 0 where
  pub none_led : admin_count users ≡ 0
  pub some_users : users ≢ []

no_admin : (users : List User) → users ≡ [] → admin_count users ≡ 0
unfolding admin_count
no_admin [] e = refl
no_admin (u ∷ rest) e = ground arith

append-ne-nil : (users : List User) (u : User) → users ++ u ∷ [] ≢ []
append-ne-nil [] u e = cc
append-ne-nil (x ∷ rest) u e = cc

new-IsLocked :
    (users : List User) (u : User) (later : List User)
    → admin_count users ≡ 0
    → IsNew users (u, later)
    → u.role ≡ member
    → IsLocked later
new-IsLocked users u later none_led (at, _, _) role = rw at (record {
  none_led = admin_count-append users u ∙ ground (arith, none_led, role);
  some_users = append-ne-nil users u;
})

Effect-IsLocked :
    (on : Bool) (users later : List User) → Effect on users later → IsLocked users → IsLocked later
Effect-IsLocked on users later (quiet q) v = record {
  none_led = q.counts ∙ v.none_led;
  some_users = λ e. v.some_users (q.full e);
}
Effect-IsLocked on users later (first u none_yet new role) v = absurd (v.some_users none_yet)
Effect-IsLocked on users later (added u led new) v = absurd (omega (arith, v.none_led))
Effect-IsLocked on users later (edited led f) v = absurd (omega (arith, v.none_led))
Effect-IsLocked on users later (joined u e new role) v =
    new-IsLocked users u later v.none_led new role

Reach-IsLocked :
    {c : Setup} {s later : Site} → IsLocked s.users → Reach c s later → IsLocked later.users
Reach-IsLocked v here = v
Reach-IsLocked {c} v (next {mid} {later} before step) =
    Effect-IsLocked c.settings.allow_registration mid.users later.users (Step-Effect step)
      (Reach-IsLocked v before)

-- Where the first account of an installation comes from a sign-on, there are accounts and no
-- administrator among them, whatever requests follow.
pub sso_first-IsLocked :
    (c : Setup) (configured : Bool) (token : Option Identity) (ip : String) (now : ℕ)
    (session : Option Session) (link_uid : Option ℕ) (s later : Site)
    → s.users ≡ []
    → (sso_answer c configured token ip now session link_uid s).1.users ≢ []
    → Reach c (sso_answer c configured token ip now session link_uid s).1 later
    → IsLocked later.users
sso_first-IsLocked c configured token ip now session link_uid s later none_yet some_now reach =
    let t : Tables = record { users = s.users; links = s.links } in
    let mid = (sso_answer c configured token ip now session link_uid s).1 in
    Reach-IsLocked
      (elim (callback-Keeps c s.by_ip ip now t configured token session link_uid).grown [
        | inl same ↦ absurd (some_now (same ∙ none_yet))
        | inr (on, (u, new, role)) ↦
            new-IsLocked s.users u mid.users (no_admin s.users none_yet) new role
      ])
      reach

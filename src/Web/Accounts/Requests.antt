-- ===== src/Web/Accounts/Requests.antt =====
-- Requests to the routes of src/bioseasy/app.py as steps of a site.
use bioseasy.Prelude.{ℕ, String, sym, subst, inl, inr, Bool, Option, List}
use bioseasy.Accounts.Users.{User, Session}
use bioseasy.SignOn.Callback as SignOn
use bioseasy.SignOn.Callback.{Setup, Identity, Tables, login_oidc_callback}
use bioseasy.SignOn.Callback.Linked.{Grown}
use bioseasy.SignOn.Callback.Again.{callback-Keeps}
use bioseasy.Web.Accounts.{
  Site, setup_submit, login_submit, account_password_change, users_create, users_set_email,
  users_change_role, users_remove,
}
use bioseasy.Web.Accounts.Quiet.{IsQuiet-refl}
use bioseasy.Web.Accounts.Effects.{
  Effect, quiet, joined, setup_submit-Does, login_submit-Does, account_password_change-Does,
}
use bioseasy.Web.Accounts.AdminEffects.{
  users_create-Does, users_set_email-Does, users_change_role-Does, users_remove-Does,
}

-- The sign-on route on a site.
abbrev pub sso_answer :
    Setup
    → Bool
    → Option Identity
    → String
    → ℕ
    → Option Session
    → Option ℕ
    → Site
    → SignOn.Response × Site
sso_answer c configured token ip now session link_uid s =
    let r =
      login_oidc_callback c configured token s.by_ip ip now
        (record { users = s.users; links = s.links }) session link_uid in
    (r.0, record s { by_ip = r.1; users = r.2.users; links = r.2.links })

-- A request to a route that changes accounts, with whatever it carries.
pub data Step (c : Setup) (s : Site) : Site → Type 0 where
  set_up_at :
      (csrf token_valid : Bool) (username password password2 email : String)
      → Step c s (setup_submit c.tx c.h csrf token_valid username password password2 email s).1
  login_at :
      (csrf : Bool) (key username password ip : String) (now : ℕ)
      → Step c s (login_submit c.tx c.h csrf key username password ip now s).1
  password_at :
      (csrf : Bool) (session : Option Session) (old new new2 : String)
      → Step c s (account_password_change c.tx c.h csrf session old new new2 s).1
  create_at :
      (csrf : Bool) (session : Option Session) (username password role email : String)
      → Step c s (users_create c.tx c.h csrf session username password role email s).1
  email_at :
      (csrf : Bool) (session : Option Session) (user_id : ℕ) (email : String)
      → Step c s (users_set_email c.tx c.h csrf session user_id email s).1
  role_at :
      (csrf : Bool) (session : Option Session) (user_id : ℕ) (role : String)
      → Step c s (users_change_role c.tx c.h csrf session user_id role s).1
  remove_at :
      (csrf : Bool) (session : Option Session) (user_id : ℕ)
      → Step c s (users_remove c.tx c.h csrf session user_id s).1
  sso_at :
      (configured : Bool) (token : Option Identity) (ip : String) (now : ℕ)
      (session : Option Session) (link_uid : Option ℕ)
      → Step c s (sso_answer c configured token ip now session link_uid s).1

Grown-Effect :
    (c : Setup) (users later : List User)
    → Grown c users later
    → Effect c.settings.allow_registration users later
Grown-Effect c users later (inl same) =
    subst (λ (l : List User). Effect c.settings.allow_registration users l) (sym same)
      (quiet (IsQuiet-refl users))
Grown-Effect c users later (inr (on, (u, new, role))) = joined u on new role

pub Step-Effect :
    {c : Setup} {s s' : Site} → Step c s s' → Effect c.settings.allow_registration s.users s'.users
Step-Effect {c} {s} (set_up_at csrf token_valid username password password2 email) =
    setup_submit-Does c.tx c.h c.settings.allow_registration s csrf token_valid username password
      password2 email
Step-Effect {c} {s} (login_at csrf key username password ip now) =
    login_submit-Does c.tx c.h c.settings.allow_registration s csrf key username password ip now
Step-Effect {c} {s} (password_at csrf session old new new2) =
    account_password_change-Does c.tx c.h c.settings.allow_registration s csrf session old new new2
Step-Effect {c} {s} (create_at csrf session username password role email) =
    users_create-Does c.tx c.h c.settings.allow_registration s csrf session username password role
      email
Step-Effect {c} {s} (email_at csrf session user_id email) =
    users_set_email-Does c.tx c.h c.settings.allow_registration s csrf session user_id email
Step-Effect {c} {s} (role_at csrf session user_id role) =
    users_change_role-Does c.tx c.h c.settings.allow_registration s csrf session user_id role
Step-Effect {c} {s} (remove_at csrf session user_id) =
    users_remove-Does c.tx c.h c.settings.allow_registration s csrf session user_id
Step-Effect {c} {s} (sso_at configured token ip now session link_uid) =
    let t : Tables = record { users = s.users; links = s.links } in
    Grown-Effect c s.users
      (login_oidc_callback c configured token s.by_ip ip now t session link_uid).2.users
      (callback-Keeps c s.by_ip ip now t configured token session link_uid).grown

pub data Reach (c : Setup) (s : Site) : Site → Type 0 where
  here : Reach c s s
  next : {mid later : Site} → Reach c s mid → Step c mid later → Reach c s later

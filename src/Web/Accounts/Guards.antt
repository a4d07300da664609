-- ===== src/Web/Accounts/Guards.antt =====
-- The guards of the routes of src/bioseasy/app.py: the form's token, the session, the administrator.
use bioseasy.Prelude.{
  ℕ, ◌≤◌, ◌≡◌, refl, inl, inr, Bool, true, Option, none, some, List, [], ◌∷◌, arith, if◌then◌else◌,
  Bool-cases, if-holds,
}
use bioseasy.Accounts.Users.{User, Session, get_user}
use bioseasy.Accounts.Users.Sessions.{session_user-row}
use bioseasy.Web.Accounts.{
  Site, Response, Answer, is_admin, admin_count, with_form, current, as_user, as_admin,
}

-- Whoever is in the table and an administrator is counted.
get_user-admin :
    (i : ℕ) (users : List User) (u : User)
    → get_user i users ≡ some u
    → is_admin u.role ≡ true
    → 1 ≤ admin_count users
unfolding get_user admin_count
get_user-admin i [] u e a = ground arith
get_user-admin i (x ∷ rest) u e a = ground (arith, get_user-admin i rest u)

current-admin :
    (users : List User) (session : Option Session) (u : User)
    → current users session ≡ some u
    → is_admin u.role ≡ true
    → 1 ≤ admin_count users
unfolding current
current-admin users none u e a = ground arith
current-admin users (some session) u e a =
    get_user-admin session.0 users u (session_user-row users session u e) a

-- The guards: what holds before, and after the body, holds.
pub with_form-holds :
    (P : Site → Type 0) (csrf : Bool) (s : Site) (answer : Answer)
    → P s
    → P answer.1
    → P (with_form csrf s answer).1
with_form-holds P csrf s answer before after = if-holds (λ (a : Answer). P a.1) csrf after before

pub as_user-holds :
    (P : Site → Type 0) (o : Option User) (s : Site) (f : User → Answer)
    → P s
    → ((u : User) → o ≡ some u → P (f u).1)
    → P (as_user o s f).1
unfolding as_user
as_user-holds P none s f before each = before
as_user-holds P (some u) s f before each = each u refl

pub as_admin-holds :
    (P : Site → Type 0) (session : Option Session) (s : Site) (f : User → Answer)
    → P s
    → ((u : User) → 1 ≤ admin_count s.users → P (f u).1)
    → P (as_admin (current s.users session) s f).1
unfolding as_admin
as_admin-holds P session s f before each =
    as_user-holds P (current s.users session) s
      (λ u. if is_admin u.role then f u else (Response.not_found, s)) before
      (λ u e. elim (Bool-cases (is_admin u.role)) [
        | inl yes_admin ↦ rw yes_admin (each u (current-admin s.users session u e yes_admin))
        | inr other ↦ rw other before
      ])

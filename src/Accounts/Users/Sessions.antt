-- ===== src/Accounts/Users/Sessions.antt =====
-- Sessions of src/bioseasy/auth.py, which end with a change of the role or of the password.
use bioseasy.Prelude.{
  ℕ, ◌+◌, String, ◌≡◌, refl, ap, ◌∙◌, Option, none, some, List, arith, ◌==◌, if◌then◌else◌,
}
use bioseasy.Accounts.Users.Steps.{IsPast, Steps, Steps-IsPast, get_user-update}
use bioseasy.Accounts.Users.{
  Session, User, Role, Texts, Hasher, ok, get_user, update_user, start_session, with_version,
  session_user, set_role, change_password,
}

past-refused : (i v : ℕ) (users : List User) → IsPast i v users → session_user users (i, v) ≡ none
unfolding session_user
past-refused i v users (w, e, past) = ap (with_version v) e ∙ ground (arith, past)

raised_version :
    (i : ℕ) (f : User → User) (users : List User) (u : User)
    → get_user i users ≡ some u
    → ((w : User) → (f w).id ≡ w.id)
    → (f u).session_version ≡ u.session_version + 1
    → IsPast i u.session_version (update_user i f users)
raised_version i f users u e same up = (
  if i == i then f u else u,
  get_user-update i i f users same
      ∙ ap (λ (o : Option User). elim o [ none ↦ none | some w ↦ some (if i == i then f w else w) ])
          e,
  ground (arith, up),
)

password-IsPast :
    (tx : Texts) (h : Hasher) (u : User) (password : String) (users mid : List User)
    → get_user u.id users ≡ some u
    → change_password tx h u.id password users ≡ ok mid
    → IsPast u.id u.session_version mid
unfolding change_password
password-IsPast tx h u password users mid e done = ground (
  arith,
  raised_version u.id
      (λ w. record w {
        password_hash = some (h.hash password);
        session_version = w.session_version + 1;
      })
      users u e (λ w. refl) refl,
)

-- After a change of an account's role, a session that it started before stays refused, whatever the
-- module does to the table except removing this account.
pub set_role-ends_sessions :
    (tx : Texts) (h : Hasher) (u : User) (role : Role) (users later : List User)
    → get_user u.id users ≡ some u
    → Steps tx h u.id (set_role u.id role users) later
    → session_user later (start_session u) ≡ none
unfolding set_role start_session
set_role-ends_sessions tx h u role users later e steps = past-refused u.id u.session_version later (
    Steps-IsPast u.session_version steps (
      raised_version u.id (λ w. record w { role = role; session_version = w.session_version + 1 })
        users u e (λ w. refl) refl))

-- After a change of an account's password, a session that it started before stays refused, whatever
-- the module does to the table except removing this account.
change_password-ends_sessions :
    (tx : Texts) (h : Hasher) (u : User) (password : String) (users mid later : List User)
    → get_user u.id users ≡ some u
    → change_password tx h u.id password users ≡ ok mid
    → Steps tx h u.id mid later
    → session_user later (start_session u) ≡ none
unfolding start_session
change_password-ends_sessions tx h u password users mid later e done steps =
    past-refused u.id u.session_version later
      (Steps-IsPast u.session_version steps (password-IsPast tx h u password users mid e done))

with_version-row : (v : ℕ) (o : Option User) (u : User) → with_version v o ≡ some u → o ≡ some u
unfolding with_version
with_version-row v none u e = ground arith
with_version-row v (some w) u e = ground arith

-- A session's user is a row of the table.
pub session_user-row :
    (users : List User) (s : Session) (u : User)
    → session_user users s ≡ some u
    → get_user s.0 users ≡ some u
unfolding session_user
session_user-row users (uid, sv) u e = with_version-row sv (get_user uid users) u e

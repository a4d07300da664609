-- ===== src/Web/Accounts/Effects.antt =====
-- What each route of src/bioseasy/app.py may do to the table of accounts.
use bioseasy.Prelude.{
  ℕ, ◌≤◌, String, ◌≡◌, refl, inl, inr, Bool, true, false, not, Option, none, some, List, [], ◌∷◌,
  arith, str_eq, ltb, if◌then◌else◌, Bool-cases, if-holds,
}
use bioseasy.Accounts.Throttle.{default_throttle, wait_seconds}
use bioseasy.Accounts.Users as Users
use bioseasy.Accounts.Users.{
  User, Role, admin, member, Texts, Hasher, Session, get_user, max_id, set_role, remove_user,
  change_password, set_email, register_user, authenticate, session_user, start_session,
}
use bioseasy.Accounts.Users.Created.{IsNew, register_user-IsNew}
use bioseasy.Web.Accounts.{
  Site, Answer, has_users, admin_count, current, as_user, set_up, setup_submit, logged_in,
  after_wait, login_submit, own_password, changed, confirmed, account_password_change, to_login,
  setup_again, not_found,
}
use bioseasy.Web.Accounts.Counts.{Distinct}
use bioseasy.Web.Accounts.Quiet.{
  IsQuiet, IsQuiet-refl, IsQuiet-trans, change_password-IsQuiet, authenticate-IsQuiet,
}
use bioseasy.Web.Accounts.Guards.{with_form-holds, as_user-holds}

pub data Effect (allowed : Bool) (users later : List User) : Type 0 where
  quiet : IsQuiet users later → Effect allowed users later
  first :
      (u : User) → users ≡ [] → IsNew users (u, later) → u.role ≡ admin → Effect allowed users later
  added : (u : User) → 1 ≤ admin_count users → IsNew users (u, later) → Effect allowed users later
  edited :
      1 ≤ admin_count users
      → (Distinct users → Distinct later × (1 ≤ admin_count later))
      → Effect allowed users later
  joined :
      (u : User)
      → allowed ≡ true
      → IsNew users (u, later)
      → u.role ≡ member
      → Effect allowed users later

-- The effect of a route on a site.
abbrev pub Does : Bool → Site → Site → Type 0
Does allowed s s' = Effect allowed s.users s'.users

module _ (tx : Texts) (h : Hasher) (on : Bool) (s : Site) where
  pub nothing : Does on s s
  nothing = quiet (IsQuiet-refl s.users)

  set_up-Does :
      (r : Users.Result (User × List User))
      → s.users ≡ []
      → ((p : User × List User) → r ≡ Users.ok p → IsNew s.users p × (p.0.role ≡ admin))
      → Does on s (set_up tx h s r).1
  unfolding set_up
  set_up-Does (Users.raised e) none_yet new = nothing
  set_up-Does (Users.ok (u, users)) none_yet new =
      let (is_new, role) = new (u, users) refl in first u none_yet is_new role

  no_users : (users : List User) → has_users users ≡ false → users ≡ []
  no_users [] e = refl
  no_users (u ∷ rest) e = ground arith

  pub setup_submit-Does :
      (csrf token_valid : Bool) (username password password2 email : String)
      → Does on s (setup_submit tx h csrf token_valid username password password2 email s).1
  unfolding setup_submit
  setup_submit-Does csrf token_valid username password password2 email =
      let registered = register_user tx h username password admin email s.users in
      let after : Answer =
        if not token_valid
        then (setup_again, s)
        else if not (str_eq password password2)
        then (setup_again, s)
        else set_up tx h s registered in
      with_form-holds (Does on s) csrf s (if has_users s.users then (to_login, s) else after)
        nothing
        (elim (Bool-cases (has_users s.users)) [
          | inl some_users ↦ rw some_users nothing
          | inr none_yet ↦ rw none_yet (
              if-holds (λ (a : Answer). Does on s a.1) (not token_valid) nothing
                (if-holds (λ (a : Answer). Does on s a.1) (not (str_eq password password2)) nothing
                  (set_up-Does registered (no_users s.users none_yet)
                    (register_user-IsNew tx h username password admin email s.users))))
        ])

  logged_in-Does :
      (key ip : String) (now : ℕ) (r : Option User × List User)
      → IsQuiet s.users r.1
      → Does on s (logged_in tx h key ip now s r).1
  unfolding logged_in
  logged_in-Does key ip now (none, users) q = quiet q
  logged_in-Does key ip now (some u, users) q = quiet q

  after_wait-Does :
      (v w : Option ℕ) (a : Answer) → Does on s a.1 → Does on s (after_wait tx h v w s a).1
  unfolding after_wait
  after_wait-Does none w a d = nothing
  after_wait-Does (some v) none a d = nothing
  after_wait-Does (some v) (some w) a d =
      if-holds (λ (b : Answer). Does on s b.1) (ltb 0 v) nothing
        (if-holds (λ (b : Answer). Does on s b.1) (ltb 0 w) nothing d)

  pub login_submit-Does :
      (csrf : Bool) (key username password ip : String) (now : ℕ)
      → Does on s (login_submit tx h csrf key username password ip now s).1
  unfolding login_submit
  login_submit-Does csrf key username password ip now =
      let a = logged_in tx h key ip now s (authenticate tx h username password s.users) in
      let v = wait_seconds default_throttle s.by_user key now in
      let w = wait_seconds default_throttle s.by_ip ip now in
      with_form-holds (Does on s) csrf s (after_wait tx h v w s a) nothing (
        after_wait-Does v w a (
          logged_in-Does key ip now (authenticate tx h username password s.users)
            (authenticate-IsQuiet tx h username password s.users)))

  changed-Does :
      (i : ℕ) (t : Site) (r : Users.Result (List User))
      → IsQuiet s.users t.users
      → ((later : List User) → r ≡ Users.ok later → IsQuiet t.users later)
      → Does on s (changed tx h i t r).1
  unfolding changed
  changed-Does i t (Users.raised e) q each = quiet q
  changed-Does i t (Users.ok users) q each = quiet (IsQuiet-trans q (each users refl))

  confirmed-Does :
      (i : ℕ) (new new2 : String) (r : Option User × List User)
      → IsQuiet s.users r.1
      → Does on s (confirmed tx h i new new2 s r).1
  unfolding confirmed
  confirmed-Does i new new2 (none, users) q = quiet q
  confirmed-Does i new new2 (some u, users) q =
      let s' : Site = record s { users = users } in
      if-holds (λ (b : Answer). Does on s b.1) (not (str_eq new new2)) (quiet q)
        (changed-Does i s' (change_password tx h i new users) q
          (change_password-IsQuiet tx h i new users))

  pub account_password_change-Does :
      (csrf : Bool) (session : Option Session) (old new new2 : String)
      → Does on s (account_password_change tx h csrf session old new new2 s).1
  unfolding account_password_change
  account_password_change-Does csrf session old new new2 =
      let body = λ (u : User).
        if own_password u.password_hash
        then confirmed tx h u.id new new2 s (authenticate tx h u.username old s.users)
        else (not_found, s) in
      with_form-holds (Does on s) csrf s (as_user (current s.users session) s body) nothing (
        as_user-holds (Does on s) (current s.users session) s body nothing (λ u e.
          if-holds (λ (b : Answer). Does on s b.1) (own_password u.password_hash)
            (confirmed-Does u.id new new2 (authenticate tx h u.username old s.users)
              (authenticate-IsQuiet tx h u.username old s.users))
            nothing))

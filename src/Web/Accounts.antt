-- ===== src/Web/Accounts.antt =====
-- The routes of src/bioseasy/app.py that create, change and remove accounts, over the functions of
-- src/bioseasy/auth.py. A form's token and the setup token are tests whose answer is an input, and a
-- page that is only rendered is a response without its text. The automatic sign-in of the
-- demonstration is off.
pub mod Counts
pub mod Quiet
pub mod Guards
pub mod Effects
pub mod AdminEffects
pub mod Requests
pub mod Administrators
pub mod LockedOut
use bioseasy.Prelude.{
  ℕ, suc, ◌+◌, ◌≤◌, String, Bool, true, false, not, ◌&&◌, Option, none, some, List, [], ◌∷◌, str_eq,
  ltb, leb, ◌==◌, if◌then◌else◌, is_none,
}
use bioseasy.Accounts.Throttle.{Failures, default_throttle, wait_seconds, failed, succeeded}
use bioseasy.Accounts.Users as Users
use bioseasy.Accounts.Users.{
  User, Role, admin, member, Texts, Hasher, Session, get_user, remove_user, set_role,
  change_password, start_session, session_user, register_user, set_email, authenticate,
}
use bioseasy.SignOn.Links.{Link}

-- `owners` has the `owner_id` of each device.
pub record Site : Type 0 where
  pub users : List User
  pub links : List Link
  pub owners : List (Option ℕ)
  pub by_user : Failures
  pub by_ip : Failures

pub data Response : Type 0 where
  form_expired to_login to_setup not_found bad_request overflow too_many_attempts : Response
  wrong_password setup_again saved : Response
  signed_in : Session → Response

abbrev pub is_admin : Role → Bool
is_admin admin = true
is_admin member = false

abbrev pub has_users : List User → Bool
has_users [] = false
has_users (u ∷ rest) = true

-- SELECT COUNT(*) FROM users WHERE role = 'admin'
unfoldable pub admin_count : List User → ℕ
admin_count [] = 0
admin_count (u ∷ rest) = if is_admin u.role then suc (admin_count rest) else admin_count rest

abbrev pub role_of : String → Option Role
role_of s = if str_eq s "admin" then some admin else if str_eq s "member" then some member else none

abbrev pub has_owner : ℕ → Option ℕ → Bool
has_owner i none = false
has_owner i (some owner) = owner == i

-- SELECT COUNT(*) FROM devices WHERE owner_id = ?
unfoldable pub device_count : ℕ → List (Option ℕ) → ℕ
device_count i [] = 0
device_count i (owner ∷ rest) =
    if has_owner i owner then suc (device_count i rest) else device_count i rest

-- ON DELETE CASCADE of the account's links.
unfoldable pub without_links : ℕ → List Link → List Link
without_links i [] = []
without_links i (l ∷ rest) =
    let others = without_links i rest in if l.user_id == i then others else l ∷ others

abbrev pub Answer : Type 0
Answer = Response × Site

-- `csrf_form`, before the body of a route.
abbrev pub with_form : Bool → Site → Answer → Answer
with_form csrf s answer = if csrf then answer else (form_expired, s)

pub current : List User → Option Session → Option User
current users none = none
current users (some session) = session_user users session

-- `current_user` and `admin_user`
pub as_user : Option User → Site → (User → Answer) → Answer
as_user none s f = (if has_users s.users then to_login else to_setup, s)
as_user (some u) s f = f u

pub as_admin : Option User → Site → (User → Answer) → Answer
unfolding as_user
as_admin o s f = as_user o s (λ u. if is_admin u.role then f u else (not_found, s))

-- `has_password`
abbrev pub own_password : Option String → Bool
own_password none = false
own_password (some hash) = not (str_eq hash "")

module _ (tx : Texts) (h : Hasher) where
  set_up : Site → Users.Result (User × List User) → Answer
  set_up s (Users.raised e) = (setup_again, s)
  set_up s (Users.ok (u, users)) = (signed_in (start_session u), record s { users = users })

  unfoldable pub setup_submit : Bool → Bool → String → String → String → String → Site → Answer
  unfolding set_up
  setup_submit csrf token_valid username password password2 email s = with_form csrf s (
      if has_users s.users
      then (to_login, s)
      else if not token_valid
      then (setup_again, s)
      else if not (str_eq password password2)
      then (setup_again, s)
      else set_up s (register_user tx h username password admin email s.users))

  logged_in : String → String → ℕ → Site → Option User × List User → Answer
  logged_in key ip now s (none, users) = (
    wrong_password,
    record s { users = users; by_user = failed s.by_user key now; by_ip = failed s.by_ip ip now },
  )
  logged_in key ip now s (some u, users) = (
    signed_in (start_session u),
    record s { users = users; by_user = succeeded s.by_user key; by_ip = succeeded s.by_ip ip },
  )

  after_wait : Option ℕ → Option ℕ → Site → Answer → Answer
  after_wait none w s answer = (overflow, s)
  after_wait (some v) none s answer = (overflow, s)
  after_wait (some v) (some w) s answer =
      if ltb 0 v then (too_many_attempts, s) else if ltb 0 w then (too_many_attempts, s) else answer

  -- `key` is the stripped and lowered name.
  unfoldable pub login_submit : Bool → String → String → String → String → ℕ → Site → Answer
  unfolding logged_in after_wait
  login_submit csrf key username password ip now s = with_form csrf s (
      after_wait (wait_seconds default_throttle s.by_user key now)
        (wait_seconds default_throttle s.by_ip ip now) s
        (logged_in key ip now s (authenticate tx h username password s.users)))

  restarted : Option User → Response
  restarted none = saved
  restarted (some u) = signed_in (start_session u)

  changed : ℕ → Site → Users.Result (List User) → Answer
  unfolding restarted
  changed i s (Users.raised e) = (bad_request, s)
  changed i s (Users.ok users) = (restarted (get_user i users), record s { users = users })

  -- The table after the check of the current password, which may have hashed it anew.
  confirmed : ℕ → String → String → Site → Option User × List User → Answer
  unfolding changed
  confirmed i new new2 s (none, users) = (bad_request, record s { users = users })
  confirmed i new new2 s (some u, users) =
      let s' : Site = record s { users = users } in
      if not (str_eq new new2)
      then (bad_request, s')
      else changed i s' (change_password tx h i new users)

  unfoldable pub account_password_change :
      Bool → Option Session → String → String → String → Site → Answer
  unfolding current as_user confirmed
  account_password_change csrf session old new new2 s = with_form csrf s (
      as_user (current s.users session) s (λ u.
        if own_password u.password_hash
        then confirmed u.id new new2 s (authenticate tx h u.username old s.users)
        else (not_found, s)))

  created : Site → Users.Result (User × List User) → Answer
  created s (Users.raised e) = (bad_request, s)
  created s (Users.ok (u, users)) = (saved, record s { users = users })

  create_as : String → String → String → Site → Option Role → Answer
  unfolding created
  create_as username password email s none = (bad_request, s)
  create_as username password email s (some role) =
      created s (register_user tx h username password role (tx.strip email) s.users)

  unfoldable pub users_create :
      Bool → Option Session → String → String → String → String → Site → Answer
  unfolding current as_admin create_as
  users_create csrf session username password role email s = with_form csrf s (
      as_admin (current s.users session) s
        (λ u. create_as username password email s (role_of role)))

  emailed : Site → Users.Result (List User) → Answer
  emailed s (Users.raised e) = (bad_request, s)
  emailed s (Users.ok users) = (saved, record s { users = users })

  email_for : String → Site → Option User → Answer
  unfolding emailed
  email_for email s none = (not_found, s)
  email_for email s (some target) = emailed s (set_email tx h target.id email s.users)

  unfoldable pub users_set_email : Bool → Option Session → ℕ → String → Site → Answer
  unfolding current as_admin email_for
  users_set_email csrf session user_id email s =
      with_form csrf s
        (as_admin (current s.users session) s (λ u. email_for email s (get_user user_id s.users)))

  change_role_to : User → Site → Option Role → Answer
  change_role_to target s none = (bad_request, s)
  change_role_to target s (some role) =
      if is_admin target.role && (not (is_admin role) && leb (admin_count s.users) 1)
      then (bad_request, s)
      else (saved, record s { users = set_role target.id role s.users })

  change_role : Option User → String → Site → Answer
  unfolding change_role_to
  change_role none role s = (not_found, s)
  change_role (some target) role s = change_role_to target s (role_of role)

  unfoldable pub users_change_role : Bool → Option Session → ℕ → String → Site → Answer
  unfolding current as_admin change_role
  users_change_role csrf session user_id role s =
      with_form csrf s
        (as_admin (current s.users session) s (λ u. change_role (get_user user_id s.users) role s))

  remove : User → Option User → Site → Answer
  remove user none s = (not_found, s)
  remove user (some target) s =
      if is_admin target.role && leb (admin_count s.users) 1
      then (bad_request, s)
      else if target.id == user.id
      then (bad_request, s)
      else if ltb 0 (device_count target.id s.owners)
      then (bad_request, s)
      else (
        saved,
        record s { users = remove_user target.id s.users; links = without_links target.id s.links },
      )

  unfoldable pub users_remove : Bool → Option Session → ℕ → Site → Answer
  unfolding current as_admin remove
  users_remove csrf session user_id s =
      with_form csrf s
        (as_admin (current s.users session) s (λ u. remove u (get_user user_id s.users) s))

-- ===== src/Web/Accounts/AdminEffects.antt =====
-- What the routes of the administrators in src/bioseasy/app.py may do to the table of accounts.
use bioseasy.Prelude.{
  ℕ, ◌+◌, ◌≤◌, String, ◌≡◌, refl, ap, ◌∙◌, inl, inr, Bool, false, not, ◌&&◌, Option, none, some,
  List, arith, ltb, leb, ◌==◌, Bool-cases, if-holds,
}
use bioseasy.Accounts.Users as Users
use bioseasy.Accounts.Users.{
  User, Role, admin, member, Texts, Hasher, Session, get_user, max_id, set_role, remove_user,
  change_password, set_email, register_user, authenticate, session_user, start_session,
}
use bioseasy.Accounts.Users.Created.{IsNew, register_user-IsNew}
use bioseasy.Accounts.Users.Steps.{get_user-id}
use bioseasy.Web.Accounts.{
  email_for, Site, Answer, is_admin, admin_count, role_of, with_form, current, as_admin, created,
  create_as, users_create, emailed, users_set_email, change_role_to, change_role, users_change_role,
  remove, users_remove, device_count,
}
use bioseasy.Web.Accounts.Counts.{
  Distinct, one_if, one_if-eq, admin_count-set_role, admin_count-remove, update-Distinct,
  remove-Distinct,
}
use bioseasy.Web.Accounts.Quiet.{IsQuiet, set_email-IsQuiet}
use bioseasy.Web.Accounts.Guards.{with_form-holds, as_admin-holds}
use bioseasy.Web.Accounts.Effects.{quiet, added, edited, Does, nothing}

own_row :
    (i : ℕ) (users : List User) (u : User)
    → get_user i users ≡ some u
    → get_user u.id users ≡ some u
own_row i users u e = ap (λ (k : ℕ). get_user k users) (get_user-id i users u e) ∙ e

set_role-Distinct :
    (i : ℕ) (role : Role) (users : List User) → Distinct users → Distinct (set_role i role users)
unfolding set_role
set_role-Distinct i role users =
    update-Distinct i (λ u. record u { role = role; session_version = u.session_version + 1 }) users
      (λ u. refl)

module _ (tx : Texts) (h : Hasher) (on : Bool) (s : Site) (led : 1 ≤ admin_count s.users) where
  created-Does :
      (r : Users.Result (User × List User))
      → ((p : User × List User) → r ≡ Users.ok p → IsNew s.users p)
      → Does on s (created tx h s r).1
  unfolding created
  created-Does (Users.raised e) new = nothing tx h on s
  created-Does (Users.ok (u, users)) new = added u led (new (u, users) refl)

  create_as-Does :
      (username password email : String) (o : Option Role)
      → Does on s (create_as tx h username password email s o).1
  unfolding create_as
  create_as-Does username password email none = nothing tx h on s
  create_as-Does username password email (some role) =
      created-Does (register_user tx h username password role (tx.strip email) s.users)
        (λ p e. (register_user-IsNew tx h username password role (tx.strip email) s.users p e).0)

  emailed-Does :
      (r : Users.Result (List User))
      → ((later : List User) → r ≡ Users.ok later → IsQuiet s.users later)
      → Does on s (emailed tx h s r).1
  unfolding emailed
  emailed-Does (Users.raised e) each = nothing tx h on s
  emailed-Does (Users.ok users) each = quiet (each users refl)

  email_for-Does : (email : String) (o : Option User) → Does on s (email_for tx h email s o).1
  unfolding email_for
  email_for-Does email none = nothing tx h on s
  email_for-Does email (some target) =
      emailed-Does (set_email tx h target.id email s.users)
        (set_email-IsQuiet tx h target.id email s.users)

  -- A change that the rule on the last administrator lets through.
  role-counts :
      (target : User) (role : Role)
      → (is_admin target.role && (not (is_admin role) && leb (admin_count s.users) 1)) ≡ false
      → admin_count (set_role target.id role s.users) + one_if target.role
        ≡ admin_count s.users + one_if role
      → 1 ≤ admin_count (set_role target.id role s.users)
  role-counts target role allowed same = ground (arith, led, one_if-eq target.role, one_if-eq role)

  change_role_to-Does :
      (i : ℕ) (target : User) (o : Option Role)
      → get_user target.id s.users ≡ some target
      → Does on s (change_role_to tx h target s o).1
  unfolding change_role_to
  change_role_to-Does i target none at = nothing tx h on s
  change_role_to-Does i target (some role) at =
      let refused = is_admin target.role && (not (is_admin role) && leb (admin_count s.users) 1) in
      elim (Bool-cases refused) [
        | inl e ↦ rw e (nothing tx h on s)
        | inr e ↦ rw e (
            edited led (λ d. (
              set_role-Distinct target.id role s.users d,
              role-counts target role e (admin_count-set_role target.id role s.users target d at),
            )))
      ]

  change_role-Does :
      (user_id : ℕ) (role : String) (o : Option User)
      → get_user user_id s.users ≡ o
      → Does on s (change_role tx h o role s).1
  unfolding change_role
  change_role-Does user_id role none at = nothing tx h on s
  change_role-Does user_id role (some target) at =
      change_role_to-Does user_id target (role_of role) (own_row user_id s.users target at)

  removed-counts :
      (target : User)
      → (is_admin target.role && leb (admin_count s.users) 1) ≡ false
      → admin_count (remove_user target.id s.users) + one_if target.role ≡ admin_count s.users
      → 1 ≤ admin_count (remove_user target.id s.users)
  removed-counts target allowed same = ground (arith, led, one_if-eq target.role)

  remove-Does :
      (user_id : ℕ) (u : User) (o : Option User)
      → get_user user_id s.users ≡ o
      → Does on s (remove tx h u o s).1
  unfolding remove
  remove-Does user_id u none at = nothing tx h on s
  remove-Does user_id u (some target) at =
      let row = own_row user_id s.users target at in
      elim (Bool-cases (is_admin target.role && leb (admin_count s.users) 1)) [
        | inl last ↦ rw last (nothing tx h on s)
        | inr not_last ↦ rw not_last (
            if-holds (λ (a : Answer). Does on s a.1) (target.id == u.id) (nothing tx h on s)
              (if-holds (λ (a : Answer). Does on s a.1) (ltb 0 (device_count target.id s.owners))
                (nothing tx h on s)
                (edited led (λ d. (
                  remove-Distinct target.id s.users d,
                  removed-counts target not_last
                      (admin_count-remove target.id s.users target d row),
                )))))
      ]

module _ (tx : Texts) (h : Hasher) (on : Bool) (s : Site) (csrf : Bool)
    (session : Option Session) where
  guarded :
      (f : User → Answer)
      → (1 ≤ admin_count s.users → (u : User) → Does on s (f u).1)
      → Does on s (with_form csrf s (as_admin (current s.users session) s f)).1
  guarded f each =
      with_form-holds (Does on s) csrf s (as_admin (current s.users session) s f)
        (nothing tx h on s)
        (as_admin-holds (Does on s) session s f (nothing tx h on s) (λ u led. each led u))

  pub users_create-Does :
      (username password role email : String)
      → Does on s (users_create tx h csrf session username password role email s).1
  unfolding users_create
  users_create-Does username password role email =
      guarded (λ u. create_as tx h username password email s (role_of role))
        (λ led u. create_as-Does tx h on s led username password email (role_of role))

  pub users_set_email-Does :
      (user_id : ℕ) (email : String)
      → Does on s (users_set_email tx h csrf session user_id email s).1
  unfolding users_set_email
  users_set_email-Does user_id email =
      guarded (λ u. email_for tx h email s (get_user user_id s.users))
        (λ led u. email_for-Does tx h on s led email (get_user user_id s.users))

  pub users_change_role-Does :
      (user_id : ℕ) (role : String)
      → Does on s (users_change_role tx h csrf session user_id role s).1
  unfolding users_change_role
  users_change_role-Does user_id role =
      guarded (λ u. change_role tx h (get_user user_id s.users) role s)
        (λ led u. change_role-Does tx h on s led user_id role (get_user user_id s.users) refl)

  pub users_remove-Does : (user_id : ℕ) → Does on s (users_remove tx h csrf session user_id s).1
  unfolding users_remove
  users_remove-Does user_id =
      guarded (λ u. remove tx h u (get_user user_id s.users) s)
        (λ led u. remove-Does tx h on s led user_id u (get_user user_id s.users) refl)

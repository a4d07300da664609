-- ===== src/Web/Accounts/Quiet.antt =====
-- The operations of src/bioseasy/auth.py that change no role and no id: passwords, addresses, and the
-- hash that a sign-in may write anew.
use bioseasy.Prelude.{◌∙◌, ℕ, ◌+◌, String, ◌≡◌, refl, some, List, [], ◌∷◌, arith, if◌then◌else◌}
use bioseasy.Accounts.Users.{
  User, Texts, Hasher, update_user, change_password, set_email, email_of_other, validate_email,
  authenticate, ok, raised, email_taken,
}
use bioseasy.Accounts.Users.Created.{bind-ok}
use bioseasy.Accounts.Users.Rehash.{authenticate-holds}
use bioseasy.Web.Accounts.{admin_count}
use bioseasy.Web.Accounts.Counts.{Distinct, admin_count-update, update-Distinct}

pub record IsQuiet (users later : List User) : Type 0 where
  pub counts : admin_count later ≡ admin_count users
  pub distinct : Distinct users → Distinct later
  pub empty : users ≡ [] → later ≡ []
  pub full : later ≡ [] → users ≡ []

pub IsQuiet-refl : (users : List User) → IsQuiet users users
IsQuiet-refl users = record { counts = refl; distinct = λ d. d; empty = λ e. e; full = λ e. e }

pub IsQuiet-trans :
    {users mid later : List User} → IsQuiet users mid → IsQuiet mid later → IsQuiet users later
IsQuiet-trans q r = record {
  counts = r.counts ∙ q.counts;
  distinct = λ d. r.distinct (q.distinct d);
  empty = λ e. r.empty (q.empty e);
  full = λ e. q.full (r.full e);
}

update-empty :
    (i : ℕ) (f : User → User) (users : List User) → users ≡ [] → update_user i f users ≡ []
unfolding update_user
update-empty i f [] e = refl
update-empty i f (u ∷ rest) e = ground arith

update-full :
    (i : ℕ) (f : User → User) (users : List User) → update_user i f users ≡ [] → users ≡ []
unfolding update_user
update-full i f [] e = refl
update-full i f (u ∷ rest) e = ground arith

update-IsQuiet :
    (i : ℕ) (f : User → User) (users : List User)
    → ((u : User) → (f u).id ≡ u.id)
    → ((u : User) → (f u).role ≡ u.role)
    → IsQuiet users (update_user i f users)
update-IsQuiet i f users id role = record {
  counts = admin_count-update i f users role;
  distinct = update-Distinct i f users id;
  empty = update-empty i f users;
  full = update-full i f users;
}

pub change_password-IsQuiet :
    (tx : Texts) (h : Hasher) (i : ℕ) (password : String) (users later : List User)
    → change_password tx h i password users ≡ ok later
    → IsQuiet users later
unfolding change_password
change_password-IsQuiet tx h i password users later e = ground (
  arith,
  update-IsQuiet i
      (λ u. record u {
        password_hash = some (h.hash password);
        session_version = u.session_version + 1;
      })
      users (λ u. refl) (λ u. refl),
)

pub set_email-IsQuiet :
    (tx : Texts) (h : Hasher) (i : ℕ) (email : String) (users later : List User)
    → set_email tx h i email users ≡ ok later
    → IsQuiet users later
unfolding set_email
set_email-IsQuiet tx h i email users =
    bind-ok (IsQuiet users) (validate_email tx h email)
      (λ address.
        if email_of_other tx h address i users
        then raised email_taken
        else ok (update_user i (λ u. record u { email = some address }) users))
      (λ address later e. ground (
        arith,
        update-IsQuiet i (λ u. record u { email = some address }) users (λ u. refl) (λ u. refl),
      ))

pub authenticate-IsQuiet :
    (tx : Texts) (h : Hasher) (username password : String) (users : List User)
    → IsQuiet users (authenticate tx h username password users).1
authenticate-IsQuiet tx h username password users =
    authenticate-holds tx h (IsQuiet users) username password users (IsQuiet-refl users) (λ i hash.
      update-IsQuiet i (λ w. record w { password_hash = some hash }) users (λ w. refl) (λ w. refl))

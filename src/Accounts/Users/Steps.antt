-- ===== src/Accounts/Users/Steps.antt =====
-- The operations of src/bioseasy/auth.py on its table as steps, and the versions of the accounts.
use bioseasy.Prelude.{
  ℕ, ◌+◌, ◌≤◌, ◌<◌, String, ◌≡◌, refl, ap, ◌∙◌, ◌≢◌, Option, none, some, List, [], ◌∷◌, ◌++◌, arith,
  ◌==◌, if◌then◌else◌,
}
use bioseasy.Accounts.Users.{
  User, Role, Texts, Hasher, Result, ok, raised, email_taken, ◌>>=◌, get_user, update_user,
  remove_user, set_role, change_password, validate_email, email_of_other, create_user,
  create_sso_user, set_email, authenticate,
}
use bioseasy.Accounts.Users.Rehash.{authenticate-holds}
use bioseasy.Accounts.Users.Created.{IsNew, create_user-new, create_sso_user-new}

-- The account i is there, and its version is past v.
abbrev pub IsPast : ℕ → ℕ → List User → Type 0
IsPast i v users = (w : User) × (get_user i users ≡ some w) × (v < w.session_version)

-- The operations of the module on the table, but for a removal of the account i.
pub data Step (tx : Texts) (h : Hasher) (i : ℕ) (users : List User) : List User → Type 0 where
  role_set : (j : ℕ) (role : Role) → Step tx h i users (set_role j role users)
  password_changed :
      (j : ℕ) (password : String) (later : List User)
      → change_password tx h j password users ≡ ok later
      → Step tx h i users later
  email_set :
      (j : ℕ) (email : String) (later : List User)
      → set_email tx h j email users ≡ ok later
      → Step tx h i users later
  created :
      (username password : String) (role : Role) (email : Option String) (u : User)
      (later : List User)
      → create_user tx h username password role email users ≡ ok (u, later)
      → Step tx h i users later
  sso_created :
      (username email : String) (role : Role) (u : User) (later : List User)
      → create_sso_user tx h username email role users ≡ ok (u, later)
      → Step tx h i users later
  authenticated :
      (username password : String) → Step tx h i users (authenticate tx h username password users).1
  removed : (j : ℕ) → j ≢ i → Step tx h i users (remove_user j users)

pub data Steps (tx : Texts) (h : Hasher) (i : ℕ) (users : List User) : List User → Type 0 where
  here : Steps tx h i users users
  and_then :
      {mid later : List User}
      → Steps tx h i users mid
      → Step tx h i mid later
      → Steps tx h i users later

pub get_user-update :
    (j i : ℕ) (f : User → User) (users : List User)
    → ((u : User) → (f u).id ≡ u.id)
    → get_user j (update_user i f users)
      ≡ elim (get_user j users) [ none ↦ none | some u ↦ some (if j == i then f u else u) ]
unfolding get_user update_user
get_user-update j i f [] same = refl
get_user-update j i f (u ∷ rest) same = ground (arith, same u, get_user-update j i f rest same)

pub get_user-append :
    (i : ℕ) (users : List User) (u w : User)
    → get_user i users ≡ some w
    → get_user i (users ++ u ∷ []) ≡ some w
unfolding get_user
get_user-append i [] u w e = ground arith
get_user-append i (x ∷ rest) u w e = ground (arith, get_user-append i rest u w)

get_user-remove :
    (i j : ℕ) (users : List User) → j ≢ i → get_user i (remove_user j users) ≡ get_user i users
unfolding get_user remove_user
get_user-remove i j [] differ = refl
get_user-remove i j (x ∷ rest) differ = ground (arith, get_user-remove i j rest differ)

pub get_user-id : (i : ℕ) (users : List User) (u : User) → get_user i users ≡ some u → u.id ≡ i
unfolding get_user
get_user-id i [] u e = ground arith
get_user-id i (x ∷ rest) u e = ground (arith, get_user-id i rest u)

-- A change of some account that keeps its id and does not take its version back.
pub update-IsPast :
    (i v j : ℕ) (f : User → User) (users : List User)
    → ((u : User) → (f u).id ≡ u.id)
    → ((u : User) → u.session_version ≤ (f u).session_version)
    → IsPast i v users
    → IsPast i v (update_user j f users)
update-IsPast i v j f users same up (w, e, past) = (
  if i == j then f w else w,
  get_user-update i j f users same
      ∙ ap (λ (o : Option User). elim o [ none ↦ none | some u ↦ some (if i == j then f u else u) ])
          e,
  ground (arith, up w),
)

new-IsPast :
    (i v : ℕ) (users : List User) (p : User × List User)
    → IsNew users p
    → IsPast i v users
    → IsPast i v p.1
new-IsPast i v users (u, later) (at, _, _) (w, e, past) =
    (w, ap (get_user i) at ∙ get_user-append i users u w e, past)

change_password-IsPast :
    (tx : Texts) (h : Hasher) (i v j : ℕ) (password : String) (users later : List User)
    → change_password tx h j password users ≡ ok later
    → IsPast i v users
    → IsPast i v later
unfolding change_password
change_password-IsPast tx h i v j password users later e past = ground (
  arith,
  update-IsPast i v j
      (λ u. record u {
        password_hash = some (h.hash password);
        session_version = u.session_version + 1;
      })
      users (λ u. refl) (λ u. omega arith) past,
)

emailed-IsPast :
    (tx : Texts) (h : Hasher) (i v j : ℕ) (users later : List User) (r : Result String)
    → (r >>= λ address.
        if email_of_other tx h address j users
        then raised email_taken
        else ok (update_user j (λ u. record u { email = some address }) users))
      ≡ ok later
    → IsPast i v users
    → IsPast i v later
emailed-IsPast tx h i v j users later (raised x) e past = ground arith
emailed-IsPast tx h i v j users later (ok address) e past = ground (
  arith,
  update-IsPast i v j (λ u. record u { email = some address }) users (λ u. refl) (λ u. omega arith)
      past,
)

set_email-IsPast :
    (tx : Texts) (h : Hasher) (i v j : ℕ) (email : String) (users later : List User)
    → set_email tx h j email users ≡ ok later
    → IsPast i v users
    → IsPast i v later
unfolding set_email
set_email-IsPast tx h i v j email users later e past =
    emailed-IsPast tx h i v j users later (validate_email tx h email) e past

authenticate-IsPast :
    (tx : Texts) (h : Hasher) (i v : ℕ) (username password : String) (users : List User)
    → IsPast i v users
    → IsPast i v (authenticate tx h username password users).1
authenticate-IsPast tx h i v username password users past =
    authenticate-holds tx h (IsPast i v) username password users past (λ j hash.
      update-IsPast i v j (λ w. record w { password_hash = some hash }) users (λ w. refl)
        (λ w. omega arith) past)

Step-IsPast :
    {tx : Texts} {h : Hasher} {i : ℕ} {users later : List User} (v : ℕ)
    → Step tx h i users later
    → IsPast i v users
    → IsPast i v later
unfolding set_role
Step-IsPast {i} {users} v (role_set j role) past =
    update-IsPast i v j (λ u. record u { role = role; session_version = u.session_version + 1 })
      users (λ u. refl) (λ u. omega arith) past
Step-IsPast {tx} {h} {i} {users} {later} v (password_changed j password _ e) past =
    change_password-IsPast tx h i v j password users later e past
Step-IsPast {tx} {h} {i} {users} {later} v (email_set j email _ e) past =
    set_email-IsPast tx h i v j email users later e past
Step-IsPast {tx} {h} {i} {users} {later} v (created name password role email u _ e) past =
    new-IsPast i v users (u, later)
      (create_user-new tx h name password role email users (u, later) e) past
Step-IsPast {tx} {h} {i} {users} {later} v (sso_created name email role u _ e) past =
    new-IsPast i v users (u, later) (create_sso_user-new tx h name email role users (u, later) e)
      past
Step-IsPast {tx} {h} {i} {users} v (authenticated name password) past =
    authenticate-IsPast tx h i v name password users past
Step-IsPast {i} {users} v (removed j differ) (w, e, past) =
    (w, get_user-remove i j users differ ∙ e, past)

pub Steps-IsPast :
    {tx : Texts} {h : Hasher} {i : ℕ} {users later : List User} (v : ℕ)
    → Steps tx h i users later
    → IsPast i v users
    → IsPast i v later
Steps-IsPast v here past = past
Steps-IsPast v (and_then before step) past = Step-IsPast v step (Steps-IsPast v before past)

-- ===== src/Accounts/Users/SignIn.antt =====
-- Sign-in with a password in src/bioseasy/auth.py.
use bioseasy.Prelude.{
  String, ◌≡◌, refl, ap, subst, true, false, Option, none, some, List, [], ◌∷◌, ◌++◌, arith, str_eq,
  eq_iff, if◌then◌else◌,
}
use bioseasy.Accounts.Users.Created.{bind-ok}
use bioseasy.Accounts.Users.{
  User, Role, Texts, Hasher, ok, create_user, optional_email, insert_user, is_taken, find_name,
  own_hash, stored_hash, signed_in, authenticate,
}

find_name-found :
    (tx : Texts) (h : Hasher) (name : String) (users : List User) (u : User)
    → find_name tx h name users ≡ some u
    → str_eq (tx.nocase u.username) (tx.nocase name) ≡ true
unfolding find_name
find_name-found tx h name [] u e = ground arith
find_name-found tx h name (x ∷ rest) u e = ground (arith, find_name-found tx h name rest u)

-- The account's own hash accepts the password.
abbrev pub HasPassword : Hasher → User → String → Type 0
HasPassword h u password = (s : String) × (u.password_hash ≡ some s) × (h.verify s password ≡ true)

own_hash-own :
    (tx : Texts) (h : Hasher) (o : Option String) (password : String)
    → h.verify h.dummy password ≡ false
    → h.verify (own_hash tx h o) password ≡ true
    → (s : String) × (o ≡ some s) × (h.verify s password ≡ true)
unfolding own_hash
own_hash-own tx h none password refused accepted = ground arith
own_hash-own tx h (some s) password refused accepted = (s, refl, ground arith)

found-HasPassword :
    (tx : Texts) (h : Hasher) (row : Option User) (password : String) (users : List User) (u : User)
    → h.verify h.dummy password ≡ false
    → (if h.verify (stored_hash tx h row) password
        then signed_in tx h (stored_hash tx h row) password row users
        else (none, users)).0
      ≡ some u
    → HasPassword h u password × (row ≡ some u)
unfolding signed_in stored_hash
found-HasPassword tx h none password users u refused e = ground arith
found-HasPassword tx h (some w) password users u refused e =
    let same : w ≡ u = ground arith in
    (
      subst (λ (v : User). HasPassword h v password) same
          (own_hash-own tx h w.password_hash password refused (ground arith)),
      ap some same,
    )

-- Where the dummy hash refuses the password, a sign-in succeeds only for the account whose name is the
-- given one, up to case, and only if that account has a hash of its own that accepts the password.
pub authenticate-HasPassword :
    (tx : Texts) (h : Hasher) (username password : String) (users : List User) (u : User)
    → h.verify h.dummy password ≡ false
    → (authenticate tx h username password users).0 ≡ some u
    → HasPassword h u password × (tx.nocase u.username ≡ tx.nocase (tx.strip username))
unfolding authenticate signed_in
authenticate-HasPassword tx h username password users u refused e =
    let row = find_name tx h (tx.strip username) users in
    let (has, found) = found-HasPassword tx h row password users u refused e in
    (
      has,
      ground (
        arith,
        eq_iff (tx.nocase u.username) (tx.nocase (tx.strip username)),
        find_name-found tx h (tx.strip username) users u found,
      ),
    )

find_name-new :
    (tx : Texts) (h : Hasher) (name : String) (email : Option String) (users : List User) (u : User)
    → is_taken tx h name email users ≡ false
    → u.username ≡ name
    → find_name tx h name (users ++ u ∷ []) ≡ some u
unfolding find_name is_taken
find_name-new tx h name email [] u free e =
    ground (arith, eq_iff (tx.nocase u.username) (tx.nocase name), ap tx.nocase e)
find_name-new tx h name email (x ∷ rest) u free e =
    ground (arith, find_name-new tx h name email rest u)

Findable : (tx : Texts) (h : Hasher) (name password : String) → User × List User → Type 0
Findable tx h name password (u, later) =
    (find_name tx h name later ≡ some u) × (u.password_hash ≡ some (h.hash password))

insert_user-Findable :
    (tx : Texts) (h : Hasher) (name password : String) (role : Role) (email : Option String)
    (users : List User) (p : User × List User)
    → insert_user tx h name (some (h.hash password)) role email users ≡ ok p
    → Findable tx h name password p
unfolding insert_user Findable
insert_user-Findable tx h name password role email users p e =
    ground (arith, find_name-new tx h name email users p.0)

create_user-Findable :
    (tx : Texts) (h : Hasher) (username password : String) (role : Role) (email : Option String)
    (users : List User) (p : User × List User)
    → create_user tx h username password role email users ≡ ok p
    → Findable tx h (tx.strip username) password p
unfolding create_user
create_user-Findable tx h username password role email users p e = ground (
  arith,
  bind-ok (Findable tx h (tx.strip username) password) (optional_email tx h email)
      (λ address. insert_user tx h (tx.strip username) (some (h.hash password)) role address users)
      (λ address. insert_user-Findable tx h (tx.strip username) password role address users) p,
)

-- An account that was just created signs in with the name and the password given, where the hash of
-- the password is not the empty text and accepts the password.
authenticate-create_user :
    (tx : Texts) (h : Hasher) (username password : String) (role : Role) (email : Option String)
    (users : List User) (u : User) (later : List User)
    → str_eq (h.hash password) "" ≡ false
    → h.verify (h.hash password) password ≡ true
    → create_user tx h username password role email users ≡ ok (u, later)
    → (authenticate tx h username password later).0 ≡ some u
unfolding authenticate signed_in stored_hash own_hash Findable
authenticate-create_user tx h username password role email users u later written accepts e =
    let (found, hash) = create_user-Findable tx h username password role email users (u, later) e in
    rw found (rw hash (ground (arith, written, accepts)))

-- ===== src/Accounts/Users/Created.antt =====
-- Accounts that src/bioseasy/auth.py creates: what they are, and that their password signs them in.
use bioseasy.Prelude.{
  suc, String, ◌≡◌, refl, ap, ◌∙◌, Option, none, some, List, [], ◌∷◌, ◌++◌, arith,
}
use bioseasy.Accounts.Users.{
  User, Role, admin, member, Texts, Hasher, Result, ok, raised, ◌>>=◌, max_id, create_user,
  register_user, create_sso_user, validate_email, optional_email, insert_user,
}

-- A new account at the end of the table, under the next id.
abbrev pub IsNew : List User → User × List User → Type 0
IsNew users (u, later) =
    (later ≡ users ++ u ∷ []) × (u.id ≡ suc (max_id users)) × (u.session_version ≡ 1)

abbrev Created : List User → Result (User × List User) → Type 0
Created users r = (p : User × List User) → r ≡ ok p → IsNew users p

insert_user-new :
    (tx : Texts) (h : Hasher) (name : String) (hash : Option String) (role : Role)
    (email : Option String) (users : List User)
    → Created users (insert_user tx h name hash role email users)
unfolding insert_user
insert_user-new tx h name hash role email users p e = ground arith

-- What every result of f has, the result of the chain has.
pub bind-ok :
    {A B : Type 0} (P : B → Type 0) (r : Result A) (f : A → Result B)
    → ((a : A) (b : B) → f a ≡ ok b → P b)
    → (b : B) → (r >>= f) ≡ ok b
    → P b
bind-ok P (ok a) f each = each a
bind-ok P (raised x) f each = λ b e. ground arith

pub create_user-new :
    (tx : Texts) (h : Hasher) (username password : String) (role : Role) (email : Option String)
    (users : List User)
    → Created users (create_user tx h username password role email users)
unfolding create_user
create_user-new tx h username password role email users p e = ground (
  arith,
  bind-ok (IsNew users) (optional_email tx h email)
      (λ address. insert_user tx h (tx.strip username) (some (h.hash password)) role address users)
      (λ address.
        insert_user-new tx h (tx.strip username) (some (h.hash password)) role address users)
      p,
)

pub create_sso_user-new :
    (tx : Texts) (h : Hasher) (username email : String) (role : Role) (users : List User)
    → Created users (create_sso_user tx h username email role users)
unfolding create_sso_user
create_sso_user-new tx h username email admin users = λ p e. ground arith
create_sso_user-new tx h username email member users =
    bind-ok (IsNew users) (validate_email tx h email) _
      (λ address. insert_user-new tx h (tx.strip username) none member (some address) users)

-- A member without a password, under the address.
abbrev pub IsSsoMember : Texts → String → User → Type 0
IsSsoMember tx email u =
    (u.role ≡ member) × (u.password_hash ≡ none) × (u.email ≡ some (tx.strip email))

validate_email-eq-strip :
    (tx : Texts) (h : Hasher) (value address : String)
    → validate_email tx h value ≡ ok address
    → address ≡ tx.strip value
unfolding validate_email
validate_email-eq-strip tx h value address e = ground arith

inserted-IsSsoMember :
    (tx : Texts) (h : Hasher) (name address : String) (users : List User) (p : User × List User)
    → insert_user tx h name none member (some address) users ≡ ok p
    → (p.0.role ≡ member) × (p.0.password_hash ≡ none) × (p.0.email ≡ some address)
unfolding insert_user
inserted-IsSsoMember tx h name address users p e = ground arith

pub create_sso_user-IsSsoMember :
    (tx : Texts) (h : Hasher) (username email : String) (role : Role) (users : List User)
    (p : User × List User)
    → create_sso_user tx h username email role users ≡ ok p
    → IsSsoMember tx email p.0
unfolding create_sso_user
create_sso_user-IsSsoMember tx h username email admin users p e = ground arith
create_sso_user-IsSsoMember tx h username email member users p e =
    chained (validate_email tx h email) (validate_email-eq-strip tx h email) e
  where
    chained :
        (r : Result String)
        → ((address : String) → r ≡ ok address → address ≡ tx.strip email)
        → (r >>= λ address. insert_user tx h (tx.strip username) none member (some address) users)
          ≡ ok p
        → IsSsoMember tx email p.0
    chained (raised x) same f = ground arith
    chained (ok address) same f =
        let (role, hash, at) = inserted-IsSsoMember tx h (tx.strip username) address users p f in
        (role, hash, at ∙ ap some (same address refl))

pub create_sso_user-member :
    (tx : Texts) (h : Hasher) (username email : String) (role : Role) (users : List User)
    (p : User × List User)
    → create_sso_user tx h username email role users ≡ ok p
    → p.0.role ≡ member
create_sso_user-member tx h username email role users p e =
    (create_sso_user-IsSsoMember tx h username email role users p e).0

insert_user-role :
    (tx : Texts) (h : Hasher) (name : String) (hash : Option String) (role : Role)
    (email : Option String) (users : List User) (p : User × List User)
    → insert_user tx h name hash role email users ≡ ok p
    → p.0.role ≡ role
unfolding insert_user
insert_user-role tx h name hash role email users p e = ground arith

create_user-role :
    (tx : Texts) (h : Hasher) (username password : String) (role : Role) (email : Option String)
    (users : List User) (p : User × List User)
    → create_user tx h username password role email users ≡ ok p
    → p.0.role ≡ role
unfolding create_user
create_user-role tx h username password role email users p e = ground (
  arith,
  bind-ok (λ (q : User × List User). q.0.role ≡ role) (optional_email tx h email)
      (λ address. insert_user tx h (tx.strip username) (some (h.hash password)) role address users)
      (λ address.
        insert_user-role tx h (tx.strip username) (some (h.hash password)) role address users)
      p,
)

-- A registered account is new, and has the role that was asked for.
pub register_user-IsNew :
    (tx : Texts) (h : Hasher) (username password : String) (role : Role) (email : String)
    (users : List User) (p : User × List User)
    → register_user tx h username password role email users ≡ ok p
    → IsNew users p × (p.0.role ≡ role)
unfolding register_user
register_user-IsNew tx h username password role email users =
    bind-ok (λ (q : User × List User). IsNew users q × (q.0.role ≡ role))
      (validate_email tx h email)
      (λ address. create_user tx h username password role (some address) users)
      (λ address q e. (
        create_user-new tx h username password role (some address) users q e,
        create_user-role tx h username password role (some address) users q e,
      ))

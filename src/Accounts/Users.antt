-- ===== src/Accounts/Users.antt =====
-- The users and the sessions of src/bioseasy/auth.py. What Python, SQLite and argon2 do with texts
-- is a parameter: `strip`, the form under which COLLATE NOCASE compares, the two tests on a text, and
-- the password hash.
pub mod Created
pub mod Rehash
pub mod Steps
pub mod Sessions
pub mod SignIn
pub mod Reused
use bioseasy.Prelude.{
  ℕ, zero, suc, ◌+◌, ◌-◌, ◌*◌, ◌/◌, ◌%◌, ◌^◌, ◌≤◌, ◌<◌, String, ◌≡◌, refl, sym, ap, ◌∙◌, subst, ◌≢◌,
  ◌↔◌, ◌⊎◌, inl, inr, Bool, true, false, not, ◌&&◌, ◌||◌, Option, none, some, List, [], ◌∷◌, ◌++◌,
  map, arith, str_eq, eq_iff, ltb, leb, ◌==◌, if◌then◌else◌, ltb→lt, leb→le, lt→ltb, le→leb,
  Bool-cases, Option-cases, is_none, List-cases, length, length-append, All,
}
use Prim.Native.String.{count}

pub data Role : Type 0 where
  admin member : Role

pub record User : Type 0 where
  pub id : ℕ
  pub username : String
  pub password_hash : Option String
  pub role : Role
  pub session_version : ℕ
  pub email : Option String

pub record Texts : Type 0 where
  pub strip : String → String
  pub nocase : String → String
  pub is_email : String → Bool

pub record Hasher : Type 0 where
  pub hash : String → String
  pub verify : String → String → Bool
  pub check_needs_rehash : String → Bool
  pub dummy : String

-- The messages of the ValueErrors.
pub data AuthError : Type 0 where
  email_required not_an_email bad_username short_password not_member taken email_taken : AuthError

pub data Result {ℓ} (A : Type ℓ) : Type ℓ where
  ok : A → Result A
  raised : AuthError → Result A

infixl 10 ◌>>=◌
abbrev pub ◌>>=◌ {ℓ κ} : {A : Type ℓ} {B : Type κ} → Result A → (A → Result B) → Result B
ok a >>= f = f a
raised e >>= f = raised e

abbrev pub min_password_length : ℕ
min_password_length = 12

-- SELECT * FROM users WHERE id = ?
unfoldable pub get_user : ℕ → List User → Option User
get_user i [] = none
get_user i (u ∷ rest) = if u.id == i then some u else get_user i rest

-- UPDATE users SET … WHERE id = ?
unfoldable pub update_user : ℕ → (User → User) → List User → List User
update_user i f [] = []
update_user i f (u ∷ rest) = (if u.id == i then f u else u) ∷ update_user i f rest

unfoldable pub remove_user : ℕ → List User → List User
remove_user i [] = []
remove_user i (u ∷ rest) =
    let others = remove_user i rest in if u.id == i then others else u ∷ others

-- INTEGER PRIMARY KEY without AUTOINCREMENT.
abbrev pub max_id : List User → ℕ
max_id [] = 0
max_id (u ∷ rest) = let m = max_id rest in if ltb m u.id then u.id else m

-- The session's uid and sv, where both are integers.
abbrev pub Session : Type 0
Session = ℕ × ℕ

unfoldable pub start_session : User → Session
start_session u = (u.id, u.session_version)

with_version : ℕ → Option User → Option User
with_version v none = none
with_version v (some u) = if u.session_version == v then some u else none

unfoldable pub session_user : List User → Session → Option User
unfolding with_version
session_user users (uid, sv) = with_version sv (get_user uid users)

unfoldable pub set_role : ℕ → Role → List User → List User
set_role i role =
    update_user i (λ u. record u { role = role; session_version = u.session_version + 1 })

module _ (tx : Texts) (h : Hasher) where
  unfoldable pub change_password : ℕ → String → List User → Result (List User)
  change_password i password users =
      if ltb (count password) min_password_length
      then raised short_password
      else ok (
          update_user i
            (λ u. record u {
              password_hash = some (h.hash password);
              session_version = u.session_version + 1;
            })
            users)

  unfoldable pub validate_email : String → Result String
  validate_email value =
      let email = tx.strip value in
      if str_eq email ""
      then raised email_required
      else if ltb 254 (count email) || not (tx.is_email email)
      then raised not_an_email
      else ok email

  -- The unique indexes: a user name, and an address where there is one.
  abbrev pub same_email : Option String → Option String → Bool
  same_email (some a) (some b) = str_eq (tx.nocase a) (tx.nocase b)
  same_email _ _ = false

  unfoldable pub is_taken : String → Option String → List User → Bool
  is_taken name email [] = false
  is_taken name email (u ∷ rest) =
      (str_eq (tx.nocase u.username) (tx.nocase name) || same_email u.email email)
      || is_taken name email rest

  insert_user :
      String → Option String → Role → Option String → List User → Result (User × List User)
  insert_user name hash role email users =
      if is_taken name email users
      then raised taken
      else let u : User = record {
        id = suc (max_id users);
        username = name;
        password_hash = hash;
        role = role;
        session_version = 1;
        email = email;
      } in
        ok (u, users ++ u ∷ [])

  optional_email : Option String → Result (Option String)
  optional_email none = ok none
  optional_email (some value) =
      if str_eq (tx.strip value) "" then ok none else (do e ← validate_email value; ok (some e))

  unfoldable pub create_user :
      String → String → Role → Option String → List User → Result (User × List User)
  unfolding insert_user optional_email validate_email
  create_user username password role email users =
      let name = tx.strip username in
      if str_eq name "" || ltb 64 (count name)
      then raised bad_username
      else if ltb (count password) min_password_length
      then raised short_password
      else do
        address ← optional_email email
        insert_user name (some (h.hash password)) role address users

  -- A missing address is the empty text.
  unfoldable pub register_user :
      String → String → Role → String → List User → Result (User × List User)
  unfolding create_user
  register_user username password role email users = do
    address ← validate_email email
    create_user username password role (some address) users

  unfoldable pub create_sso_user : String → String → Role → List User → Result (User × List User)
  unfolding insert_user validate_email
  create_sso_user username email admin users = raised not_member
  create_sso_user username email member users = do
    address ← validate_email email
    insert_user (tx.strip username) none member (some address) users

  -- SELECT 1 FROM users WHERE email = ? COLLATE NOCASE AND id != ?
  unfoldable pub email_of_other : String → ℕ → List User → Bool
  email_of_other email i [] = false
  email_of_other email i (u ∷ rest) =
      (same_email u.email (some email) && not (u.id == i)) || email_of_other email i rest

  unfoldable pub set_email : ℕ → String → List User → Result (List User)
  unfolding validate_email
  set_email i email users = do
    address ← validate_email email
    if email_of_other address i users
        then raised email_taken
        else ok (update_user i (λ u. record u { email = some address }) users)

  unfoldable pub find_name : String → List User → Option User
  find_name name [] = none
  find_name name (u ∷ rest) =
      if str_eq (tx.nocase u.username) (tx.nocase name) then some u else find_name name rest

  own_hash : Option String → String
  own_hash none = h.dummy
  own_hash (some s) = if str_eq s "" then h.dummy else s

  stored_hash : Option User → String
  unfolding own_hash
  stored_hash none = h.dummy
  stored_hash (some u) = own_hash u.password_hash

  rehash : String → String → User → List User → List User
  rehash stored password u users =
      if h.check_needs_rehash stored
      then update_user u.id (λ v. record v { password_hash = some (h.hash password) }) users
      else users

  signed_in : String → String → Option User → List User → Option User × List User
  unfolding rehash
  signed_in stored password none users = (none, users)
  signed_in stored password (some u) users = (some u, rehash stored password u users)

  unfoldable pub authenticate : String → String → List User → Option User × List User
  unfolding stored_hash signed_in
  authenticate username password users =
      let row = find_name (tx.strip username) users in
      if h.verify (stored_hash row) password
      then signed_in (stored_hash row) password row users
      else (none, users)

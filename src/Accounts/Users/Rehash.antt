-- ===== src/Accounts/Users/Rehash.antt =====
-- What `authenticate` of src/bioseasy/auth.py leaves of the table: the hash of one account may be new.
use bioseasy.Prelude.{ℕ, String, Option, none, some, List, if-holds}
use bioseasy.Accounts.Users.{
  User, Texts, Hasher, update_user, authenticate, signed_in, rehash, find_name, stored_hash,
}

module _ (tx : Texts) (h : Hasher) (P : List User → Type 0) where
  signed_in-holds :
      (stored password : String) (row : Option User) (users : List User)
      → P users
      → ((i : ℕ) (hash : String)
          → P (update_user i (λ w. record w { password_hash = some hash }) users))
      → P (signed_in tx h stored password row users).1
  unfolding signed_in rehash
  signed_in-holds stored password none users same anew = same
  signed_in-holds stored password (some u) users same anew =
      if-holds P (h.check_needs_rehash stored) (anew u.id (h.hash password)) same

  -- What holds of the table, and of it with a new hash, holds after a sign-in.
  pub authenticate-holds :
      (username password : String) (users : List User)
      → P users
      → ((i : ℕ) (hash : String)
          → P (update_user i (λ w. record w { password_hash = some hash }) users))
      → P (authenticate tx h username password users).1
  unfolding authenticate
  authenticate-holds username password users same anew =
      let row = find_name tx h (tx.strip username) users in
      if-holds (λ (p : Option User × List User). P p.1) (h.verify (stored_hash tx h row) password)
        (signed_in-holds (stored_hash tx h row) password row users same anew) same

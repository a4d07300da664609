-- ===== src/SignOn/Links/Names.antt =====
-- The account of an address, and the search of `username_for` in src/bioseasy/oidc.py for a name that no account has.
use bioseasy.Prelude.{
  ℕ, zero, suc, ◌≤◌, ◌<◌, String, ◌≡◌, refl, ◌≢◌, true, false, ◌∙◌, sym, none, some, List, [], ◌∷◌,
  arith, str_eq, eq_iff, if◌then◌else◌, Bool-cases, inl, inr,
}
use bioseasy.Accounts.Users.{User, Texts, Hasher}
use bioseasy.SignOn.Claims.{Python, Fields, ok}
use bioseasy.SignOn.Links.{
  with_email, only_one, find_user_by_email, name_taken, candidate, free_name, rows, base_name,
  username_for,
}

only_one-some : (l : List ℕ) (i : ℕ) → only_one l ≡ ok (some i) → l ≡ i ∷ []
unfolding only_one
only_one-some [] i e = ground arith
only_one-some (j ∷ []) i e = ground arith
only_one-some (j ∷ k ∷ rest) i e = ground arith

only_one-none : (l : List ℕ) → only_one l ≡ ok none → l ≡ []
unfolding only_one
only_one-none [] e = refl
only_one-none (j ∷ []) e = ground arith
only_one-none (j ∷ k ∷ rest) e = ground arith

pub find_user_by_email-some :
    (tx : Texts) (h : Hasher) (email : String) (users : List User) (i : ℕ)
    → find_user_by_email tx h email users ≡ ok (some i)
    → with_email tx h email users ≡ i ∷ []
unfolding find_user_by_email
find_user_by_email-some tx h email users i e = only_one-some (with_email tx h email users) i e

pub find_user_by_email-none :
    (tx : Texts) (h : Hasher) (email : String) (users : List User)
    → find_user_by_email tx h email users ≡ ok none
    → with_email tx h email users ≡ []
unfolding find_user_by_email
find_user_by_email-none tx h email users e = only_one-none (with_email tx h email users) e

-- The accounts without those of one name.
without : Texts → String → List User → List User
without tx name [] = []
without tx name (u ∷ rest) =
    let others = without tx name rest in
    if str_eq (tx.nocase u.username) (tx.nocase name) then others else u ∷ others

rows-without_le :
    (tx : Texts) (name : String) (users : List User) → rows (without tx name users) ≤ rows users
unfolding without
rows-without_le tx name [] = omega arith
rows-without_le tx name (u ∷ rest) = ground (arith, rows-without_le tx name rest)

rows-without :
    (tx : Texts) (name : String) (users : List User)
    → name_taken tx name users ≡ true
    → rows (without tx name users) < rows users
unfolding without name_taken
rows-without tx name [] e = ground arith
rows-without tx name (u ∷ rest) e =
    ground (arith, rows-without tx name rest, rows-without_le tx name rest)

taken-without :
    (tx : Texts) (name other : String) (users : List User)
    → tx.nocase name ≢ tx.nocase other
    → name_taken tx other (without tx name users) ≡ name_taken tx other users
unfolding without name_taken
taken-without tx name other [] differ = refl
taken-without tx name other (u ∷ rest) differ = ground (
  arith,
  taken-without tx name other rest differ,
  eq_iff (tx.nocase u.username) (tx.nocase name),
  eq_iff (tx.nocase u.username) (tx.nocase other),
)

-- Python's numerals and SQLite's NOCASE keep the names base, base-2, base-3 and so on apart.
abbrev pub AreApart : Texts → (ℕ → String) → Type 0
AreApart tx str =
    (base : String) (i j : ℕ)
    → tx.nocase (candidate str base i) ≡ tx.nocase (candidate str base j)
    → i ≡ j

module _ (tx : Texts) (str : ℕ → String) (base : String) where
  free_name-agree :
      (us vs : List User) (fuel n : ℕ)
      → ((k : ℕ)
          → n ≤ k
          → name_taken tx (candidate str base k) us ≡ name_taken tx (candidate str base k) vs)
      → free_name tx str base us fuel n ≡ free_name tx str base vs fuel n
  unfolding free_name
  free_name-agree us vs zero n same = refl
  free_name-agree us vs (suc fuel) n same = ground (
    arith,
    same n (omega arith),
    free_name-agree us vs fuel (suc n) (λ k h. same k (omega arith)),
  )

  -- A candidate that is found, and that no account has.
  abbrev Found : List User → ℕ → ℕ → Type 0
  Found users fuel n =
      (k : ℕ) × (n ≤ k)
      × (free_name tx str base users fuel n ≡ some (candidate str base k))
      × (name_taken tx (candidate str base k) users ≡ false)

  found_later :
      (users : List User) (fuel n : ℕ)
      → AreApart tx str
      → name_taken tx (candidate str base n) users ≡ true
      → Found (without tx (candidate str base n) users) fuel (suc n)
      → Found users (suc fuel) n
  unfolding free_name
  found_later users fuel n apart taken (k, le, found, free) =
      let others = without tx (candidate str base n) users in
      let same = λ (j : ℕ) (h : suc n ≤ j).
        taken-without tx (candidate str base n) (candidate str base j) users
          (λ e. absurd (omega (arith, apart base n j e))) in
      (
        k,
        omega arith,
        ground (arith, free_name-agree others users fuel (suc n) same),
        sym (same k le) ∙ free,
      )

  free_name-Found :
      (fuel n : ℕ) (users : List User) → AreApart tx str → rows users < fuel → Found users fuel n
  unfolding free_name
  free_name-Found zero n users apart h = absurd (omega arith)
  free_name-Found (suc fuel) n users apart h =
      elim (Bool-cases (name_taken tx (candidate str base n) users)) [
        | inl taken ↦ found_later users fuel n apart taken (
            free_name-Found fuel (suc n) (without tx (candidate str base n) users) apart
              (omega (arith, rows-without tx (candidate str base n) users taken)))
        | inr free ↦ (n, omega arith, ground arith, free)
      ]

-- Where the names base, base-2, base-3 and so on are told apart, the search for a user name ends
-- after at most one try more than there are accounts, and gives a name that no account has.
pub username_for-free :
    (py : Python) (tx : Texts) (str : ℕ → String) (claims : Fields) (email : String)
    (users : List User)
    → AreApart tx str
    → (name : String) × (username_for py tx str claims email users ≡ some name)
      × (name_taken tx name users ≡ false)
unfolding username_for
username_for-free py tx str claims email users apart =
    let (k, _, found, free) =
      free_name-Found tx str (base_name py claims email) (suc (rows users)) 0 users apart
        (omega arith) in
    (candidate str (base_name py claims email) k, found, free)

-- ===== src/SignOn/Links.antt =====
-- The table `oidc_links` of src/bioseasy/oidc.py, in which the pair of issuer and subject is the key,
-- and the search for the account that an identity is matched with.
pub mod Kept
pub mod Names
use bioseasy.Prelude.{
  ℕ, zero, suc, ◌+◌, String, Bool, true, false, not, ◌&&◌, ◌||◌, Option, none, some, List, [], ◌∷◌,
  ◌++◌, str_eq, ltb, ◌==◌, if◌then◌else◌,
}
use Prim.Native.Char.{Char, code}
use Prim.Native.String.{◌++◌ as str_append}
use bioseasy.Accounts.Users.{User, Texts, Hasher, same_email}
use bioseasy.SignOn.Claims.{
  Python, Fields, Result, ok, refused, linked_elsewhere, ambiguous_email, other_identity,
  stripped_claim,
}

pub record Link : Type 0 where
  pub link_id : ℕ
  pub user_id : ℕ
  pub issuer : String
  pub subject : String

-- WHERE issuer = ? AND subject = ?
abbrev pub is_identity : String → String → Link → Bool
is_identity issuer subject l = str_eq l.issuer issuer && str_eq l.subject subject

unfoldable pub find_linked_user : String → String → List Link → Option ℕ
find_linked_user issuer subject [] = none
find_linked_user issuer subject (l ∷ rest) =
    if is_identity issuer subject l then some l.user_id else find_linked_user issuer subject rest

abbrev pub max_id : List Link → ℕ
max_id [] = 0
max_id (l ∷ rest) = let m = max_id rest in if ltb m l.link_id then l.link_id else m

abbrev pub new_link : ℕ → String → String → List Link → Link
new_link user issuer subject links = record {
  link_id = suc (max_id links);
  user_id = user;
  issuer = issuer;
  subject = subject;
}

link_beside : ℕ → String → String → List Link → Option ℕ → Result (List Link)
link_beside user issuer subject links none = ok (links ++ new_link user issuer subject links ∷ [])
link_beside user issuer subject links (some existing) =
    if existing == user then ok links else linked_elsewhere

unfoldable pub link : ℕ → String → String → List Link → Result (List Link)
unfolding link_beside
link user issuer subject links =
    link_beside user issuer subject links (find_linked_user issuer subject links)

-- DELETE FROM oidc_links WHERE rowid = ? AND user_id = ?, and whether a row was removed.
unfoldable pub unlink : ℕ → ℕ → List Link → Bool × List Link
unlink user i [] = (false, [])
unlink user i (l ∷ rest) =
    let (found, others) = unlink user i rest in
    if l.link_id == i && l.user_id == user then (true, others) else (found, l ∷ others)

-- Whether the account has another subject at this issuer.
unfoldable pub has_other_subject : ℕ → String → String → List Link → Bool
has_other_subject user issuer subject [] = false
has_other_subject user issuer subject (l ∷ rest) =
    (l.user_id == user && (str_eq l.issuer issuer && not (str_eq l.subject subject)))
    || has_other_subject user issuer subject rest

unfoldable pub bind : ℕ → String → String → List Link → Result (List Link)
unfolding link
bind user issuer subject links =
    if has_other_subject user issuer subject links
    then refused other_identity
    else link user issuer subject links

-- The ids of the accounts with this address.
unfoldable pub with_email : Texts → Hasher → String → List User → List ℕ
with_email tx h email [] = []
with_email tx h email (u ∷ rest) =
    let others = with_email tx h email rest in
    if same_email tx h u.email (some email) then u.id ∷ others else others

only_one : List ℕ → Result (Option ℕ)
only_one [] = ok none
only_one (i ∷ []) = ok (some i)
only_one (i ∷ j ∷ rest) = refused ambiguous_email

unfoldable pub find_user_by_email : Texts → Hasher → String → List User → Result (Option ℕ)
unfolding only_one
find_user_by_email tx h email users = only_one (with_email tx h email users)

-- SELECT 1 FROM users WHERE username = ? COLLATE NOCASE
unfoldable pub name_taken : Texts → String → List User → Bool
name_taken tx name [] = false
name_taken tx name (u ∷ rest) =
    str_eq (tx.nocase u.username) (tx.nocase name) || name_taken tx name rest

-- `email.split("@")[0]`
before_at : String → String
before_at String.[] = String.[]
before_at (String.◌∷◌ c s) = if code c == 64 then String.[] else String.◌∷◌ c (before_at s)

-- `base[:n]`
first_chars : ℕ → String → String
first_chars zero s = String.[]
first_chars (suc n) String.[] = String.[]
first_chars (suc n) (String.◌∷◌ c s) = String.◌∷◌ c (first_chars n s)

abbrev pub or_text : String → String → String
or_text s fallback = if str_eq s "" then fallback else s

base_name : Python → Fields → String → String
unfolding before_at first_chars
base_name py claims email =
    let base =
      or_text (stripped_claim py "preferred_username" claims) (py.strip (before_at email)) in
    or_text (first_chars 56 base) "user"

-- The name that is tried after n others: the base, base-2, base-3. `str` is Python's.
unfoldable pub candidate : (ℕ → String) → String → ℕ → String
candidate str base zero = base
candidate str base (suc n) = str_append base (str_append "-" (str (n + 2)))

-- The loop; `none` means that the fuel ran out.
unfoldable pub free_name : Texts → (ℕ → String) → String → List User → ℕ → ℕ → Option String
free_name tx str base users zero n = none
free_name tx str base users (suc fuel) n =
    let next = free_name tx str base users fuel (suc n) in
    if name_taken tx (candidate str base n) users then next else some (candidate str base n)

abbrev pub rows : List User → ℕ
rows [] = 0
rows (u ∷ rest) = suc (rows rest)

unfoldable pub username_for :
    Python → Texts → (ℕ → String) → Fields → String → List User → Option String
unfolding base_name
username_for py tx str claims email users =
    free_name tx str (base_name py claims email) users (suc (rows users)) 0

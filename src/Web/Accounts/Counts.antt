-- ===== src/Web/Accounts/Counts.antt =====
-- How the operations of src/bioseasy/auth.py change the number of administrators.
use bioseasy.Prelude.{
  ℕ, suc, ◌+◌, ◌<◌, ◌≡◌, refl, ap, ◌∙◌, ◌≢◌, none, some, List, [], ◌∷◌, ◌++◌, arith, ◌==◌,
  if◌then◌else◌, if-holds,
}
use bioseasy.Accounts.Users.{
  User, Role, admin, member, max_id, get_user, update_user, remove_user, set_role,
}
use bioseasy.Web.Accounts.{is_admin, admin_count}

-- No id stands in two rows.
abbrev pub Distinct : List User → Type 0
Distinct [] = Unit
Distinct (u ∷ rest) = (get_user u.id rest ≡ none) × Distinct rest

abbrev pub one_if : Role → ℕ
one_if admin = 1
one_if member = 0

pub admin_count-append :
    (users : List User) (u : User)
    → admin_count (users ++ u ∷ []) ≡ admin_count users + one_if u.role
unfolding admin_count
admin_count-append [] u = ground arith
admin_count-append (x ∷ rest) u = ground (arith, admin_count-append rest u)

pub admin_count-update :
    (i : ℕ) (f : User → User) (users : List User)
    → ((u : User) → (f u).role ≡ u.role)
    → admin_count (update_user i f users) ≡ admin_count users
unfolding admin_count update_user
admin_count-update i f [] same = refl
admin_count-update i f (u ∷ rest) same = ground (arith, same u, admin_count-update i f rest same)

update-absent :
    (i : ℕ) (f : User → User) (users : List User)
    → get_user i users ≡ none
    → update_user i f users ≡ users
unfolding get_user update_user
update-absent i f [] e = refl
update-absent i f (u ∷ rest) e = ground (arith, update-absent i f rest)

remove-absent : (i : ℕ) (users : List User) → get_user i users ≡ none → remove_user i users ≡ users
unfolding get_user remove_user
remove-absent i [] e = refl
remove-absent i (u ∷ rest) e = ground (arith, remove-absent i rest)

pub one_if-eq : (r : Role) → (if is_admin r then suc 0 else 0) ≡ one_if r
one_if-eq admin = refl
one_if-eq member = refl

update-count :
    (i : ℕ) (f : User → User) (role : Role) (users : List User) (w : User)
    → ((u : User) → (f u).role ≡ role)
    → Distinct users
    → get_user i users ≡ some w
    → admin_count (update_user i f users) + one_if w.role ≡ admin_count users + one_if role
unfolding admin_count update_user get_user
update-count i f role [] w same d e = ground arith
update-count i f role (u ∷ rest) w same d e =
    ground (arith, same u, update-absent i f rest, update-count i f role rest w same d.1)

pub admin_count-set_role :
    (i : ℕ) (role : Role) (users : List User) (w : User)
    → Distinct users
    → get_user i users ≡ some w
    → admin_count (set_role i role users) + one_if w.role ≡ admin_count users + one_if role
unfolding set_role
admin_count-set_role i role users w d e =
    update-count i (λ u. record u { role = role; session_version = u.session_version + 1 }) role
      users w (λ u. refl) d e

pub admin_count-remove :
    (i : ℕ) (users : List User) (w : User)
    → Distinct users
    → get_user i users ≡ some w
    → admin_count (remove_user i users) + one_if w.role ≡ admin_count users
unfolding admin_count remove_user get_user
admin_count-remove i [] w d e = ground arith
admin_count-remove i (u ∷ rest) w d e =
    ground (arith, remove-absent i rest, admin_count-remove i rest w d.1)

-- Ids stay apart.
get_user-update_none :
    (j i : ℕ) (f : User → User) (users : List User)
    → ((u : User) → (f u).id ≡ u.id)
    → get_user j users ≡ none
    → get_user j (update_user i f users) ≡ none
unfolding get_user update_user
get_user-update_none j i f [] same e = refl
get_user-update_none j i f (u ∷ rest) same e =
    ground (arith, same u, get_user-update_none j i f rest same)

pub update-Distinct :
    (i : ℕ) (f : User → User) (users : List User)
    → ((u : User) → (f u).id ≡ u.id)
    → Distinct users
    → Distinct (update_user i f users)
unfolding update_user
update-Distinct i f [] same d = tt
update-Distinct i f (u ∷ rest) same (e, d) = (
  if-holds (λ (v : User). get_user v.id (update_user i f rest) ≡ none) (u.id == i)
      (ap (λ (k : ℕ). get_user k (update_user i f rest)) (same u)
        ∙ get_user-update_none u.id i f rest same e)
      (get_user-update_none u.id i f rest same e),
  update-Distinct i f rest same d,
)

get_user-remove_none :
    (j i : ℕ) (users : List User)
    → get_user j users ≡ none
    → get_user j (remove_user i users) ≡ none
unfolding get_user remove_user
get_user-remove_none j i [] e = refl
get_user-remove_none j i (u ∷ rest) e = ground (arith, get_user-remove_none j i rest)

pub remove-Distinct : (i : ℕ) (users : List User) → Distinct users → Distinct (remove_user i users)
unfolding remove_user
remove-Distinct i [] d = tt
remove-Distinct i (u ∷ rest) (e, d) =
    if-holds Distinct (u.id == i) (remove-Distinct i rest d)
      (get_user-remove_none u.id i rest e, remove-Distinct i rest d)

get_user-append_none :
    (j : ℕ) (users : List User) (u : User)
    → get_user j users ≡ none
    → u.id ≢ j
    → get_user j (users ++ u ∷ []) ≡ none
unfolding get_user
get_user-append_none j [] u e differ = ground arith
get_user-append_none j (x ∷ rest) u e differ = ground (arith, get_user-append_none j rest u)

pub append-Distinct :
    (users : List User) (u : User)
    → max_id users < u.id
    → Distinct users
    → Distinct (users ++ u ∷ [])
unfolding get_user
append-Distinct [] u h d = (refl, tt)
append-Distinct (x ∷ rest) u h (e, d) = (
  get_user-append_none x.id rest u e (λ same. absurd (ground (arith, same))),
  append-Distinct rest u (ground arith) d,
)

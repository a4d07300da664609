-- ===== src/Accounts/Users/Reused.antt =====
-- What SQLite's reuse of the ids of src/bioseasy/auth.py's table of users means for a session.
use bioseasy.Prelude.{
  ◌<◌, String, ◌≡◌, sym, ap, ◌∙◌, subst, Option, some, List, [], ◌∷◌, ◌++◌, arith,
}
use bioseasy.Accounts.Users.{
  User, Role, Texts, Hasher, ok, get_user, remove_user, max_id, start_session, with_version,
  session_user, create_user,
}
use bioseasy.Accounts.Users.Created.{IsNew, create_user-new}

remove_user-last :
    (users : List User) (u : User)
    → max_id users < u.id
    → remove_user u.id (users ++ u ∷ []) ≡ users
unfolding remove_user
remove_user-last [] u below = ground arith
remove_user-last (x ∷ rest) u below = ground (arith, remove_user-last rest u)

get_user-last :
    (users : List User) (u : User) → max_id users < u.id → get_user u.id (users ++ u ∷ []) ≡ some u
unfolding get_user
get_user-last [] u below = ground arith
get_user-last (x ∷ rest) u below = ground (arith, get_user-last rest u)

remove-new :
    (users : List User) (p : User × List User) → IsNew users p → remove_user p.0.id p.1 ≡ users
unfolding remove_user
remove-new users (u, later) (at, id, version) =
    ap (remove_user u.id) at ∙ remove_user-last users u (rw id (omega arith))

reused :
    (users : List User) (p q : User × List User)
    → IsNew users p
    → IsNew users q
    → session_user q.1 (start_session p.0) ≡ some q.0
unfolding session_user start_session
reused users (u, mid) (v, later) (_, id, version) (at, id', version') =
    ap (with_version u.session_version) (
      ap (get_user u.id) at
      ∙ ap (λ i. get_user i (users ++ v ∷ [])) (id ∙ sym id')
      ∙ get_user-last users v (rw id' (omega arith)))
    ∙ ground (arith, version, version')

-- If the account created last is removed and another is created next, a session of the removed
-- account signs in as the new one: the id is given again, and both versions are 1.
pub create_user-reuses_session :
    (tx : Texts) (h : Hasher) (users : List User) (name password : String) (role : Role)
    (email : Option String) (u : User) (mid : List User) (name' password' : String) (role' : Role)
    (email' : Option String) (v : User) (later : List User)
    → create_user tx h name password role email users ≡ ok (u, mid)
    → create_user tx h name' password' role' email' (remove_user u.id mid) ≡ ok (v, later)
    → session_user later (start_session u) ≡ some v
create_user-reuses_session tx h users name password role email u mid name' password' role' email' v
      later first second =
    let new = create_user-new tx h name password role email users (u, mid) first in
    reused users (u, mid) (v, later) new
      (create_user-new tx h name' password' role' email' users (v, later)
        (subst
          (λ (us : List User). create_user tx h name' password' role' email' us ≡ ok (v, later))
          (remove-new users (u, mid) new) second))

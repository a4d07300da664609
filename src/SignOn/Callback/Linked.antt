-- ===== src/SignOn/Callback/Linked.antt =====
-- The identities of src/bioseasy/oidc.py that are linked stay with their account.
use bioseasy.Prelude.{
  ◌⊎◌, true, ℕ, ◌<◌, String, ◌≡◌, refl, ap, ◌∙◌, Option, none, some, List, [], ◌∷◌, ◌++◌, arith,
  Bool-cases, inl, inr,
}
use bioseasy.Accounts.Users as Users
use bioseasy.Accounts.Users.{User, member, Session, get_user, create_sso_user}
use bioseasy.Accounts.Users.Created.{IsNew, create_sso_user-new, create_sso_user-member}
use bioseasy.Accounts.Users.Steps.{get_user-append, get_user-id}
use bioseasy.SignOn.Claims.{
  Result, ok, ◌>>=◌, ◌>>◌, chain-ok, holds-ok, claimed_email, check_group, remote_userinfo,
}
use bioseasy.SignOn.Links.{find_linked_user, link, bind, find_user_by_email, username_for}
use bioseasy.SignOn.Links.Kept.{link-found, link-keeps, bind-keeps, bind-found}
use bioseasy.SignOn.Callback.{
  Setup, Identity, Tables, registered, register, take_over, resolve_match, resolve_by_email,
  linked_user, user_or_resolved, sign_in,
}

get_user-above : (i : ℕ) (users : List User) → Users.max_id users < i → get_user i users ≡ none
unfolding get_user
get_user-above i [] h = refl
get_user-above i (u ∷ rest) h = ground (arith, get_user-above i rest)

get_user-last :
    (users : List User) (u : User)
    → get_user u.id users ≡ none
    → get_user u.id (users ++ u ∷ []) ≡ some u
unfolding get_user
get_user-last [] u e = ground arith
get_user-last (x ∷ rest) u e = ground (arith, get_user-last rest u)

pub get_user-new :
    (users : List User) (p : User × List User) → IsNew users p → get_user p.0.id p.1 ≡ some p.0
get_user-new users (u, later) (at, id, _) =
    ap (get_user u.id) at ∙ get_user-last users u (get_user-above u.id users (omega arith))

-- The identity belongs to the account u, as it stands in the table.
abbrev pub Belongs : String → String → User → Tables → Type 0
Belongs iss sub u t =
    (i : ℕ) × (find_linked_user iss sub t.links ≡ some i) × (get_user i t.users ≡ some u)

linked_user-found :
    (iss sub : String) (t : Tables) (i : ℕ) (u : User)
    → find_linked_user iss sub t.links ≡ some i
    → get_user i t.users ≡ some u
    → linked_user iss sub t ≡ some u
unfolding linked_user
linked_user-found iss sub t i u e f = ground arith

-- The accounts are as they were, or there is one more, a member, where registration is allowed.
abbrev pub Grown : Setup → List User → List User → Type 0
Grown c users later =
    (later ≡ users)
    ⊎ (c.settings.allow_registration ≡ true)
      × ((u : User) × IsNew users (u, later) × (u.role ≡ member))

-- What the tables have, they keep: every account as it is, and every identity with its account.
pub record Keeps (c : Setup) (t t' : Tables) : Type 0 where
  pub grown : Grown c t.users t'.users
  pub users : (i : ℕ) (w : User) → get_user i t.users ≡ some w → get_user i t'.users ≡ some w
  pub links :
      (iss sub : String) (i : ℕ)
      → find_linked_user iss sub t.links ≡ some i
      → find_linked_user iss sub t'.links ≡ some i

pub Keeps-refl : (c : Setup) (t : Tables) → Keeps c t t
Keeps-refl c t = record { grown = inl refl; users = λ i w e. e; links = λ iss sub i e. e }

pub Belongs-Keeps :
    (c : Setup) (iss sub : String) (u : User) (t t' : Tables)
    → Keeps c t t'
    → Belongs iss sub u t
    → Belongs iss sub u t'
Belongs-Keeps c iss sub u t t' k (i, e, f) = (i, k.links iss sub i e, k.users i u f)

-- The result of a sign-in: the identity belongs to the account, and nothing else is lost.
pub record Settled (c : Setup) (id : Identity) (t : Tables) (p : User × Tables) : Type 0 where
  pub belongs : Belongs id.issuer id.subject p.0 p.1
  pub keeps : Keeps c t p.1

module _ (c : Setup) (id : Identity) (t : Tables) where
  take_over-Settled :
      (i : ℕ) (o : Option User)
      → get_user i t.users ≡ o
      → (p : User × Tables) → take_over c id t o ≡ ok p
      → Settled c id t p
  unfolding take_over
  take_over-Settled i none e p f = ground arith
  take_over-Settled i (some v) e p f =
      let (links, made, same) =
        chain-ok (bind v.id id.issuer id.subject t.links)
          (λ links. ok (v, record t { links = links })) f in
      holds-ok (Settled c id t) same (record {
        belongs = (
          v.id,
          bind-found id.issuer id.subject v.id t.links links made,
          ap (λ (k : ℕ). get_user k t.users) (get_user-id i t.users v e) ∙ e,
        );
        keeps = record {
          grown = inl refl;
          users = λ j w g. g;
          links =
              λ iss sub j g. bind-keeps iss sub j v.id id.issuer id.subject t.links links g made;
        };
      })

  created-Settled :
      (r : Users.Result (User × List User))
      → c.settings.allow_registration ≡ true
      → ((q : User × List User) → r ≡ Users.ok q → IsNew t.users q)
      → ((q : User × List User) → r ≡ Users.ok q → q.0.role ≡ member)
      → (p : User × Tables) → registered c id t r ≡ ok p
      → Settled c id t p
  unfolding registered
  created-Settled (Users.raised x) on new each p f = ground arith
  created-Settled (Users.ok (u, users)) on new each p f =
      let (links, made, same) =
        chain-ok (link u.id id.issuer id.subject t.links)
          (λ links. ok (u, record { users = users; links = links })) f in
      let is_new = new (u, users) refl in
      holds-ok (Settled c id t) same (record {
        belongs = (
          u.id,
          link-found id.issuer id.subject u.id t.links links made,
          get_user-new t.users (u, users) is_new,
        );
        keeps = record {
          grown = inr (on, (u, is_new, each (u, users) refl));
          users = λ j w g. ap (get_user j) is_new.0 ∙ get_user-append j t.users u w g;
          links =
              λ iss sub j g. link-keeps iss sub j u.id id.issuer id.subject t.links links g made;
        };
      })

  register-Settled :
      (name : Option String) (email : String) (p : User × Tables)
      → c.settings.allow_registration ≡ true
      → register c id t name email ≡ ok p
      → Settled c id t p
  unfolding register
  register-Settled none email p on f = ground arith
  register-Settled (some name) email p on f =
      created-Settled (create_sso_user c.tx c.h name email member t.users) on
        (create_sso_user-new c.tx c.h name email member t.users)
        (create_sso_user-member c.tx c.h name email member t.users) p f

  resolve_match-Settled :
      (email : String) (o : Option ℕ) (p : User × Tables)
      → resolve_match c id t email o ≡ ok p
      → Settled c id t p
  unfolding resolve_match
  resolve_match-Settled email none p f = elim (Bool-cases c.settings.allow_registration) [
    | inl on ↦
        register-Settled (username_for c.py c.tx c.str id.claims email t.users) email p on
          (rw on at f)
    | inr off ↦ cc (rw off at f)
  ]
  resolve_match-Settled email (some i) p f = take_over-Settled i (get_user i t.users) refl p f

  resolve_by_email-Settled : (p : User × Tables) → resolve_by_email c id t ≡ ok p → Settled c id t p
  unfolding resolve_by_email
  resolve_by_email-Settled p f =
      let (email, _, g) =
        chain-ok (claimed_email c.py c.settings.require_verified_email id.claims)
          (λ email. find_user_by_email c.tx c.h email t.users >>= resolve_match c id t email) f in
      let (matched, _, e) =
        chain-ok (find_user_by_email c.tx c.h email t.users) (resolve_match c id t email) g in
      resolve_match-Settled email matched p e

  linked_user-Belongs :
      (u : User) (o : Option ℕ)
      → find_linked_user id.issuer id.subject t.links ≡ o
      → linked_user id.issuer id.subject t ≡ some u
      → Belongs id.issuer id.subject u t
  unfolding linked_user
  linked_user-Belongs u none e f = ground arith
  linked_user-Belongs u (some i) e f = (i, e, ground arith)

  user_or_resolved-Settled :
      (o : Option User)
      → linked_user id.issuer id.subject t ≡ o
      → (p : User × Tables) → user_or_resolved c id t o ≡ ok p
      → Settled c id t p
  unfolding user_or_resolved
  user_or_resolved-Settled none e p f = resolve_by_email-Settled p f
  user_or_resolved-Settled (some u) e p f = holds-ok (Settled c id t) f (record {
    belongs = linked_user-Belongs u (find_linked_user id.issuer id.subject t.links) refl e;
    keeps = Keeps-refl c t;
  })

  pub sign_in-Settled : (p : User × Tables) → sign_in c id t ≡ ok p → Settled c id t p
  unfolding sign_in
  sign_in-Settled p f =
      let user = linked_user id.issuer id.subject t in
      let (_, _, g) =
        chain-ok
          (check_group c.py c.settings id.claims
            (remote_userinfo c.py c.settings id.claims id.userinfo_answer))
          (λ _. user_or_resolved c id t user) f in
      user_or_resolved-Settled user refl p g

-- Whoever the identity belongs to signs in, where the group check passes.
pub sign_in-linked :
    (c : Setup) (id : Identity) (t : Tables) (u : User)
    → check_group c.py c.settings id.claims
        (remote_userinfo c.py c.settings id.claims id.userinfo_answer)
      ≡ ok tt
    → Belongs id.issuer id.subject u t
    → sign_in c id t ≡ ok (u, t)
unfolding sign_in user_or_resolved
sign_in-linked c id t u passed (i, e, f) =
    let user = linked_user id.issuer id.subject t in
    ap (λ (r : Result (Unit {0})). r >> user_or_resolved c id t user) passed
    ∙ ap (user_or_resolved c id t) (linked_user-found id.issuer id.subject t i u e f)

-- ===== src/SignOn/Callback/Matched.antt =====
-- Whom `login_oidc_callback` of src/bioseasy/app.py signs in.
use bioseasy.Prelude.{
  ℕ, String, ◌≡◌, refl, sym, ap, ◌∙◌, ◌≢◌, inl, inr, true, false, Option, none, some, List, [], ◌∷◌,
  arith, eq_iff, Bool-cases,
}
use bioseasy.Accounts.Users as Users
use bioseasy.Accounts.Users.{User, Role, member, Texts, Hasher, get_user, create_sso_user}
use bioseasy.Accounts.Users.Created.{
  IsNew, IsSsoMember, create_sso_user-new, create_sso_user-IsSsoMember,
}
use bioseasy.Accounts.Users.Steps.{get_user-id}
use bioseasy.SignOn.Claims.{
  Fields, ok, ◌>>=◌, chain-ok, holds-ok, get_field, is_true, stripped_claim, claimed_email,
  check_group, remote_userinfo,
}
use bioseasy.SignOn.Links.{
  Link, link, bind, has_other_subject, with_email, find_user_by_email, username_for,
}
use bioseasy.SignOn.Links.Names.{find_user_by_email-none, find_user_by_email-some}
use bioseasy.SignOn.Callback.{
  Setup, Identity, Tables, registered, register, take_over, resolve_match, resolve_by_email,
  linked_user, user_or_resolved, sign_in,
}
use bioseasy.SignOn.Callback.Linked.{Belongs, sign_in-Settled}

-- The provider's address for this identity, which it vouches for where that is required.
abbrev pub Vouched : Setup → Fields → String → Type 0
Vouched c claims email =
    (email ≡ stripped_claim c.py "email" claims)
    × (email ≢ "")
    × (c.settings.require_verified_email ≡ true
        → is_true (get_field "email_verified" claims) ≡ true)

-- The reasons for which an identity may sign in as the account u, and what becomes of the accounts.
pub data Entitled (c : Setup) (id : Identity) (t : Tables) (u : User) (t' : Tables) : Type 0 where
  by_link : linked_user id.issuer id.subject t ≡ some u → t' ≡ t → Entitled c id t u t'
  by_email :
      (email : String)
      → Vouched c id.claims email
      → with_email c.tx c.h email t.users ≡ u.id ∷ []
      → get_user u.id t.users ≡ some u
      → has_other_subject u.id id.issuer id.subject t.links ≡ false
      → t'.users ≡ t.users
      → Entitled c id t u t'
  as_new_member :
      (email : String)
      → Vouched c id.claims email
      → with_email c.tx c.h email t.users ≡ []
      → c.settings.allow_registration ≡ true
      → IsNew t.users (u, t'.users)
      → IsSsoMember c.tx email u
      → Entitled c id t u t'

claimed_email-Vouched :
    (c : Setup) (claims : Fields) (email : String)
    → claimed_email c.py c.settings.require_verified_email claims ≡ ok email
    → Vouched c claims email
unfolding claimed_email
claimed_email-Vouched c claims email e =
    let own = stripped_claim c.py "email" claims in
    (ground arith, ground (arith, eq_iff own ""), λ r. ground arith)

module _ (c : Setup) (id : Identity) (t : Tables) (email : String) where
  bound :
      (user : ℕ) (links : List Link)
      → bind user id.issuer id.subject t.links ≡ ok links
      → has_other_subject user id.issuer id.subject t.links ≡ false
  unfolding bind
  bound user links e = ground arith

  take_over-Entitled :
      (i : ℕ) (o : Option User)
      → get_user i t.users ≡ o
      → Vouched c id.claims email
      → with_email c.tx c.h email t.users ≡ i ∷ []
      → (p : User × Tables) → take_over c id t o ≡ ok p
      → Entitled c id t p.0 p.1
  unfolding take_over
  take_over-Entitled i none e vouched alone p f = ground arith
  take_over-Entitled i (some v) e vouched alone p f =
      let (links, made, same) =
        chain-ok (bind v.id id.issuer id.subject t.links)
          (λ links. ok (v, record t { links = links })) f in
      let id_is = get_user-id i t.users v e in
      holds-ok (λ (q : User × Tables). Entitled c id t q.0 q.1) same
        (by_email email vouched (alone ∙ ap (λ (k : ℕ). k ∷ []) (sym id_is))
          (ap (λ (k : ℕ). get_user k t.users) id_is ∙ e) (bound v.id links made) refl)

  -- What an account that was just registered is.
  abbrev IsRegistered : User × List User → Type 0
  IsRegistered q = IsNew t.users q × IsSsoMember c.tx email q.0

  registered-IsRegistered :
      (r : Users.Result (User × List User))
      → ((q : User × List User) → r ≡ Users.ok q → IsRegistered q)
      → (p : User × Tables) → registered c id t r ≡ ok p
      → IsRegistered (p.0, p.1.users)
  unfolding registered
  registered-IsRegistered (Users.raised x) each p f = ground arith
  registered-IsRegistered (Users.ok (u, users)) each p f =
      let (links, made, same) =
        chain-ok (link u.id id.issuer id.subject t.links)
          (λ links. ok (u, record { users = users; links = links })) f in
      holds-ok (λ (q : User × Tables). IsRegistered (q.0, q.1.users)) same (each (u, users) refl)

  register-IsRegistered :
      (name : Option String) (p : User × Tables)
      → register c id t name email ≡ ok p
      → IsRegistered (p.0, p.1.users)
  unfolding register
  register-IsRegistered none p f = ground arith
  register-IsRegistered (some name) p f =
      registered-IsRegistered (create_sso_user c.tx c.h name email member t.users)
        (λ q e. (
          create_sso_user-new c.tx c.h name email member t.users q e,
          create_sso_user-IsSsoMember c.tx c.h name email member t.users q e,
        ))
        p f

  resolve_match-Entitled :
      (o : Option ℕ)
      → Vouched c id.claims email
      → find_user_by_email c.tx c.h email t.users ≡ ok o
      → (p : User × Tables) → resolve_match c id t email o ≡ ok p
      → Entitled c id t p.0 p.1
  unfolding resolve_match
  resolve_match-Entitled none vouched found p f =
      let name = username_for c.py c.tx c.str id.claims email t.users in
      elim (Bool-cases c.settings.allow_registration) [
        | inl on ↦
            let (new, own) = register-IsRegistered name p (rw on at f) in
            as_new_member email vouched (find_user_by_email-none c.tx c.h email t.users found) on
              new own
        | inr off ↦ cc (rw off at f)
      ]
  resolve_match-Entitled (some i) vouched found p f =
      take_over-Entitled i (get_user i t.users) refl vouched
        (find_user_by_email-some c.tx c.h email t.users i found) p f

module _ (c : Setup) (id : Identity) (t : Tables) where
  resolve_by_email-Entitled :
      (p : User × Tables) → resolve_by_email c id t ≡ ok p → Entitled c id t p.0 p.1
  unfolding resolve_by_email
  resolve_by_email-Entitled p f =
      let (email, vouched, g) =
        chain-ok (claimed_email c.py c.settings.require_verified_email id.claims)
          (λ email. find_user_by_email c.tx c.h email t.users >>= resolve_match c id t email) f in
      let (matched, found, e) =
        chain-ok (find_user_by_email c.tx c.h email t.users) (resolve_match c id t email) g in
      resolve_match-Entitled c id t email matched (claimed_email-Vouched c id.claims email vouched)
        found p e

  user_or_resolved-Entitled :
      (o : Option User)
      → linked_user id.issuer id.subject t ≡ o
      → (p : User × Tables) → user_or_resolved c id t o ≡ ok p
      → Entitled c id t p.0 p.1
  unfolding user_or_resolved
  user_or_resolved-Entitled none e p f = resolve_by_email-Entitled p f
  user_or_resolved-Entitled (some u) e p f =
      holds-ok (λ (q : User × Tables). Entitled c id t q.0 q.1) f (by_link e refl)

-- Whoever signs in is linked to the account; or has the address of this account alone, which
-- the provider vouches for where that is required, and the account no other identity of the same
-- provider; or is registered, where that is allowed and no account has the address: the account is
-- a new row at the end of the table, with the next id, a member without a password, under this
-- address. The other accounts stay as they are, the identity is linked to the account afterwards,
-- and the required group is checked in all of these cases.
pub sign_in-Entitled :
    (c : Setup) (id : Identity) (t t' : Tables) (u : User)
    → sign_in c id t ≡ ok (u, t')
    → Entitled c id t u t'
      × Belongs id.issuer id.subject u t'
      × (check_group c.py c.settings id.claims
            (remote_userinfo c.py c.settings id.claims id.userinfo_answer)
          ≡ ok tt)
unfolding sign_in
sign_in-Entitled c id t t' u f =
    let user = linked_user id.issuer id.subject t in
    let (_, passed, g) =
      chain-ok
        (check_group c.py c.settings id.claims
          (remote_userinfo c.py c.settings id.claims id.userinfo_answer))
        (λ _. user_or_resolved c id t user) f in
    (
      user_or_resolved-Entitled c id t user refl (u, t') g,
      (sign_in-Settled c id t (u, t') f).belongs,
      passed,
    )

-- ===== src/SignOn/Callback.antt =====
-- `login_oidc_callback`, `resolve_by_email` and `remote_userinfo` of src/bioseasy/app.py. What the
-- exchange with the provider gives is an input: it fails, or it gives a token, whose `iss` and `sub`
-- are texts, empty where they are missing, and the answer that the userinfo endpoint would give.
pub mod Linked
pub mod Again
pub mod Matched
use bioseasy.Prelude.{
  ℕ, zero, suc, ◌+◌, String, Bool, true, false, not, ◌&&◌, ◌||◌, Option, none, some, List, [], ◌∷◌,
  ◌++◌, str_eq, ltb, ◌==◌, if◌then◌else◌,
}
use bioseasy.Accounts.Throttle.{Failures, default_throttle, wait_seconds, failed, succeeded}
use bioseasy.Accounts.Users as Users
use bioseasy.Accounts.Users.{
  User, member, Texts, Hasher, Session, get_user, create_sso_user, start_session, session_user,
}
use bioseasy.SignOn.Claims.{
  Fields, Python, SsoSettings, Refusal, Result, ok, refused, linked_elsewhere, endless,
  account_gone, no_account, not_created, ◌>>=◌, ◌>>◌, claimed_email, check_group, remote_userinfo,
}
use bioseasy.SignOn.Links.{Link, find_linked_user, link, bind, find_user_by_email, username_for}

-- The libraries and the settings.
pub record Setup : Type 0 where
  pub tx : Texts
  pub h : Hasher
  pub py : Python
  pub str : ℕ → String
  pub settings : SsoSettings

pub record Identity : Type 0 where
  pub issuer : String
  pub subject : String
  pub claims : Fields
  pub userinfo_answer : Option Fields

pub record Tables : Type 0 where
  pub users : List User
  pub links : List Link

pub data Response : Type 0 where
  not_found overflow too_many_attempts bad_exchange sign_in_first conflict crash linked : Response
  forbidden : Refusal → Response
  signed_in : Session → Response

unfoldable pub linked_user : String → String → Tables → Option User
linked_user issuer subject t = elim (find_linked_user issuer subject t.links) [
  | none ↦ none
  | some i ↦ get_user i t.users
]

module _ (c : Setup) where
  registered : Identity → Tables → Users.Result (User × List User) → Result (User × Tables)
  registered id t (Users.raised e) = refused (not_created e)
  registered id t (Users.ok (u, users)) = link u.id id.issuer id.subject t.links >>= λ links.
      ok (u, record { users = users; links = links })

  register : Identity → Tables → Option String → String → Result (User × Tables)
  unfolding registered
  register id t none email = endless
  register id t (some name) email =
      registered id t (create_sso_user c.tx c.h name email member t.users)

  take_over : Identity → Tables → Option User → Result (User × Tables)
  take_over id t none = refused account_gone
  take_over id t (some u) =
      bind u.id id.issuer id.subject t.links >>= λ links. ok (u, record t { links = links })

  resolve_match : Identity → Tables → String → Option ℕ → Result (User × Tables)
  unfolding take_over register
  resolve_match id t email none =
      if not c.settings.allow_registration
      then refused no_account
      else register id t (username_for c.py c.tx c.str id.claims email t.users) email
  resolve_match id t email (some i) = take_over id t (get_user i t.users)

  unfoldable pub resolve_by_email : Identity → Tables → Result (User × Tables)
  unfolding resolve_match
  resolve_by_email id t = do
    email ← claimed_email c.py c.settings.require_verified_email id.claims
    matched ← find_user_by_email c.tx c.h email t.users
    resolve_match id t email matched

  user_or_resolved : Identity → Tables → Option User → Result (User × Tables)
  user_or_resolved id t none = resolve_by_email id t
  user_or_resolved id t (some u) = ok (u, t)

  -- The sign-in itself, without the throttle.
  unfoldable pub sign_in : Identity → Tables → Result (User × Tables)
  unfolding user_or_resolved
  sign_in id t =
      let user = linked_user id.issuer id.subject t in
      check_group c.py c.settings id.claims
        (remote_userinfo c.py c.settings id.claims id.userinfo_answer)
      >> user_or_resolved id t user

  -- The end of the route, from the result of the sign-in.
  answered : Failures → String → ℕ → Tables → Result (User × Tables) → Response × Failures × Tables
  answered f ip now t (refused r) = (forbidden r, failed f ip now, t)
  answered f ip now t (ok (u, t')) = (signed_in (start_session u), succeeded f ip, t')
  answered f ip now t _ = (crash, f, t)

  -- A link that was started on the account page by the user `uid`.
  link_response : Failures → Tables → Result (List Link) → Response × Failures × Tables
  link_response f t (ok links) = (linked, f, record t { links = links })
  link_response f t (refused r) = (forbidden r, f, t)
  link_response f t _ = (conflict, f, t)

  link_account : Identity → Failures → Tables → ℕ → Option User → Response × Failures × Tables
  unfolding link_response
  link_account id f t uid none = (sign_in_first, f, t)
  link_account id f t uid (some u) =
      if u.id == uid
      then link_response f t (
          check_group c.py c.settings id.claims
            (remote_userinfo c.py c.settings id.claims id.userinfo_answer)
          >> link u.id id.issuer id.subject t.links)
      else (sign_in_first, f, t)

  -- `session_user(conn, request.session)`, where the browser has a session.
  current_user : Tables → Option Session → Option User
  current_user t none = none
  current_user t (some s) = session_user t.users s

  identified :
      Identity
      → Failures
      → String
      → ℕ
      → Tables
      → Option Session
      → Option ℕ
      → Response × Failures × Tables
  unfolding answered link_account current_user
  identified id f ip now t session none = answered f ip now t (sign_in id t)
  identified id f ip now t session (some uid) = link_account id f t uid (current_user t session)

  exchanged :
      Option Identity
      → Failures
      → String
      → ℕ
      → Tables
      → Option Session
      → Option ℕ
      → Response × Failures × Tables
  unfolding identified
  exchanged none f ip now t session link_uid = (bad_exchange, failed f ip now, t)
  exchanged (some id) f ip now t session link_uid =
      if str_eq id.issuer "" || str_eq id.subject ""
      then (bad_exchange, failed f ip now, t)
      else identified id f ip now t session link_uid

  throttled :
      Option ℕ
      → Option Identity
      → Failures
      → String
      → ℕ
      → Tables
      → Option Session
      → Option ℕ
      → Response × Failures × Tables
  unfolding exchanged
  throttled none token f ip now t session link_uid = (overflow, f, t)
  throttled (some wait) token f ip now t session link_uid =
      if ltb 0 wait then (too_many_attempts, f, t) else exchanged token f ip now t session link_uid

  -- `configured` says whether single sign-on is; `link_uid` is what the session holds under
  -- "oidc_link_uid", and `token` what the exchange gives.
  unfoldable pub login_oidc_callback :
      Bool
      → Option Identity
      → Failures
      → String
      → ℕ
      → Tables
      → Option Session
      → Option ℕ
      → Response × Failures × Tables
  unfolding throttled
  login_oidc_callback configured token f ip now t session link_uid =
      if configured
      then throttled (wait_seconds default_throttle f ip now) token f ip now t session link_uid
      else (not_found, f, t)

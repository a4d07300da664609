-- ===== src/SignOn/Callback/Again.antt =====
-- An identity that signed in once, at `login_oidc_callback` of src/bioseasy/app.py, and what may come
-- before it signs in again.
use bioseasy.Prelude.{
  inl, ℕ, String, ◌≡◌, refl, ◌≢◌, Bool, Option, none, some, List, str_eq, ltb, ◌==◌, if-holds, ◌||◌,
  ◌∙◌, sym,
}
use bioseasy.Accounts.Throttle.{Failures, default_throttle, wait_seconds}
use bioseasy.Accounts.Users.{User, Session}
use bioseasy.Accounts.Users.Steps.{get_user-id}
use bioseasy.SignOn.Claims.{
  Result, ok, refused, linked_elsewhere, endless, ◌>>◌, chain-ok, check_group, remote_userinfo,
}
use bioseasy.SignOn.Links.{Link, link, unlink}
use bioseasy.SignOn.Links.Kept.{link-keeps, unlink-keeps}
use bioseasy.SignOn.Callback.{
  Setup, Identity, Tables, Response, sign_in, login_oidc_callback, answered, link_response,
  link_account, current_user, identified, exchanged, throttled,
}
use bioseasy.SignOn.Callback.Linked.{
  Belongs, Keeps, Keeps-refl, Belongs-Keeps, sign_in-Settled, sign_in-linked,
}

module _ (c : Setup) (f : Failures) (ip : String) (now : ℕ) (t : Tables) where
  answered-Keeps :
      (id : Identity) (r : Result (User × Tables))
      → ((p : User × Tables) → r ≡ ok p → Keeps c t p.1)
      → Keeps c t (answered c f ip now t r).2
  unfolding answered
  answered-Keeps id (ok (u, t')) each = each (u, t') refl
  answered-Keeps id (refused r) each = Keeps-refl c t
  answered-Keeps id linked_elsewhere each = Keeps-refl c t
  answered-Keeps id endless each = Keeps-refl c t

  link_response-Keeps :
      (u : ℕ) (iss sub : String) (r : Result (List Link))
      → ((links : List Link) → r ≡ ok links → link u iss sub t.links ≡ ok links)
      → Keeps c t (link_response c f t r).2
  unfolding link_response
  link_response-Keeps u iss sub (ok links) made = record {
    grown = inl refl;
    users = λ i w e. e;
    links = λ iss' sub' i e. link-keeps iss' sub' i u iss sub t.links links e (made links refl);
  }
  link_response-Keeps u iss sub (refused r) made = Keeps-refl c t
  link_response-Keeps u iss sub linked_elsewhere made = Keeps-refl c t
  link_response-Keeps u iss sub endless made = Keeps-refl c t

  link_account-Keeps :
      (id : Identity) (uid : ℕ) (o : Option User) → Keeps c t (link_account c id f t uid o).2
  unfolding link_account
  link_account-Keeps id uid none = Keeps-refl c t
  link_account-Keeps id uid (some u) =
      let gate =
        check_group c.py c.settings id.claims
          (remote_userinfo c.py c.settings id.claims id.userinfo_answer) in
      if-holds (λ (r : Response × Failures × Tables). Keeps c t r.2) (u.id == uid)
        (link_response-Keeps u.id id.issuer id.subject
          (gate >> link u.id id.issuer id.subject t.links)
          (λ links e. (chain-ok gate (λ _. link u.id id.issuer id.subject t.links) e).2))
        (Keeps-refl c t)

  identified-Keeps :
      (id : Identity) (session : Option Session) (o : Option ℕ)
      → Keeps c t (identified c id f ip now t session o).2
  unfolding identified
  identified-Keeps id session none =
      answered-Keeps id (sign_in c id t) (λ p e. (sign_in-Settled c id t p e).keeps)
  identified-Keeps id session (some uid) = link_account-Keeps id uid (current_user c t session)

  exchanged-Keeps :
      (token : Option Identity) (session : Option Session) (link_uid : Option ℕ)
      → Keeps c t (exchanged c token f ip now t session link_uid).2
  unfolding exchanged
  exchanged-Keeps none session link_uid = Keeps-refl c t
  exchanged-Keeps (some id) session link_uid =
      if-holds (λ (r : Response × Failures × Tables). Keeps c t r.2)
        (str_eq id.issuer "" || str_eq id.subject "") (Keeps-refl c t)
        (identified-Keeps id session link_uid)

  throttled-Keeps :
      (wait : Option ℕ) (token : Option Identity) (session : Option Session) (link_uid : Option ℕ)
      → Keeps c t (throttled c wait token f ip now t session link_uid).2
  unfolding throttled
  throttled-Keeps none token session link_uid = Keeps-refl c t
  throttled-Keeps (some wait) token session link_uid =
      if-holds (λ (r : Response × Failures × Tables). Keeps c t r.2) (ltb 0 wait) (Keeps-refl c t)
        (exchanged-Keeps token session link_uid)

  pub callback-Keeps :
      (configured : Bool) (token : Option Identity) (session : Option Session) (link_uid : Option ℕ)
      → Keeps c t (login_oidc_callback c configured token f ip now t session link_uid).2
  unfolding login_oidc_callback
  callback-Keeps configured token session link_uid =
      if-holds (λ (r : Response × Failures × Tables). Keeps c t r.2) configured
        (throttled-Keeps (wait_seconds default_throttle f ip now) token session link_uid)
        (Keeps-refl c t)

-- What may come between two sign-ins: any call of the route, of anybody, with any outcome, and a
-- link that another account takes away.
pub data Later (c : Setup) (uid : ℕ) (t : Tables) : Tables → Type 0 where
  here : Later c uid t t
  callback :
      {mid : Tables} (configured : Bool) (token : Option Identity) (f : Failures) (ip : String)
      (now : ℕ) (session : Option Session) (link_uid : Option ℕ)
      → Later c uid t mid
      → Later c uid t (login_oidc_callback c configured token f ip now mid session link_uid).2
  unlinked :
      {mid : Tables} (other link_id : ℕ)
      → other ≢ uid
      → Later c uid t mid
      → Later c uid t (record mid { links = (unlink other link_id mid.links).1 })

Later-Belongs :
    {c : Setup} {t : Tables} (iss sub : String) (u : User) {later : Tables}
    → Belongs iss sub u t
    → Later c u.id t later
    → Belongs iss sub u later
Later-Belongs iss sub u b here = b
Later-Belongs {c} iss sub u b (callback {mid} configured token f ip now session link_uid before) =
    Belongs-Keeps c iss sub u mid
      (login_oidc_callback c configured token f ip now mid session link_uid).2
      (callback-Keeps c f ip now mid configured token session link_uid)
      (Later-Belongs iss sub u b before)
Later-Belongs iss sub u b (unlinked {mid} other link_id differ before) =
    let (i, e, g) = Later-Belongs iss sub u b before in
    (
      i,
      unlink-keeps iss sub i other link_id mid.links
          (λ same. differ (same ∙ sym (get_user-id i mid.users u g))) e,
      g,
    )

-- An identity that signed in as an account signs in as the same account later, whatever the
-- provider then says of its address or its name, where the group check passes, and whatever calls
-- of the route by anybody and unlinkings by other accounts lie between; the tables stay as they
-- are.
pub sign_in-again :
    (c : Setup) (id id' : Identity) (t t' later : Tables) (u : User)
    → sign_in c id t ≡ ok (u, t')
    → Later c u.id t' later
    → id'.issuer ≡ id.issuer
    → id'.subject ≡ id.subject
    → check_group c.py c.settings id'.claims
        (remote_userinfo c.py c.settings id'.claims id'.userinfo_answer)
      ≡ ok tt
    → sign_in c id' later ≡ ok (u, later)
sign_in-again c id id' t t' later u e steps p q passed = sign_in-linked c id' later u passed (
    Later-Belongs id'.issuer id'.subject u (rw (p, q) (sign_in-Settled c id t (u, t') e).belongs)
      steps)

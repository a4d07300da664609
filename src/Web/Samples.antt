-- ===== src/Web/Samples.antt =====
-- Concrete requests to the routes of src/bioseasy/app.py that change accounts.
use bioseasy.Prelude.{
  String, ◌≡◌, refl, sym, ap, ◌∙◌, inl, Bool, true, false, none, some, [], ◌∷◌, str_eq,
}
use bioseasy.Accounts.Users.{create_sso_user, get_user, Texts, Hasher, User}
use bioseasy.SignOn.Claims.{
  Json, text, nil, field, end, Fields, Python, SsoSettings, get_field, remote_userinfo, groups_of,
  has_overage_pointer, claimed_email, check_group, in_groups, stripped_claim,
}
use bioseasy.SignOn.Links.{
  candidate, name_taken, username_for, free_name, find_linked_user, has_other_subject, with_email,
  find_user_by_email, link, bind,
}
use bioseasy.SignOn.Claims as Claims
use bioseasy.SignOn.Callback.{
  Setup, Identity, login_oidc_callback, sign_in, resolve_by_email, linked_user,
}
use bioseasy.Web.Accounts.{Site, setup_submit, users_remove, has_users}
use bioseasy.Web.Accounts.Requests.{here, next, set_up_at, remove_at, sso_answer}
use bioseasy.Web.Accounts.Administrators.{IsLed, Reach-IsLed}
use bioseasy.Web.Accounts.LockedOut.{IsLocked, sso_first-IsLocked}

abbrev as_text : Json → String
as_text (text s) = s
as_text _ = "?"

abbrev python : Python
python = record {
  str = as_text;
  strip = λ s. s;
  casefold = λ s. s;
  split_dots = λ s. s ∷ [];
  is_zero = λ s. str_eq s "0";
}

abbrev plain : Texts
plain = record { strip = λ s. s; nocase = λ s. s; is_email = λ s. true }

abbrev marked : Hasher
marked = record {
  hash = λ p. p;
  verify = λ s p. str_eq s p;
  check_needs_rehash = λ s. false;
  dummy = "";
}

abbrev settings : Bool → SsoSettings
settings on = record {
  groups_claim = "groups";
  required_group = none;
  allow_registration = on;
  require_verified_email = true;
}

abbrev setup : Bool → Setup
setup on = record { tx = plain; h = marked; py = python; str = λ n. "1"; settings = settings on }

abbrev fresh : Site
fresh = record { users = []; links = []; owners = []; by_user = []; by_ip = [] }

fresh-IsLed : IsLed fresh.users
fresh-IsLed = record { distinct = tt; led = inl refl }

abbrev bert : Identity
bert = record {
  issuer = "https://id.example.org";
  subject = "4711";
  claims = field "email" (text "bert@example.org") (field "email_verified" (Claims.bool true) end);
  userinfo_answer = none;
}

abbrev anna_set_up : Site
anna_set_up =
    (setup_submit plain marked true true "anna" "correct horse" "correct horse" "" fresh).1

Reach-IsLed_example : IsLed (users_remove plain marked true (some (1, 1)) 1 anna_set_up).1.users
Reach-IsLed_example =
    Reach-IsLed {c = setup false} {s = fresh}
      {later = (users_remove plain marked true (some (1, 1)) 1 anna_set_up).1} refl fresh-IsLed
      (next (next here (set_up_at true true "anna" "correct horse" "correct horse" ""))
        (remove_at true (some (1, 1)) 1))

abbrev bert_signed_in : Site
bert_signed_in = (sso_answer (setup true) true (some bert) "10.0.0.1" 0 none none fresh).1

bert_joined : has_users bert_signed_in.users ≡ true
unfolding login_oidc_callback sign_in resolve_by_email linked_user claimed_email check_group
    remote_userinfo groups_of has_overage_pointer get_field in_groups find_linked_user
    find_user_by_email with_email get_user bind link has_other_subject username_for free_name
    name_taken candidate stripped_claim create_sso_user bioseasy.Accounts.Throttle.wait_seconds
    bioseasy.Accounts.Throttle.get bioseasy.Accounts.Users.is_taken
bert_joined = refl

sso_first-IsLocked_example :
    IsLocked
      (setup_submit plain marked true true "anna" "correct horse" "correct horse" ""
        bert_signed_in).1.users
sso_first-IsLocked_example =
    sso_first-IsLocked (setup true) true (some bert) "10.0.0.1" 0 none none fresh
      (setup_submit plain marked true true "anna" "correct horse" "correct horse" ""
        bert_signed_in).1
      refl (λ e. let h : true ≡ false = sym bert_joined ∙ ap has_users e in cc)
      (next here (set_up_at true true "anna" "correct horse" "correct horse" ""))

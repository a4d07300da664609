-- ===== src/SignOn/Samples.antt =====
-- Concrete sign-ins of src/bioseasy/oidc.py.
use bioseasy.Prelude.{
  ℕ, zero, suc, ◌+◌, String, ◌≡◌, refl, ap, true, false, none, some, List, [], ◌∷◌, arith, ◌↔◌,
  str_eq, eq_iff,
}
use Prim.Native.String.{◌++◌ as str_append, len}
use package.text.Mathlib.TextPositions.{len-append}
use bioseasy.Accounts.Users.{User, admin, Texts, Hasher, get_user}
use bioseasy.SignOn.Claims.{
  Json, text, array, object, Items, nil, cons, end, field, Fields, Python, SsoSettings, get_field,
  has_field, ok, refused, claim_path, groups_of, has_overage_pointer, check_group, remote_userinfo,
  claimed_email, not_in_group, in_groups, stripped_claim,
}
use bioseasy.SignOn.Claims as Claims
use bioseasy.SignOn.Claims.Groups.{AreGroups, Any, IsGroup, check_group-ok_iff}
use bioseasy.SignOn.Links.{
  candidate, name_taken, username_for, free_name, find_linked_user, has_other_subject, with_email,
  find_user_by_email, link, bind, unlink,
}
use bioseasy.SignOn.Links.Names.{AreApart, username_for-free}
use bioseasy.SignOn.Callback.{Setup, Identity, Tables, sign_in, resolve_by_email, linked_user}
use bioseasy.SignOn.Callback.Linked.{Belongs}
use bioseasy.SignOn.Callback.Again.{here, unlinked, sign_in-again}
use bioseasy.SignOn.Callback.Matched.{Entitled, sign_in-Entitled}

abbrev as_text : Json → String
as_text (text s) = s
as_text _ = "?"

abbrev python : Python
python = record {
  str = as_text;
  strip = λ s. s;
  casefold = λ s. s;
  split_dots = λ s. s ∷ [];
  is_zero = λ s. str_eq s "0";
}

-- Numerals of ones.
ones : ℕ → String
ones zero = ""
ones (suc n) = str_append "1" (ones n)

len-ones : (n : ℕ) → len (ones n) ≡ n
unfolding ones
len-ones zero = refl
len-ones (suc n) = omega (arith, len-append "1" (ones n), len-ones n)

plain : Texts
plain = record { strip = λ s. s; nocase = λ s. s; is_email = λ s. true }

abbrev marked : Hasher
marked = record {
  hash = λ p. p;
  verify = λ s p. str_eq s p;
  check_needs_rehash = λ s. false;
  dummy = "";
}

ones-AreApart : AreApart plain ones
unfolding plain candidate
ones-AreApart base zero zero e = refl
ones-AreApart base zero (suc j) e = absurd (
    omega (
      arith,
      ap len e,
      len-append base (str_append "-" (ones (j + 2))),
      len-append "-" (ones (j + 2)),
    ))
ones-AreApart base (suc i) zero e = absurd (
    omega (
      arith,
      ap len e,
      len-append base (str_append "-" (ones (i + 2))),
      len-append "-" (ones (i + 2)),
    ))
ones-AreApart base (suc i) (suc j) e = omega (
  arith,
  ap len e,
  len-append base (str_append "-" (ones (i + 2))),
  len-append "-" (ones (i + 2)),
  len-append base (str_append "-" (ones (j + 2))),
  len-append "-" (ones (j + 2)),
  len-ones (i + 2),
  len-ones (j + 2),
)

abbrev anna : User
anna = record {
  id = 1;
  username = "anna";
  password_hash = some "correct horse";
  role = admin;
  session_version = 1;
  email = some "anna@example.org";
}

abbrev claims : Fields
claims = field "email" (text "anna@example.org") (
    field "email_verified" (Claims.bool true)
      (field "groups" (array (cons (text "family") nil)) end))

username_for-free_example :
    (name : String) × (username_for python plain ones claims "anna@example.org" (anna ∷ [])
      ≡ some name)
    × (name_taken plain name (anna ∷ []) ≡ false)
username_for-free_example =
    username_for-free python plain ones claims "anna@example.org" (anna ∷ []) ones-AreApart

-- The name "anna" is taken, and the next number is tried, in numerals of ones.
second_name : username_for python plain ones claims "anna@example.org" (anna ∷ []) ≡ some "anna-11"
unfolding username_for free_name name_taken candidate ones plain stripped_claim get_field
second_name = refl

abbrev family : SsoSettings
family = record {
  groups_claim = "groups";
  required_group = some "family";
  allow_registration = false;
  require_verified_email = true;
}

family_set : ¬ (◌≡◌ {A = String} "family" "")
family_set e = let h : false ≡ true = (eq_iff "family" "").1 e in cc

check_group-ok_iff_example : (check_group python family claims none ≡ ok tt) ↔ (
    (has_overage_pointer python claims "groups" ≡ false)
    × (has_overage_pointer python end "groups" ≡ false)
    × ((groups : List String) × AreGroups python "groups" claims end groups
        × Any (IsGroup python "family") groups))
check_group-ok_iff_example =
    check_group-ok_iff python "groups" "family" false true claims none family_set

abbrev setup : Setup
setup = record { tx = plain; h = marked; py = python; str = ones; settings = family }

abbrev anna_at_home : Identity
anna_at_home = record {
  issuer = "https://id.example.org";
  subject = "4711";
  claims = claims;
  userinfo_answer = none;
}

-- The same identity after the provider renamed its address.
abbrev anna_renamed : Identity
anna_renamed = record anna_at_home {
  claims =
      field "email" (text "ann@example.org")
        (field "groups" (array (cons (text "family") nil)) end);
}

abbrev before : Tables
before = record { users = anna ∷ []; links = [] }

abbrev after : Tables
after = record {
  users = anna ∷ [];
  links =
      record { link_id = 1; user_id = 1; issuer = "https://id.example.org"; subject = "4711" } ∷ [];
}

sign_in-again_example :
    sign_in setup anna_renamed (record after { links = (unlink 2 1 after.links).1 })
    ≡ ok (anna, record after { links = (unlink 2 1 after.links).1 })
unfolding sign_in resolve_by_email linked_user claimed_email check_group remote_userinfo groups_of
    has_overage_pointer get_field in_groups find_linked_user find_user_by_email with_email get_user
    bind link has_other_subject plain
sign_in-again_example =
    sign_in-again setup anna_at_home anna_renamed before after
      (record after { links = (unlink 2 1 after.links).1 }) anna refl
      (unlinked 2 1 (λ e. absurd (omega arith)) here) refl refl refl

sign_in-Entitled_example :
    Entitled setup anna_at_home before anna after
    × Belongs anna_at_home.issuer anna_at_home.subject anna after
    × (check_group python family claims (remote_userinfo python family claims none) ≡ ok tt)
unfolding sign_in resolve_by_email linked_user claimed_email check_group remote_userinfo groups_of
    has_overage_pointer get_field in_groups find_linked_user find_user_by_email with_email get_user
    bind link has_other_subject plain
sign_in-Entitled_example = sign_in-Entitled setup anna_at_home before after anna refl

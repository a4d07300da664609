-- ===== src/Accounts/Samples.antt =====
-- Concrete accounts and throttles of src/bioseasy/auth.py.
use bioseasy.Prelude.{ℕ, zero, suc, String, ◌≡◌, refl, true, false, none, some, [], ◌∷◌, str_eq}
use Prim.Native.String.{◌++◌ as str_append}
use bioseasy.Accounts.Throttle.{default_throttle, wait_seconds, failed, succeeded}
use bioseasy.Accounts.Throttle.Waits.{fail_all, wait_seconds-failures}
use bioseasy.Accounts.Tokens as Tokens
use bioseasy.Accounts.Tokens.Bearer.{SignsIn, authenticate-create, authenticate-revoke}
use bioseasy.Accounts.Users.{
  User, admin, member, Texts, Hasher, get_user, remove_user, start_session, session_user, set_role,
  create_user, authenticate, is_taken, find_name,
}
use bioseasy.Accounts.Users.Steps.{here, and_then, role_set}
use bioseasy.Accounts.Users.Sessions.{set_role-ends_sessions}
use bioseasy.Accounts.Users.Reused.{create_user-reuses_session}
use bioseasy.Accounts.Users.SignIn.{HasPassword, authenticate-HasPassword}

abbrev plain : Texts
plain = record { strip = λ s. s; nocase = λ s. s; is_email = λ s. true }

abbrev marked : Hasher
marked = record {
  hash = λ p. str_append "#" p;
  verify = λ s p. str_eq s (str_append "#" p);
  check_needs_rehash = λ s. false;
  dummy = "";
}

abbrev anna : User
anna = record {
  id = 1;
  username = "anna";
  password_hash = some "#correct horse";
  role = admin;
  session_version = 1;
  email = none;
}

abbrev bert : User
bert = record {
  id = 2;
  username = "bert";
  password_hash = some "#battery staple";
  role = member;
  session_version = 1;
  email = none;
}

wait_seconds-failures_example :
    wait_seconds default_throttle
      (fail_all (failed (succeeded [] "anna") "anna" 1) "anna" (2 ∷ 3 ∷ 4 ∷ 5 ∷ []))
      "anna"
      5
    ≡ some 2000000
wait_seconds-failures_example = wait_seconds-failures [] "anna" 1 (2 ∷ 3 ∷ 4 ∷ 5 ∷ []) 5

set_role-ends_sessions_example :
    session_user (set_role 2 admin (set_role 1 member (anna ∷ bert ∷ []))) (start_session anna)
    ≡ none
unfolding get_user
set_role-ends_sessions_example =
    set_role-ends_sessions plain marked anna member (anna ∷ bert ∷ [])
      (set_role 2 admin (set_role 1 member (anna ∷ bert ∷ []))) refl
      (and_then here (role_set 2 admin))

abbrev carla : User
carla = record {
  id = 2;
  username = "carla";
  password_hash = some "#tr0ub4dor and 3";
  role = admin;
  session_version = 1;
  email = none;
}

create_user-reuses_session_example :
    session_user (anna ∷ carla ∷ []) (start_session bert) ≡ some carla
unfolding create_user is_taken remove_user
create_user-reuses_session_example =
    create_user-reuses_session plain marked (anna ∷ []) "bert" "battery staple" member none bert
      (anna ∷ bert ∷ []) "carla" "tr0ub4dor and 3" admin none carla (anna ∷ carla ∷ []) refl refl

authenticate-HasPassword_example :
    HasPassword marked anna "correct horse" × (◌≡◌ {A = String} "anna" "anna")
unfolding authenticate find_name
authenticate-HasPassword_example =
    authenticate-HasPassword plain marked "anna" "correct horse" (bert ∷ anna ∷ []) anna refl refl

abbrev times : ℕ → ℕ → Tokens.Text
times zero c = []
times (suc n) c = c ∷ times n c

abbrev prefix : Tokens.Text
prefix = times 8 95

abbrev secret : Tokens.Text
secret = times 43 97

abbrev token : Tokens.Token
token = Tokens.new_token (λ s. s) [] 7 (98 ∷ []) Tokens.read prefix secret

authenticate-create_example :
    SignsIn (λ s. s) 7 (98 ∷ []) Tokens.read 1 (Tokens.written prefix secret) (token ∷ [])
unfolding Tokens.create Tokens.attempts Tokens.find_prefix
authenticate-create_example =
    authenticate-create (λ s. s) ((prefix, secret) ∷ []) [] 7 (98 ∷ []) Tokens.read 1
      (Tokens.written prefix secret) (token ∷ []) ((refl, refl), tt) refl

authenticate-revoke_example :
    Tokens.authenticate (λ s. s) (Tokens.revoke (token ∷ []) 7 1 5).1 (Tokens.written prefix secret)
    ≡ none
unfolding Tokens.authenticate Tokens.parse Tokens.text_eq Tokens.take Tokens.drop Tokens.find_prefix
authenticate-revoke_example =
    authenticate-revoke (λ s. s) (token ∷ []) 7 1 5 (Tokens.written prefix secret) token refl

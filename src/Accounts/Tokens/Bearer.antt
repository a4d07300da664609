-- ===== src/Accounts/Tokens/Bearer.antt =====
-- What the API tokens of src/bioseasy/tokens.py promise.
use bioseasy.Prelude.{
  ℕ, zero, suc, ◌≡◌, refl, ap, ◌∙◌, subst, ◌↔◌, Bool, true, false, ◌&&◌, Option, none, some, List,
  [], ◌∷◌, ◌++◌, arith, ◌==◌, if◌then◌else◌, is_none, length, length-append, All,
}
use bioseasy.Accounts.Tokens.{
  Text, Scope, Token, Issued, issued, underscore, text_eq, take, drop, at_underscore, parse,
  find_prefix, max_id, written, new_token, attempts, create, matching, bearer, authenticate, or_now,
  revoke,
}

text_eq_iff : (a b : Text) → (text_eq a b ≡ true) ↔ (a ≡ b)
unfolding text_eq
text_eq_iff [] [] = ground arith
text_eq_iff [] (d ∷ ds) = ground arith
text_eq_iff (c ∷ cs) [] = ground arith
text_eq_iff (c ∷ cs) (d ∷ ds) = ground (arith, text_eq_iff cs ds)

take-append : (a b : Text) (n : ℕ) → length a ≡ n → take n (a ++ b) ≡ a
unfolding take
take-append [] b zero e = refl
take-append [] b (suc n) e = ground arith
take-append (c ∷ a) b zero e = ground arith
take-append (c ∷ a) b (suc n) e = ground (arith, take-append a b n)

drop-append : (a b : Text) (n : ℕ) → length a ≡ n → drop n (a ++ b) ≡ b
unfolding drop
drop-append [] b zero e = refl
drop-append [] b (suc n) e = ground arith
drop-append (c ∷ a) b zero e = ground arith
drop-append (c ∷ a) b (suc n) e = ground (arith, drop-append a b n)

-- A token is parsed into its prefix and its secret, whatever underscores these have.
pub parse-written :
    (prefix secret : Text)
    → length prefix ≡ 8
    → length secret ≡ 43
    → parse (written prefix secret) ≡ some (prefix, secret)
unfolding parse at_underscore take drop text_eq
parse-written prefix secret p s = ground (
  arith,
  take-append prefix (underscore ∷ secret) 8 p,
  drop-append prefix (underscore ∷ secret) 8 p,
  length-append prefix (underscore ∷ secret),
)

find_prefix-last :
    (prefix : Text) (tokens : List Token) (t : Token)
    → is_none (find_prefix prefix tokens) ≡ true
    → t.prefix ≡ prefix
    → find_prefix prefix (tokens ++ t ∷ []) ≡ some t
unfolding find_prefix
find_prefix-last prefix [] t free e = ground (arith, text_eq_iff t.prefix prefix)
find_prefix-last prefix (x ∷ rest) t free e = ground (arith, find_prefix-last prefix rest t)

-- Prefixes and secrets as long as `secrets.token_urlsafe` makes them.
abbrev pub AreSized : List (Text × Text) → Type 0
AreSized generated = All (λ (p : Text × Text). (length p.0 ≡ 8) × (length p.1 ≡ 43)) generated

-- The text signs in as a row that is this user's, with this name and scope.
abbrev pub SignsIn : (Text → Text) → ℕ → Text → Scope → ℕ → Text → List Token → Type 0
SignsIn hash user name scope i token later =
    (t : Token) × (authenticate hash later token ≡ some t)
    × (t.id ≡ i)
    × (t.user_id ≡ user)
    × (t.name ≡ name)
    × (t.scope ≡ scope)

new-SignsIn :
    (hash : Text → Text) (user : ℕ) (name : Text) (scope : Scope) (prefix secret : Text)
    (tokens : List Token)
    → (length prefix ≡ 8) × (length secret ≡ 43)
    → is_none (find_prefix prefix tokens) ≡ true
    → SignsIn hash user name scope
        (suc (max_id tokens))
        (written prefix secret)
        (tokens ++ new_token hash tokens user name scope prefix secret ∷ [])
unfolding authenticate bearer matching
new-SignsIn hash user name scope prefix secret tokens (p, s) free =
    let t = new_token hash tokens user name scope prefix secret in
    (
      t,
      ap (bearer hash (tokens ++ t ∷ [])) (parse-written prefix secret p s)
          ∙ ap (matching hash secret) (find_prefix-last prefix tokens t free refl)
          ∙ ground (arith, text_eq_iff (hash secret) (hash secret)),
      refl,
      refl,
      refl,
      refl,
    )

chosen-SignsIn :
    (hash : Text → Text) (user : ℕ) (name : Text) (scope : Scope) (j i : ℕ) (made token : Text)
    (mid later : List Token) (again : Issued × List Token) (b : Bool)
    → (b ≡ true → SignsIn hash user name scope j made mid)
    → (again ≡ (issued i token, later) → SignsIn hash user name scope i token later)
    → (if b then (issued j made, mid) else again) ≡ (issued i token, later)
    → SignsIn hash user name scope i token later
chosen-SignsIn hash user name scope j i made token mid later again false new ih e = ih e
chosen-SignsIn hash user name scope j i made token mid later again true new ih e =
    subst
      (λ (r : Issued × List Token). elim r.0 [
        | issued k text ↦ SignsIn hash user name scope k text r.1
        | _ ↦ Unit {0}
      ])
      e (new refl)

attempts-SignsIn :
    (hash : Text → Text) (user : ℕ) (name : Text) (scope : Scope) (left : ℕ)
    (generated : List (Text × Text)) (tokens : List Token) (i : ℕ) (token : Text)
    (later : List Token)
    → AreSized generated
    → attempts hash user name scope left generated tokens ≡ (issued i token, later)
    → SignsIn hash user name scope i token later
unfolding attempts
attempts-SignsIn hash user name scope zero generated tokens i token later sized e = ground arith
attempts-SignsIn hash user name scope (suc left) [] tokens i token later sized e = ground arith
attempts-SignsIn hash user name scope (suc left) ((prefix, secret) ∷ generated) tokens i token later
      (size, sized) e =
    chosen-SignsIn hash user name scope (suc (max_id tokens)) i (written prefix secret) token
      (tokens ++ new_token hash tokens user name scope prefix secret ∷ []) later
      (attempts hash user name scope left generated tokens) (is_none (find_prefix prefix tokens))
      (new-SignsIn hash user name scope prefix secret tokens size)
      (attempts-SignsIn hash user name scope left generated tokens i token later sized) e

-- A token that was just created signs in as its row, which has the user, the name and the scope given,
-- where the generated prefixes and secrets are of the lengths that the module asserts.
pub authenticate-create :
    (hash : Text → Text) (generated : List (Text × Text)) (tokens : List Token) (user : ℕ)
    (name : Text) (scope : Scope) (i : ℕ) (token : Text) (later : List Token)
    → AreSized generated
    → create hash generated tokens user name scope ≡ (issued i token, later)
    → SignsIn hash user name scope i token later
unfolding create
authenticate-create hash generated tokens user name scope i token later sized e =
    attempts-SignsIn hash user name scope 5 generated tokens i token later sized (ground (arith, e))

find_prefix-revoke :
    (prefix : Text) (tokens : List Token) (user i now : ℕ)
    → find_prefix prefix (revoke tokens user i now).1 ≡ elim (find_prefix prefix tokens) [
      | none ↦ none
      | some t ↦ some (
          if t.id == i && t.user_id == user
          then record t { revoked_at = or_now t.revoked_at now }
          else t)
    ]
unfolding find_prefix revoke
find_prefix-revoke prefix [] user i now = refl
find_prefix-revoke prefix (t ∷ rest) user i now =
    ground (arith, find_prefix-revoke prefix rest user i now)

abbrev marked : ℕ → ℕ → ℕ → Token → Token
marked user i now t =
    if t.id == i && t.user_id == user then record t { revoked_at = or_now t.revoked_at now } else t

matching-marked :
    (hash : Text → Text) (secret : Text) (row : Option Token) (user i now : ℕ) (t : Token)
    → matching hash secret row ≡ some t
    → matching hash secret (elim row [ none ↦ none | some u ↦ some (marked user i now u) ])
      ≡ (if t.id == i && t.user_id == user then none else some t)
unfolding matching
matching-marked hash secret none user i now t e = ground arith
matching-marked hash secret (some u) user i now t e = ground (arith, e)

bearer-revoke :
    (hash : Text → Text) (tokens : List Token) (user i now : ℕ) (parsed : Option (Text × Text))
    (t : Token)
    → bearer hash tokens parsed ≡ some t
    → bearer hash (revoke tokens user i now).1 parsed
      ≡ (if t.id == i && t.user_id == user then none else some t)
unfolding bearer
bearer-revoke hash tokens user i now none t e = ground arith
bearer-revoke hash tokens user i now (some (prefix, secret)) t e =
    ap (matching hash secret) (find_prefix-revoke prefix tokens user i now)
    ∙ matching-marked hash secret (find_prefix prefix tokens) user i now t e

-- A revocation by the token's own user makes the token invalid; one by another user, or of another
-- token, changes nothing of what the token signs in as.
pub authenticate-revoke :
    (hash : Text → Text) (tokens : List Token) (user i now : ℕ) (token : Text) (t : Token)
    → authenticate hash tokens token ≡ some t
    → authenticate hash (revoke tokens user i now).1 token
      ≡ (if t.id == i && t.user_id == user then none else some t)
unfolding authenticate
authenticate-revoke hash tokens user i now token t e =
    bearer-revoke hash tokens user i now (parse token) t e

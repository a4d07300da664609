-- ===== src/Accounts/Tokens.antt =====
-- src/bioseasy/tokens.py: the API tokens. A text that is parsed is its code points; the hash is a
-- parameter, and a token's time is in whole seconds.
pub mod Bearer
use bioseasy.Prelude.{
  ℕ, zero, suc, ◌+◌, ◌-◌, ◌*◌, ◌/◌, ◌%◌, ◌^◌, ◌≤◌, ◌<◌, String, ◌≡◌, refl, sym, ap, ◌∙◌, subst, ◌≢◌,
  ◌↔◌, ◌⊎◌, inl, inr, Bool, true, false, not, ◌&&◌, ◌||◌, Option, none, some, List, [], ◌∷◌, ◌++◌,
  map, arith, str_eq, eq_iff, ltb, leb, ◌==◌, if◌then◌else◌, ltb→lt, leb→le, lt→ltb, le→leb,
  Bool-cases, Option-cases, is_none, List-cases, length, length-append, All,
}

abbrev pub Text : Type 0
Text = List ℕ

pub data Scope : Type 0 where
  read backup : Scope

pub record Token : Type 0 where
  pub id : ℕ
  pub user_id : ℕ
  pub name : Text
  pub prefix : Text
  pub secret_hash : Text
  pub scope : Scope
  pub last_used_at : Option ℕ
  pub revoked_at : Option ℕ

pub data Issued : Type 0 where
  issued : ℕ → Text → Issued
  bad_name no_unique_prefix : Issued

abbrev pub prefix_len : ℕ
prefix_len = 8

abbrev pub secret_len : ℕ
secret_len = 43

-- "bse_"
abbrev pub head : Text
head = 98 ∷ 115 ∷ 101 ∷ 95 ∷ []

abbrev pub underscore : ℕ
underscore = 95

unfoldable pub text_eq : Text → Text → Bool
text_eq [] [] = true
text_eq [] (d ∷ ds) = false
text_eq (c ∷ cs) [] = false
text_eq (c ∷ cs) (d ∷ ds) = c == d && text_eq cs ds

unfoldable pub take : ℕ → Text → Text
take zero cs = []
take (suc n) [] = []
take (suc n) (c ∷ cs) = c ∷ take n cs

unfoldable pub drop : ℕ → Text → Text
drop zero cs = cs
drop (suc n) [] = []
drop (suc n) (c ∷ cs) = drop n cs

-- `body[_PREFIX_LEN] != "_"`, with the two slices around it.
at_underscore : Text → Text → Option (Text × Text)
at_underscore prefix [] = none
at_underscore prefix (c ∷ secret) = if c == underscore then some (prefix, secret) else none

unfoldable pub parse : Text → Option (Text × Text)
unfolding at_underscore
parse raw =
    if not (length raw == 56) || not (text_eq (take 4 raw) head)
    then none
    else at_underscore (take prefix_len (drop 4 raw)) (drop prefix_len (drop 4 raw))

-- SELECT * FROM api_tokens WHERE prefix = ?, a unique column.
unfoldable pub find_prefix : Text → List Token → Option Token
find_prefix prefix [] = none
find_prefix prefix (t ∷ rest) = if text_eq t.prefix prefix then some t else find_prefix prefix rest

abbrev pub max_id : List Token → ℕ
max_id [] = 0
max_id (t ∷ rest) = let m = max_id rest in if ltb m t.id then t.id else m

abbrev pub written : Text → Text → Text
written prefix secret = head ++ (prefix ++ underscore ∷ secret)

abbrev pub new_token : (Text → Text) → List Token → ℕ → Text → Scope → Text → Text → Token
new_token hash tokens user name scope prefix secret = record {
  id = suc (max_id tokens);
  user_id = user;
  name = name;
  prefix = prefix;
  secret_hash = hash secret;
  scope = scope;
  last_used_at = none;
  revoked_at = none;
}

-- The prefixes and secrets that `secrets.token_urlsafe` gives, one pair per attempt.
unfoldable pub attempts :
    (Text → Text) → ℕ → Text → Scope → ℕ → List (Text × Text) → List Token → Issued × List Token
attempts hash user name scope zero generated tokens = (no_unique_prefix, tokens)
attempts hash user name scope (suc left) [] tokens = (no_unique_prefix, tokens)
attempts hash user name scope (suc left) ((prefix, secret) ∷ generated) tokens =
    let again = attempts hash user name scope left generated tokens in
    if is_none (find_prefix prefix tokens)
    then (
      issued (suc (max_id tokens)) (written prefix secret),
      tokens ++ new_token hash tokens user name scope prefix secret ∷ [],
    )
    else again

-- `name` is the stripped one.
unfoldable pub create :
    (Text → Text) → List (Text × Text) → List Token → ℕ → Text → Scope → Issued × List Token
create hash generated tokens user name scope =
    if leb 1 (length name) && leb (length name) 64
    then attempts hash user name scope 5 generated tokens
    else (bad_name, tokens)

matching : (Text → Text) → Text → Option Token → Option Token
matching hash secret none = none
matching hash secret (some t) =
    if not (is_none t.revoked_at)
    then none
    else if text_eq (hash secret) t.secret_hash
    then some t
    else none

bearer : (Text → Text) → List Token → Option (Text × Text) → Option Token
unfolding matching
bearer hash tokens none = none
bearer hash tokens (some (prefix, secret)) = matching hash secret (find_prefix prefix tokens)

unfoldable pub authenticate : (Text → Text) → List Token → Text → Option Token
unfolding bearer
authenticate hash tokens header_token = bearer hash tokens (parse header_token)

abbrev pub or_now : Option ℕ → ℕ → Option ℕ
or_now none now = some now
or_now (some t) now = some t

-- UPDATE api_tokens SET revoked_at = COALESCE(revoked_at, …) WHERE id = ? AND user_id = ?
unfoldable pub revoke : List Token → ℕ → ℕ → ℕ → Bool × List Token
revoke [] user i now = (false, [])
revoke (t ∷ rest) user i now =
    let (found, others) = revoke rest user i now in
    if t.id == i && t.user_id == user
    then (true, record t { revoked_at = or_now t.revoked_at now } ∷ others)
    else (found, t ∷ others)

-- last_used_at IS NULL OR last_used_at < now - 1 minute
abbrev pub is_stale : Option ℕ → ℕ → Bool
is_stale none now = true
is_stale (some used) now = ltb (used + 60) now

unfoldable pub touch_last_used : List Token → ℕ → ℕ → List Token
touch_last_used [] i now = []
touch_last_used (t ∷ rest) i now =
    (if t.id == i && is_stale t.last_used_at now then record t { last_used_at = some now } else t)
    ∷ touch_last_used rest i now

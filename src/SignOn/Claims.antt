-- ===== src/SignOn/Claims.antt =====
-- What a provider's token says: `claimed_email`, `claim_path`, `groups_of`, `has_overage_pointer` and
-- `check_group` of src/bioseasy/oidc.py. A token is a JSON value whose numbers are kept as their
-- texts; what Python does with a text is a parameter.
pub mod Groups
use bioseasy.Prelude.{
  String, ◌≡◌, refl, subst, Bool, true, false, not, ◌&&◌, ◌||◌, Option, none, some, List, [], ◌∷◌,
  str_eq, if◌then◌else◌,
}
use bioseasy.Accounts.Users.{AuthError}

mutual
  pub data Json : Type 0 where
    null : Json
    bool : Bool → Json
    number : String → Json
    text : String → Json
    array : Items → Json
    object : Fields → Json

  pub data Items : Type 0 where
    nil : Items
    cons : Json → Items → Items

  pub data Fields : Type 0 where
    end : Fields
    field : String → Json → Fields → Fields

-- `str`, `strip`, `casefold` and `split(".")` of Python, and whether a number is zero.
pub record Python : Type 0 where
  pub str : Json → String
  pub strip : String → String
  pub casefold : String → String
  pub split_dots : String → List String
  pub is_zero : String → Bool

-- The settings of single sign-on that the modelled functions read.
pub record SsoSettings : Type 0 where
  pub groups_claim : String
  pub required_group : Option String
  pub allow_registration : Bool
  pub require_verified_email : Bool

-- The sentences of `Refused`.
pub data Refusal : Type 0 where
  no_email not_verified too_many_groups no_group_claim not_in_group : Refusal
  ambiguous_email other_identity account_gone no_account : Refusal
  not_created : AuthError → Refusal

-- `linked_elsewhere` is the ValueError of `link`, and `endless` a search for a name that does not end.
pub data Result {ℓ} (A : Type ℓ) : Type ℓ where
  ok : A → Result A
  refused : Refusal → Result A
  linked_elsewhere endless : Result A

-- A `do` block goes on only where no exception was raised.
infixl 10 ◌>>=◌
abbrev pub ◌>>=◌ {ℓ κ} : {A : Type ℓ} {B : Type κ} → Result A → (A → Result B) → Result B
refused why >>= next = refused why
endless >>= next = endless
linked_elsewhere >>= next = linked_elsewhere
ok x >>= next = next x

-- A check before what follows it.
infixl 10 ◌>>◌
abbrev pub ◌>>◌ {ℓ} : {B : Type ℓ} → Result (Unit {0}) → Result B → Result B
check >> rest = check >>= λ passed. rest

-- Both halves of a chain without exceptions.
pub chain-ok {ℓ κ} :
    {A : Type ℓ} {B : Type κ} (before : Result A) (next : A → Result B) {result : B}
    → (before >>= next) ≡ ok result
    → (x : A) × (before ≡ ok x) × (next x ≡ ok result)
chain-ok (refused why) next h = cc
chain-ok endless next h = cc
chain-ok linked_elsewhere next h = cc
chain-ok (ok x) next h = (x, refl, h)

-- What holds of the one result holds of the other.
pub holds-ok : {A : Type 0} {a b : A} (P : A → Type 0) → ok a ≡ ok b → P a → P b
holds-ok {A} P e = subst (λ (r : Result A). elim r [ ok x ↦ P x | _ ↦ Unit {0} ]) e

-- `dict.get`, with None for a missing key.
unfoldable pub get_field : String → Fields → Json
get_field key end = null
get_field key (field k v rest) = if str_eq k key then v else get_field key rest

-- `key in names`
unfoldable pub has_field : String → Fields → Bool
has_field key end = false
has_field key (field k v rest) = str_eq k key || has_field key rest

is_empty : Items → Bool
is_empty nil = true
is_empty (cons x xs) = false

has_none : Fields → Bool
has_none end = true
has_none (field k v rest) = false

unfoldable pub is_true : Json → Bool
is_true (bool b) = b
is_true _ = false

-- `userinfo or {}`
abbrev pub or_empty : Option Fields → Fields
or_empty none = end
or_empty (some fs) = fs

module _ (py : Python) where
  truthy : Json → Bool
  unfolding is_empty has_none
  truthy null = false
  truthy (bool b) = b
  truthy (number n) = not (py.is_zero n)
  truthy (text s) = not (str_eq s "")
  truthy (array xs) = not (is_empty xs)
  truthy (object fs) = not (has_none fs)

  -- `str(claims.get(key) or "").strip()`
  unfoldable pub stripped_claim : String → Fields → String
  unfolding truthy
  stripped_claim key claims =
      let v = get_field key claims in py.strip (if truthy v then py.str v else "")

  unfoldable pub claimed_email : Bool → Fields → Result String
  unfolding stripped_claim is_true
  claimed_email require_verified claims =
      let email = stripped_claim "email" claims in
      if str_eq email ""
      then refused no_email
      else if require_verified && not (is_true (get_field "email_verified" claims))
      then refused not_verified
      else ok email

  -- None is `null`, and no object.
  unfoldable pub claim_path : List String → Json → Json
  claim_path [] value = value
  claim_path (part ∷ parts) (object fs) = claim_path parts (get_field part fs)
  claim_path (part ∷ parts) _ = null

  texts : Items → List String
  texts nil = []
  texts (cons x xs) = py.str x ∷ texts xs

  groups_in : Json → Option (List String)
  unfolding texts
  groups_in null = none
  groups_in (text s) = some (s ∷ [])
  groups_in (array xs) = some (texts xs)
  groups_in v = some (py.str v ∷ [])

  unfoldable pub groups_of : Fields → String → Option (List String)
  unfolding groups_in claim_path
  groups_of claims claim = groups_in (claim_path (py.split_dots claim) (object claims))

  -- A text that is split has at least one part.
  first_part : List String → String
  first_part [] = ""
  first_part (part ∷ parts) = part

  points_to : Json → String → Bool
  points_to (object names) part = has_field part names
  points_to _ part = false

  unfoldable pub has_overage_pointer : Fields → String → Bool
  unfolding first_part points_to
  has_overage_pointer claims claim =
      points_to (get_field "_claim_names" claims) (first_part (py.split_dots claim))

  -- `any(g.casefold() == required.casefold() for g in groups)`
  unfoldable pub in_groups : String → List String → Bool
  in_groups required [] = false
  in_groups required (g ∷ groups) =
      str_eq (py.casefold g) (py.casefold required) || in_groups required groups

  first_groups : Option (List String) → Option (List String) → Option (List String)
  first_groups (some groups) other = some groups
  first_groups none other = other

  group_verdict : String → Option (List String) → Result (Unit {0})
  group_verdict required none = refused no_group_claim
  group_verdict required (some groups) =
      if in_groups required groups then ok tt else refused not_in_group

  required_check : String → String → Fields → Option Fields → Result (Unit {0})
  unfolding first_groups group_verdict
  required_check required claim claims userinfo =
      if has_overage_pointer claims claim || has_overage_pointer (or_empty userinfo) claim
      then refused too_many_groups
      else group_verdict required
          (first_groups (groups_of claims claim) (groups_of (or_empty userinfo) claim))

  group_gate : Option String → String → Fields → Option Fields → Result (Unit {0})
  unfolding required_check
  group_gate none claim claims userinfo = ok tt
  group_gate (some required) claim claims userinfo =
      if str_eq required "" then ok tt else required_check required claim claims userinfo

  unfoldable pub check_group : SsoSettings → Fields → Option Fields → Result (Unit {0})
  unfolding group_gate
  check_group settings claims userinfo =
      group_gate settings.required_group settings.groups_claim claims userinfo

  -- What the userinfo endpoint answers is asked for only where a group is required and the token
  -- has no such claim; `answer` is none where the request fails.
  remote_gate : Option String → String → Fields → Option Fields → Option Fields
  remote_gate none claim claims answer = none
  remote_gate (some required) claim claims answer =
      if str_eq required ""
      then none
      else elim (groups_of claims claim) [ some _ ↦ none | none ↦ answer ]

  unfoldable pub remote_userinfo : SsoSettings → Fields → Option Fields → Option Fields
  unfolding remote_gate
  remote_userinfo settings claims answer =
      remote_gate settings.required_group settings.groups_claim claims answer

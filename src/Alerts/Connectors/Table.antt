-- ===== src/Alerts/Connectors/Table.antt =====
-- The table `notification_connectors` and the key file of src/bioseasy/connectors.py, and the routes of
-- src/bioseasy/app.py that write them. Whether the user may use a route is an answer of its guards.
pub mod Delivered
pub mod Rows
pub mod Sendable
pub mod Sending
use bioseasy.Prelude.{
  ℕ, zero, suc, ◌+◌, ◌-◌, ◌*◌, ◌/◌, ◌%◌, ◌^◌, ◌≤◌, ◌<◌, String, ◌≡◌, refl, sym, ap, ◌∙◌, subst, ◌≢◌,
  ◌↔◌, ◌⊎◌, inl, inr, Bool, true, false, not, ◌&&◌, ◌||◌, Option, none, some, List, [], ◌∷◌, ◌++◌,
  map, arith, str_eq, eq_iff, ltb, leb, ◌==◌, if◌then◌else◌, ltb→lt, leb→le, lt→ltb, le→leb,
  Bool-cases, Option-cases, is_none, List-cases, length, length-append, All, if-holds,
}
use bioseasy.Alerts.Connectors.{
  Kind, email, telegram, apprise, Texts, Fernet, Settings, ConnectorForm, Form, FieldError, field,
  validate, validate_connector_form, email_settings,
}
use bioseasy.Alerts.Connectors.Urls.{
  Built, url, value_error, key_error, build_email_url, build_apprise_url,
}

pub data Scope : Type 0 where
  for_device : String → Scope
  for_admins : Scope

pub record Row : Type 0 where
  pub id : ℕ
  pub scope : Scope
  pub kind : Kind
  pub label : String
  pub settings : Settings
  pub secret_ciphertext : Option String
  pub enabled : Bool
  pub created_at : ℕ
  pub updated_at : ℕ

-- The key file, where it exists, and the rows in the order of their ids.
pub record Store : Type 0 where
  pub key : Option String
  pub rows : List Row

unfoldable pub same_scope : Scope → Scope → Bool
same_scope for_admins for_admins = true
same_scope (for_device a) (for_device b) = str_eq a b
same_scope _ _ = false

-- ORDER BY created_at, id
unfoldable pub insert_sorted : Row → List Row → List Row
insert_sorted r [] = r ∷ []
insert_sorted r (x ∷ rest) =
    if ltb x.created_at r.created_at then x ∷ insert_sorted r rest else r ∷ x ∷ rest

unfoldable pub list_connectors : Scope → List Row → List Row
unfolding insert_sorted
list_connectors scope [] = []
list_connectors scope (r ∷ rest) =
    let others = list_connectors scope rest in
    if same_scope r.scope scope then insert_sorted r others else others

unfoldable pub get_connector : ℕ → List Row → Option Row
get_connector i [] = none
get_connector i (r ∷ rest) = if r.id == i then some r else get_connector i rest

abbrev pub max_id : List Row → ℕ
max_id [] = 0
max_id (r ∷ rest) = let m = max_id rest in if ltb m r.id then r.id else m

unfoldable pub delete_connector : ℕ → List Row → List Row
delete_connector i [] = []
delete_connector i (r ∷ rest) =
    let others = delete_connector i rest in if r.id == i then others else r ∷ others

-- The id is the primary key, so that no row after the first match has it.
unfoldable pub update_connector :
    ℕ → String → Settings → Option String → Bool → ℕ → List Row → List Row
update_connector i label settings cipher on now [] = []
update_connector i label settings cipher on now (r ∷ rest) =
    let others = r ∷ update_connector i label settings cipher on now rest in
    if r.id == i
    then record r {
      label = label;
      settings = settings;
      secret_ciphertext = cipher;
      enabled = on;
      updated_at = now;
    }
      ∷ rest
    else others

-- `_load_key`, where a missing key is made from what `Fernet.generate_key` gives.
abbrev pub loaded : Option String → String → String
loaded none fresh = fresh
loaded (some key) fresh = key

-- `decrypt_secret`, where `none` is the ConnectorSecretError.
decrypt_with : Fernet → Option String → String → Option String
decrypt_with f none cipher = none
decrypt_with f (some key) cipher = f.decrypt key cipher

-- The secret of a row: none is the error, and `some none` no secret.
unfoldable pub secret_of : Fernet → Option String → Option String → Option (Option String)
unfolding decrypt_with
secret_of f key none = some none
secret_of f key (some cipher) = elim (decrypt_with f key cipher) [
  | none ↦ none
  | some plain ↦ some (some plain)
]

abbrev pub new_row : Scope → Kind → ConnectorForm → Option String → ℕ → List Row → Row
new_row scope kind result cipher now rows = record {
  id = suc (max_id rows);
  scope = scope;
  kind = kind;
  label = result.label;
  settings = result.settings;
  secret_ciphertext = cipher;
  enabled = true;
  created_at = now;
  updated_at = now;
}

pub data Answer : Type 0 where
  refused not_found has_errors saved : Answer

-- The store with the new secret, or with the one that the row has.
unfoldable pub stored : Fernet → String → Store → String → Option String → Option String × Store
stored f fresh s secret old =
    let key = loaded s.key fresh in
    if str_eq secret ""
    then (old, s)
    else (some (f.encrypt key secret), record s { key = some key })

abbrev pub no_errors : List FieldError → Bool
no_errors [] = true
no_errors (e ∷ es) = false

unfoldable pub text_mem : String → List String → Bool
text_mem u [] = false
text_mem u (v ∷ rest) = str_eq v u || text_mem u rest

unfoldable pub not_in : List String → List String → List String
unfolding text_mem
not_in seen [] = []
not_in seen (u ∷ rest) = if text_mem u seen then not_in seen rest else u ∷ not_in seen rest

unfoldable pub joined_targets : Option (List String) → Option (List String) → Option (List String)
unfolding not_in
joined_targets (some admins) (some own) = some (own ++ not_in own admins)
joined_targets _ _ = none

module _ (tx : Texts) (f : Fernet) where
  -- `device_connector_create` and `admin_connector_create`
  unfoldable pub connector_create : Bool → Scope → Kind → Form → String → ℕ → Store → Answer × Store
  unfolding stored
  connector_create allowed scope kind form fresh now s =
      let result = validate_connector_form tx kind form in
      let (cipher, s') = stored f fresh s result.secret none in
      if not allowed
      then (refused, s)
      else if not (no_errors result.errors)
      then (has_errors, s)
      else (
        saved,
        record s' { rows = s'.rows ++ new_row scope kind result cipher now s'.rows ∷ [] },
      )

  unfoldable pub updated : Row → Form → String → ℕ → Store → Answer × Store
  unfolding stored
  updated r form fresh now s =
      let result = validate tx r.kind form in
      let (cipher, s') = stored f fresh s result.secret r.secret_ciphertext in
      if not (no_errors result.errors) then (has_errors, s) else (
        saved,
        record s' {
          rows =
              update_connector r.id result.label result.settings cipher
                (not (str_eq (field form "enabled") "")) now s'.rows;
        },
      )

  unfoldable pub found_in : Scope → Store → Option Row → (Row → Answer × Store) → Answer × Store
  found_in scope s none g = (not_found, s)
  found_in scope s (some r) g = if same_scope r.scope scope then g r else (not_found, s)

  -- `device_connector_update` and `admin_connector_update`
  unfoldable pub connector_update : Bool → Scope → ℕ → Form → String → ℕ → Store → Answer × Store
  unfolding updated found_in
  connector_update allowed scope i form fresh now s =
      if not allowed
      then (refused, s)
      else found_in scope s (get_connector i s.rows) (λ r. updated r form fresh now s)

  -- `device_connector_delete` and `admin_connector_delete`
  unfoldable pub connector_delete : Bool → Scope → ℕ → Store → Answer × Store
  unfolding found_in
  connector_delete allowed scope i s =
      if not allowed
      then (refused, s)
      else found_in scope s (get_connector i s.rows)
          (λ r. (saved, record s { rows = delete_connector r.id s.rows }))

  -- One row of `apprise_urls_for`: no URL where it is skipped; a KeyError ends the whole call.
  unfoldable pub row_built : Row → Option (Option String) → Built
  row_built r none = value_error
  row_built r (some secret) = build_apprise_url tx r.kind r.settings secret

  unfoldable pub built_of : Option String → Row → Built
  unfolding row_built
  built_of key r = row_built r (secret_of f key r.secret_ciphertext)

  unfoldable pub with_built : Built → Option (List String) → Option (List String)
  with_built key_error rest = none
  with_built value_error rest = rest
  with_built (url u) none = none
  with_built (url u) (some urls) = some (u ∷ urls)

  unfoldable pub urls_of : Option String → List Row → Option (List String)
  unfolding with_built
  urls_of key [] = some []
  urls_of key (r ∷ rest) =
      let others = urls_of key rest in
      if r.enabled then with_built (built_of key r) others else others

  unfoldable pub apprise_urls_for : Scope → Store → Option (List String)
  apprise_urls_for scope s = urls_of s.key (list_connectors scope s.rows)

  -- `notify_targets` of src/bioseasy/runtime.py
  unfoldable pub notify_targets : String → Store → Option (List String)
  unfolding joined_targets
  notify_targets udid s =
      joined_targets (apprise_urls_for for_admins s) (apprise_urls_for (for_device udid) s)

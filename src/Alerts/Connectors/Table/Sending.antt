-- ===== src/Alerts/Connectors/Table/Sending.antt =====
-- Requests to the connector routes of src/bioseasy/app.py as steps of the stored connectors.
use bioseasy.Prelude.{
  ℕ, String, ◌≡◌, refl, sym, ap, ◌∙◌, subst, ◌⊎◌, inl, inr, Bool, true, false, not, Option, none,
  some, arith, str_eq, if◌then◌else◌, Bool-cases, All,
}
use bioseasy.Alerts.Connectors.{
  missing_secret, Kind, email, Texts, Fernet, Form, field, validate, validate_connector_form,
}
use bioseasy.Alerts.Connectors.Urls.{given, build_apprise_url}
use bioseasy.Alerts.Connectors.Table.{
  connector_delete, connector_update, Scope, Row, Store, secret_of, no_errors, loaded, stored,
  update_connector, get_connector, connector_create, updated, found_in, new_row, same_scope, Answer,
}
use bioseasy.Alerts.Connectors.Table.Rows.{
  All-map, All-append, All-delete, All-found, All-update, found-id,
}
use bioseasy.Alerts.Connectors.Table.Sendable.{
  required-given, built-given, CanSend, clean_left, validate-built,
}

-- What Fernet promises.
abbrev pub IsSound : Fernet → Type 0
IsSound f = (key text : String) → f.decrypt key (f.encrypt key text) ≡ some text

-- Every stored connector yields a URL.
abbrev pub AllSendable : Texts → Fernet → Store → Type 0
AllSendable tx f s = All (λ r. CanSend tx f s.key r) s.rows

grown_secret :
    (f : Fernet) (key : Option String) (fresh : String) (cipher : Option String)
    (plain : Option String)
    → secret_of f key cipher ≡ some plain
    → secret_of f (some (loaded key fresh)) cipher ≡ some plain
unfolding secret_of
grown_secret f (some k) fresh cipher plain e = e
grown_secret f none fresh none plain e = e
grown_secret f none fresh (some c) plain e = absurd (ground arith)

-- The secret that a form leaves a row with.
abbrev kept : String → Option String → Option String
kept secret old = if str_eq secret "" then old else some secret

-- The row's new secret reads as it should, and a secret that was readable still is.
pub stored-secret :
    (f : Fernet) (fresh : String) (s : Store) (secret : String) (old plain : Option String)
    → IsSound f
    → secret_of f s.key old ≡ some plain
    → secret_of f (stored f fresh s secret old).1.key (stored f fresh s secret old).0
      ≡ some (kept secret plain)
unfolding stored secret_of
stored-secret f fresh s secret old plain sound e = elim (Bool-cases (str_eq secret "")) [
  | inl is_empty ↦ rw is_empty e
  | inr not_empty ↦ rw (not_empty, sound (loaded s.key fresh) secret) refl
]

stored-grown :
    (f : Fernet) (fresh : String) (s : Store) (secret : String) (old cipher plain : Option String)
    → secret_of f s.key cipher ≡ some plain
    → secret_of f (stored f fresh s secret old).1.key cipher ≡ some plain
unfolding stored
stored-grown f fresh s secret old cipher plain e =
    ground (arith, grown_secret f s.key fresh cipher plain e)

if-given :
    (x y : Answer × Store) (P : Store → Type 0) (b : Bool)
    → (b ≡ true → P x.1)
    → (b ≡ false → P y.1)
    → P (if b then x else y).1
if-given x y P true p q = p refl
if-given x y P false p q = q refl

kept-given :
    (kind : Kind) (secret : String) (plain : Option String)
    → (kind ≡ email) ⊎ ((q : String) × (given plain ≡ some q))
    → (kind ≡ email) ⊎ ((q : String) × (given (kept secret plain) ≡ some q))
kept-given kind secret plain (inl e) = inl e
kept-given kind secret plain (inr (q, e)) = elim (Bool-cases (str_eq secret "")) [
  | inl is_empty ↦ inr (q, rw is_empty e)
  | inr not_empty ↦ inr (secret, ground (arith, not_empty))
]

-- What a form without errors leaves a row of its kind with.
written-CanSend :
    (tx : Texts) (f : Fernet) (fresh : String) (s : Store) (form : Form) (r : Row)
    (old plain : Option String)
    → IsSound f
    → secret_of f s.key old ≡ some plain
    → no_errors (validate tx r.kind form).errors ≡ true
    → (r.kind ≡ email)
      ⊎ ((q : String) × (given (kept (validate tx r.kind form).secret plain) ≡ some q))
    → r.settings ≡ (validate tx r.kind form).settings
    → r.secret_ciphertext ≡ (stored f fresh s (validate tx r.kind form).secret old).0
    → CanSend tx f (stored f fresh s (validate tx r.kind form).secret old).1.key r
written-CanSend tx f fresh s form r old plain sound e ok w same cipher =
    let secret = (validate tx r.kind form).secret in
    let (u, built) = validate-built tx r.kind form (kept secret plain) ok w in
    (
      kept secret plain,
      ap (secret_of f (stored f fresh s secret old).1.key) cipher
          ∙ stored-secret f fresh s secret old plain sound e,
      (u, ap (λ st. build_apprise_url tx r.kind st (kept secret plain)) same ∙ built),
    )

All-grown :
    (tx : Texts) (f : Fernet) (fresh : String) (s : Store) (secret : String) (old : Option String)
    → AllSendable tx f s
    → All (λ r. CanSend tx f (stored f fresh s secret old).1.key r) s.rows
All-grown tx f fresh s secret old a =
    All-map (λ r. CanSend tx f s.key r) (λ r. CanSend tx f (stored f fresh s secret old).1.key r)
      s.rows (λ r c. (c.0, stored-grown f fresh s secret old r.secret_ciphertext c.0 c.1, c.2)) a

stored-rows :
    (f : Fernet) (fresh : String) (s : Store) (secret : String) (old : Option String)
    → (stored f fresh s secret old).1.rows ≡ s.rows
unfolding stored
stored-rows f fresh s secret old = ground arith

create-AllSendable :
    (tx : Texts) (f : Fernet) (allowed : Bool) (scope : Scope) (kind : Kind) (form : Form)
    (fresh : String) (now : ℕ) (s : Store)
    → IsSound f
    → AllSendable tx f s
    → AllSendable tx f (connector_create tx f allowed scope kind form fresh now s).1
unfolding connector_create validate_connector_form secret_of
create-AllSendable tx f allowed scope kind form fresh now s sound v =
    let result = validate_connector_form tx kind form in
    let wrote = stored f fresh s result.secret none in
    if-given _ _ (AllSendable tx f) (not allowed) (λ off. v)
      (λ on.
        if-given _ _ (AllSendable tx f) (not (no_errors result.errors)) (λ bad. v)
          (λ good.
            let (ok, required) =
              clean_left (validate tx kind form).errors (missing_secret tx kind result.secret)
                (ground (arith, good)) in
            All-append (λ r. CanSend tx f wrote.1.key r) wrote.1.rows
              (new_row scope kind result wrote.0 now wrote.1.rows)
              (subst (All (λ r. CanSend tx f wrote.1.key r))
                (sym (stored-rows f fresh s result.secret none))
                (All-grown tx f fresh s result.secret none v))
              (written-CanSend tx f fresh s form
                (new_row scope kind result wrote.0 now wrote.1.rows) none none sound refl ok
                (required-given tx kind result.secret required) refl refl)))

found-AllSendable :
    (tx : Texts) (f : Fernet) (scope : Scope) (s : Store) (o : Option Row)
    (g : Row → Answer × Store)
    → AllSendable tx f s
    → ((r : Row) → o ≡ some r → AllSendable tx f (g r).1)
    → AllSendable tx f (found_in tx f scope s o g).1
unfolding found_in
found-AllSendable tx f scope s none g v h = v
found-AllSendable tx f scope s (some r) g v h =
    if-given _ _ (AllSendable tx f) (same_scope r.scope scope) (λ on. h r refl) (λ off. v)

updated-AllSendable :
    (tx : Texts) (f : Fernet) (r : Row) (form : Form) (fresh : String) (now : ℕ) (s : Store)
    → IsSound f
    → AllSendable tx f s
    → get_connector r.id s.rows ≡ some r
    → AllSendable tx f (updated tx f r form fresh now s).1
unfolding updated
updated-AllSendable tx f r form fresh now s sound v at =
    let result = validate tx r.kind form in
    let wrote = stored f fresh s result.secret r.secret_ciphertext in
    let (plain, reads, (u, built)) = All-found (λ x. CanSend tx f s.key x) r.id s.rows r at v in
    if-given _ _ (AllSendable tx f) (not (no_errors result.errors)) (λ bad. v)
      (λ good.
        subst
          (λ rows.
            All (λ x. CanSend tx f wrote.1.key x)
              (update_connector r.id result.label result.settings wrote.0
                (not (str_eq (field form "enabled") "")) now rows))
          (sym (stored-rows f fresh s result.secret r.secret_ciphertext))
          (All-update (λ x. CanSend tx f wrote.1.key x) r.id result.label result.settings wrote.0
            (not (str_eq (field form "enabled") "")) now s.rows r at
            (written-CanSend tx f fresh s form
              (record r {
                label = result.label;
                settings = result.settings;
                secret_ciphertext = wrote.0;
                enabled = not (str_eq (field form "enabled") "");
                updated_at = now;
              })
              r.secret_ciphertext plain sound reads (ground (arith, good))
              (kept-given r.kind result.secret plain
                (built-given tx r.kind r.settings plain u built))
              refl refl)
            (All-grown tx f fresh s result.secret r.secret_ciphertext v)))

update-AllSendable :
    (tx : Texts) (f : Fernet) (allowed : Bool) (scope : Scope) (i : ℕ) (form : Form)
    (fresh : String) (now : ℕ) (s : Store)
    → IsSound f
    → AllSendable tx f s
    → AllSendable tx f (connector_update tx f allowed scope i form fresh now s).1
unfolding connector_update
update-AllSendable tx f allowed scope i form fresh now s sound v =
    if-given _ _ (AllSendable tx f) (not allowed) (λ off. v)
      (λ on.
        found-AllSendable tx f scope s (get_connector i s.rows)
          (λ r. updated tx f r form fresh now s) v
          (λ r at.
            updated-AllSendable tx f r form fresh now s sound v
              (ap (λ (k : ℕ). get_connector k s.rows) (found-id i s.rows r at) ∙ at)))

delete-AllSendable :
    (tx : Texts) (f : Fernet) (allowed : Bool) (scope : Scope) (i : ℕ) (s : Store)
    → AllSendable tx f s
    → AllSendable tx f (connector_delete tx f allowed scope i s).1
unfolding connector_delete
delete-AllSendable tx f allowed scope i s v =
    if-given _ _ (AllSendable tx f) (not allowed) (λ off. v)
      (λ on.
        found-AllSendable tx f scope s (get_connector i s.rows) _ v
          (λ r at. All-delete (λ x. CanSend tx f s.key x) r.id s.rows v))

-- A request to a connector route, with whatever it carries.
pub data Step (tx : Texts) (f : Fernet) (s : Store) : Store → Type 0 where
  create_at :
      (allowed : Bool) (scope : Scope) (kind : Kind) (form : Form) (fresh : String) (now : ℕ)
      → Step tx f s (connector_create tx f allowed scope kind form fresh now s).1
  update_at :
      (allowed : Bool) (scope : Scope) (i : ℕ) (form : Form) (fresh : String) (now : ℕ)
      → Step tx f s (connector_update tx f allowed scope i form fresh now s).1
  delete_at :
      (allowed : Bool) (scope : Scope) (i : ℕ)
      → Step tx f s (connector_delete tx f allowed scope i s).1

pub data Reach (tx : Texts) (f : Fernet) (s : Store) : Store → Type 0 where
  here : Reach tx f s s
  next : {mid later : Store} → Reach tx f s mid → Step tx f mid later → Reach tx f s later

step-AllSendable :
    {tx : Texts} {f : Fernet} {s later : Store}
    → IsSound f
    → AllSendable tx f s
    → Step tx f s later
    → AllSendable tx f later
step-AllSendable {tx} {f} {s} sound v (create_at allowed scope kind form fresh now) =
    create-AllSendable tx f allowed scope kind form fresh now s sound v
step-AllSendable {tx} {f} {s} sound v (update_at allowed scope i form fresh now) =
    update-AllSendable tx f allowed scope i form fresh now s sound v
step-AllSendable {tx} {f} {s} sound v (delete_at allowed scope i) =
    delete-AllSendable tx f allowed scope i s v

pub Reach-AllSendable :
    {tx : Texts} {f : Fernet} {s later : Store}
    → IsSound f
    → AllSendable tx f s
    → Reach tx f s later
    → AllSendable tx f later
Reach-AllSendable sound v here = v
Reach-AllSendable sound v (next before step) =
    step-AllSendable sound (Reach-AllSendable sound v before) step

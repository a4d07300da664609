-- ===== src/Alerts/Connectors/Table/Sendable.antt =====
-- Why a stored connector of src/bioseasy/connectors.py always yields a URL.
use bioseasy.Prelude.{
  String, ◌≡◌, refl, ◌⊎◌, inl, inr, Bool, true, false, Option, none, some, List, [], ◌∷◌, ◌++◌,
  arith, str_eq, if◌then◌else◌, Option-cases, is_none,
}
use bioseasy.Alerts.Connectors.{
  Settings, missing_secret, EmailSettings, mode_of, validate_apprise_form, validate_telegram_form,
  validate_email_form, error_if, Kind, email, telegram, apprise, Texts, Fernet, Form, FieldError,
  field, validate, email_settings,
}
use bioseasy.Alerts.Connectors.Urls.{
  given, apprise_of, telegram_of, moded, url, build_email_url, build_apprise_url,
}
use bioseasy.Alerts.Connectors.Table.{secret_of, Row, no_errors}

-- The row's URL can be built under the key.
abbrev pub CanSend : Texts → Fernet → Option String → Row → Type 0
CanSend tx f key r =
    (plain : Option String) × (secret_of f key r.secret_ciphertext ≡ some plain)
    × ((u : String) × (build_apprise_url tx r.kind r.settings plain ≡ url u))

clean :
    (b : Bool) (e : FieldError) (rest : List FieldError)
    → no_errors (error_if b e ++ rest) ≡ true
    → (b ≡ false) × (no_errors rest ≡ true)
clean true e rest h = absurd (ground arith)
clean false e rest h = (refl, h)

pub clean_left :
    (es rest : List FieldError)
    → no_errors (es ++ rest) ≡ true
    → (no_errors es ≡ true) × (no_errors rest ≡ true)
clean_left [] rest h = (refl, h)
clean_left (e ∷ es) rest h = absurd (ground arith)

moded-url :
    (tx : Texts) (s : EmailSettings) (secret mode : Option String)
    → is_none mode ≡ false
    → (u : String) × (moded tx s secret mode ≡ url u)
unfolding moded
moded-url tx s secret none h = absurd (ground arith)
moded-url tx s secret (some m) h = (_, refl)

email-url :
    (tx : Texts) (s : EmailSettings) (secret : Option String)
    → is_none (mode_of s.security) ≡ false
    → (u : String) × (build_apprise_url tx email (email_settings s) secret ≡ url u)
unfolding build_apprise_url build_email_url
email-url tx s secret h = moded-url tx s secret (mode_of s.security) h

telegram_of-url :
    (tx : Texts) (form : Form) (o : Option String) (plain : String)
    → o ≡ some plain
    → (u : String) × (telegram_of tx (validate_telegram_form tx form).settings o ≡ url u)
unfolding telegram_of validate_telegram_form
telegram_of-url tx form none plain e = absurd (ground arith)
telegram_of-url tx form (some s) plain e = (_, refl)

apprise_of-url :
    (tx : Texts) (o : Option String) (plain : String)
    → o ≡ some plain
    → (u : String) × (apprise_of tx o ≡ url u)
unfolding apprise_of
apprise_of-url tx none plain e = absurd (ground arith)
apprise_of-url tx (some s) plain e = (s, refl)

email-mode :
    (tx : Texts) (form : Form)
    → no_errors (validate tx email form).errors ≡ true
    → is_none (mode_of (field form "security")) ≡ false
unfolding validate validate_email_form
email-mode tx form h = ground (arith, h)

-- An accepted form's settings yield a URL with any secret, where one is required.
pub validate-built :
    (tx : Texts) (kind : Kind) (form : Form) (secret : Option String)
    → no_errors (validate tx kind form).errors ≡ true
    → (kind ≡ email) ⊎ ((plain : String) × (given secret ≡ some plain))
    → (u : String) × (build_apprise_url tx kind (validate tx kind form).settings secret ≡ url u)
unfolding validate validate_email_form validate_telegram_form validate_apprise_form
    build_apprise_url
validate-built tx email form secret h w = email-url tx _ secret (email-mode tx form h)
validate-built tx telegram form secret h (inl e) = absurd cc
validate-built tx telegram form secret h (inr (plain, e)) =
    telegram_of-url tx form (given secret) plain e
validate-built tx apprise form secret h (inl e) = absurd cc
validate-built tx apprise form secret h (inr (plain, e)) = apprise_of-url tx (given secret) plain e

-- A secret that a URL was built with is there, where one is required.
pub built-given :
    (tx : Texts) (kind : Kind) (s : Settings) (secret : Option String) (u : String)
    → build_apprise_url tx kind s secret ≡ url u
    → (kind ≡ email) ⊎ ((plain : String) × (given secret ≡ some plain))
unfolding build_apprise_url telegram_of apprise_of
built-given tx email s secret u e = inl refl
built-given tx telegram s secret u e = elim (Option-cases (given secret)) [
  | inl gone ↦ absurd (ground (arith, gone, e))
  | inr found ↦ inr found
]
built-given tx apprise s secret u e = elim (Option-cases (given secret)) [
  | inl gone ↦ absurd (ground (arith, gone, e))
  | inr found ↦ inr found
]

pub required-given :
    (tx : Texts) (kind : Kind) (secret : String)
    → no_errors (missing_secret tx kind secret) ≡ true
    → (kind ≡ email)
      ⊎ ((plain : String) × (given (if str_eq secret "" then none else some secret) ≡ some plain))
unfolding missing_secret
required-given tx email secret e = inl refl
required-given tx telegram secret e = inr (secret, ground (arith, e))
required-given tx apprise secret e = inr (secret, ground (arith, e))

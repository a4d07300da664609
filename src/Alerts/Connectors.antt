-- ===== src/Alerts/Connectors.antt =====
-- src/bioseasy/connectors.py: the forms of a connector and its secret. The patterns, `int`, `str`,
-- Apprise's parser and the quoting of URLs are a parameter, and so is Fernet. The settings of a row are
-- the values that its JSON text stands for.
pub mod Table
pub mod Urls
use bioseasy.Prelude.{
  ℕ, zero, suc, ◌+◌, ◌-◌, ◌*◌, ◌/◌, ◌%◌, ◌^◌, ◌≤◌, ◌<◌, String, ◌≡◌, refl, sym, ap, ◌∙◌, subst, ◌≢◌,
  ◌↔◌, ◌⊎◌, inl, inr, Bool, true, false, not, ◌&&◌, ◌||◌, Option, none, some, List, [], ◌∷◌, ◌++◌,
  map, arith, str_eq, eq_iff, ltb, leb, ◌==◌, if◌then◌else◌, ltb→lt, leb→le, lt→ltb, le→leb,
  Bool-cases, Option-cases, is_none, List-cases, length, length-append, All, if-holds,
}
use Prim.Native.String.{count}

pub data Kind : Type 0 where
  email telegram apprise : Kind

-- What `int` makes of a text.
pub data Parsed : Type 0 where
  not_a_number negative : Parsed
  number : ℕ → Parsed

pub record Texts : Type 0 where
  pub strip : String → String
  pub has_space : String → Bool
  pub is_email : String → Bool
  pub is_telegram_token : String → Bool
  pub is_numeric_chat : String → Bool
  pub is_channel : String → Bool
  pub splitlines : String → List String
  pub int : String → Parsed
  pub str : ℕ → String
  pub is_apprise_url : String → Bool
  pub quote : String → String
  pub quote_but_at : String → String
  pub urlencode : List (String × String) → String

pub record Fernet : Type 0 where
  pub encrypt : String → String → String
  pub decrypt : String → String → Option String

pub data FieldError : Type 0 where
  bad_label no_host bad_port bad_security long_username bad_from no_recipient long_password :
      FieldError
  bad_recipient : String → FieldError
  bad_token bad_chat bad_topic bad_url no_token no_url : FieldError

pub record EmailSettings : Type 0 where
  pub host : String
  pub port : ℕ
  pub security : String
  pub username : Option String
  pub from_addr : String
  pub to : List String

pub data Settings : Type 0 where
  email_settings : EmailSettings → Settings
  telegram_settings : String → Option ℕ → Settings
  empty_settings : Settings

-- `settings` is empty where there are errors.
pub record ConnectorForm : Type 0 where
  pub label : String
  pub settings : Settings
  pub secret : String
  pub errors : List FieldError

abbrev pub Form : Type 0
Form = List (String × String)

-- `form.get(key, "")`
unfoldable pub field : Form → String → String
field [] key = ""
field ((k, v) ∷ rest) key = if str_eq k key then v else field rest key

-- "insecure", "starttls" and "ssl" of Apprise.
abbrev pub mode_of : String → Option String
mode_of s =
    if str_eq s "none"
    then some "insecure"
    else if str_eq s "starttls"
    then some "starttls"
    else if str_eq s "tls"
    then some "ssl"
    else none

abbrev pub error_if : Bool → FieldError → List FieldError
error_if b e = if b then e ∷ [] else []

-- `_int_in_range`, where an error has no value.
unfoldable pub int_in_range : ℕ → ℕ → Parsed → Option ℕ
int_in_range low high not_a_number = none
int_in_range low high negative = none
int_in_range low high (number n) = if leb low n && leb n high then some n else none

abbrev pub or_zero : Option ℕ → ℕ
or_zero none = 0
or_zero (some n) = n

abbrev pub or_none : String → Option String
or_none s = if str_eq s "" then none else some s

module _ (tx : Texts) where
  bad_label_of : Form → Bool
  bad_label_of form = let n = count (tx.strip (field form "label")) in not (leb 1 n && leb n 64)

  -- `_clean_label`
  clean_label : Form → String
  unfolding bad_label_of
  clean_label form = if bad_label_of form then "" else tx.strip (field form "label")

  recipients : List String → List String
  recipients [] = []
  recipients (line ∷ lines) =
      let rest = recipients lines in
      if str_eq (tx.strip line) "" then rest else tx.strip line ∷ rest

  bad_recipients : List String → List FieldError
  bad_recipients [] = []
  bad_recipients (addr ∷ rest) =
      error_if (not (tx.is_email addr)) (bad_recipient addr) ++ bad_recipients rest

  recipient_errors : List String → List FieldError
  unfolding bad_recipients
  recipient_errors [] = no_recipient ∷ []
  recipient_errors (addr ∷ rest) = bad_recipients (addr ∷ rest)

  email_errors : Form → String → Option ℕ → String → String → List String → List FieldError
  unfolding bad_label_of recipient_errors
  email_errors form host port username from_addr to =
      error_if (bad_label_of form) bad_label
      ++ (error_if (not (leb 1 (count host) && leb (count host) 255) || tx.has_space host) no_host
          ++ (error_if (is_none port) bad_port
              ++ (error_if (is_none (mode_of (field form "security"))) bad_security
                  ++ (error_if (ltb 254 (count username)) long_username
                      ++ (error_if (not (tx.is_email from_addr)) bad_from
                          ++ (recipient_errors to
                              ++ error_if (ltb 512 (count (field form "password")))
                                  long_password))))))

  unfoldable pub validate_email_form : Form → ConnectorForm
  unfolding clean_label recipients email_errors
  validate_email_form form =
      let host = tx.strip (field form "host") in
      let port = int_in_range 1 65535 (tx.int (field form "port")) in
      let username = tx.strip (field form "username") in
      let from_addr = tx.strip (field form "from_addr") in
      let to = recipients (tx.splitlines (field form "to")) in
      record {
        label = clean_label form;
        settings = email_settings (record {
          host = host;
          port = or_zero port;
          security = field form "security";
          username = or_none username;
          from_addr = from_addr;
          to = to;
        });
        secret = field form "password";
        errors = email_errors form host port username from_addr to;
      }

  topic_of : String → Option ℕ
  topic_of raw = if str_eq raw "" then none else int_in_range 1 2147483647 (tx.int raw)

  unfoldable pub validate_telegram_form : Form → ConnectorForm
  unfolding clean_label bad_label_of topic_of
  validate_telegram_form form =
      let bot_token = tx.strip (field form "bot_token") in
      let chat_id = tx.strip (field form "chat_id") in
      let topic_raw = tx.strip (field form "topic_id") in
      record {
        label = clean_label form;
        settings = telegram_settings chat_id (topic_of topic_raw);
        secret = bot_token;
        errors =
            error_if (bad_label_of form) bad_label
            ++ (error_if (not (str_eq bot_token "") && not (tx.is_telegram_token bot_token))
                  bad_token
                ++ (error_if (not (tx.is_numeric_chat chat_id || tx.is_channel chat_id)) bad_chat
                    ++ error_if (not (str_eq topic_raw "") && is_none (topic_of topic_raw))
                        bad_topic));
      }

  unfoldable pub validate_apprise_form : Form → ConnectorForm
  unfolding clean_label bad_label_of
  validate_apprise_form form =
      let url = tx.strip (field form "url") in
      record {
        label = clean_label form;
        settings = empty_settings;
        secret = url;
        errors =
            error_if (bad_label_of form) bad_label
            ++ error_if (not (str_eq url "") && not (tx.is_apprise_url url)) bad_url;
      }

  -- `VALIDATORS`
  unfoldable pub validate : Kind → Form → ConnectorForm
  validate email form = validate_email_form form
  validate telegram form = validate_telegram_form form
  validate apprise form = validate_apprise_form form

  -- REQUIRED_SECRET_LABEL
  unfoldable pub missing_secret : Kind → String → List FieldError
  missing_secret email secret = []
  missing_secret telegram secret = error_if (str_eq secret "") no_token
  missing_secret apprise secret = error_if (str_eq secret "") no_url

  unfoldable pub validate_connector_form : Kind → Form → ConnectorForm
  unfolding missing_secret
  validate_connector_form kind form =
      let result = validate kind form in
      record result { errors = result.errors ++ missing_secret kind result.secret }

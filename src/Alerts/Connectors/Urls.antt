-- ===== src/Alerts/Connectors/Urls.antt =====
-- The URL that a connector of src/bioseasy/connectors.py stands for.
use bioseasy.Prelude.{
  ℕ, String, Option, none, some, List, [], ◌∷◌, ◌++◌, str_eq, ◌==◌, if◌then◌else◌,
}
use Prim.Native.String.{◌++◌ as str_append}
use bioseasy.Alerts.Connectors.{
  Kind, email, telegram, apprise, Texts, EmailSettings, Settings, email_settings, telegram_settings,
  mode_of, or_none,
}

module _ (tx : Texts) where
  joined : List String → String
  joined [] = ""
  joined (a ∷ []) = a
  joined (a ∷ b ∷ rest) = str_append a (str_append "," (joined (b ∷ rest)))

  optional_pair : String → Option String → List (String × String)
  optional_pair key none = []
  optional_pair key (some v) = if str_eq v "" then [] else (key, v) ∷ []

  email_url : EmailSettings → Option String → String → String
  unfolding joined optional_pair
  email_url s password mode = str_append "mailto://" (
      str_append (tx.quote s.host) (
        str_append ":" (
          str_append (tx.str s.port) (
            str_append "?" (
              tx.urlencode (
                ("mode", mode)
                ∷ ("from", s.from_addr)
                ∷ ("to", joined s.to)
                ∷ (optional_pair "user" s.username ++ optional_pair "pass" password)))))))

  -- A number 0 is no topic for `if settings.get("topic_id")`.
  topic_query : Option ℕ → String
  topic_query none = ""
  topic_query (some topic) =
      if topic == 0 then "" else str_append "?" (tx.urlencode (("topic", tx.str topic) ∷ []))

  telegram_url : String → Option ℕ → String → String
  unfolding topic_query
  telegram_url chat_id topic bot_token = str_append "tgram://" (
      str_append (tx.quote bot_token)
        (str_append "/" (str_append (tx.quote_but_at chat_id) (topic_query topic))))

-- A URL, or the exception of building one.
pub data Built : Type 0 where
  url : String → Built
  value_error key_error : Built

-- `not secret`
abbrev pub given : Option String → Option String
given none = none
given (some s) = or_none s

module _ (tx : Texts) where
  unfoldable pub moded : EmailSettings → Option String → Option String → Built
  unfolding email_url
  moded s password none = key_error
  moded s password (some mode) = url (email_url tx s password mode)

  unfoldable pub build_email_url : Settings → Option String → Built
  unfolding moded email_url
  build_email_url (email_settings s) password = moded s password (mode_of s.security)
  build_email_url _ password = key_error

  build_telegram_url : Settings → String → Built
  build_telegram_url (telegram_settings chat_id topic) bot_token =
      url (telegram_url tx chat_id topic bot_token)
  build_telegram_url _ bot_token = key_error

  unfoldable pub telegram_of : Settings → Option String → Built
  unfolding build_telegram_url telegram_url
  telegram_of settings none = value_error
  telegram_of settings (some bot_token) = build_telegram_url settings bot_token

  unfoldable pub apprise_of : Option String → Built
  apprise_of none = value_error
  apprise_of (some secret) = url secret

  unfoldable pub build_apprise_url : Kind → Settings → Option String → Built
  unfolding telegram_of apprise_of telegram_url
  build_apprise_url email settings secret = build_email_url settings secret
  build_apprise_url telegram settings secret = telegram_of settings (given secret)
  build_apprise_url apprise settings secret = apprise_of (given secret)

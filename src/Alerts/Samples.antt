-- ===== src/Alerts/Samples.antt =====
-- Concrete connectors for src/bioseasy/connectors.py.
use bioseasy.Prelude.{String, ◌≡◌, refl, ◌⊎◌, true, false, none, some, List, [], ◌∷◌}
use bioseasy.Alerts.Connectors.{
  validate, validate_telegram_form, field, telegram, number, Texts, Fernet, Form,
  validate_connector_form,
}
use bioseasy.Alerts.Connectors.Urls.{build_apprise_url}
use bioseasy.Alerts.Connectors.Table.{
  apprise_urls_for, urls_of, list_connectors, same_scope, secret_of, Store, Row, for_admins,
  for_device, connector_create, built_of, notify_targets,
}
use bioseasy.Alerts.Connectors.Table.Rows.{IsIn}
use bioseasy.Alerts.Connectors.Table.Sending.{IsSound, here, next, create_at}
use bioseasy.Alerts.Connectors.Table.Delivered.{IsCovered, notify_targets-covers}

abbrev texts : Texts
texts = record {
  strip = λ s. s;
  has_space = λ s. false;
  is_email = λ s. true;
  is_telegram_token = λ s. true;
  is_numeric_chat = λ s. true;
  is_channel = λ s. false;
  splitlines = λ s. s ∷ [];
  int = λ s. number 7;
  str = λ n. "7";
  is_apprise_url = λ s. true;
  quote = λ s. s;
  quote_but_at = λ s. s;
  urlencode = λ l. "topic=7";
}

-- A cipher that changes nothing.
abbrev identity : Fernet
identity = record { encrypt = λ key s. s; decrypt = λ key s. some s }

identity-IsSound : IsSound identity
identity-IsSound key text = refl

abbrev bot : Form
bot = ("label", "Family chat") ∷ ("bot_token", "110:AAH") ∷ ("chat_id", "42") ∷ []

abbrev one_bot : Store
one_bot =
    (connector_create texts identity true for_admins telegram bot "k" 5
      (record { key = none; rows = [] })).1

notify_targets-covers_example :
    (targets : List String) × (notify_targets texts identity "udid" one_bot ≡ some targets)
    × ((r : Row)
        → IsIn r one_bot.rows
        → r.enabled ≡ true
        → (r.scope ≡ for_device "udid") ⊎ (r.scope ≡ for_admins)
        → IsCovered texts identity one_bot.key targets r)
notify_targets-covers_example =
    notify_targets-covers texts identity none one_bot "udid" identity-IsSound
      (next here (create_at true for_admins telegram bot "k" 5))

bot_url : notify_targets texts identity "udid" one_bot ≡ some ("tgram://110:AAH/42" ∷ [])
unfolding notify_targets connector_create apprise_urls_for urls_of list_connectors
    validate_connector_form validate validate_telegram_form field same_scope built_of secret_of
    build_apprise_url
bot_url = refl

-- ===== src/Lib.antt =====
-- bioseasy backs up iPhones and iPads over Wi-Fi to a server of one's own. A web process and a worker
-- process share one SQLite database. The worker's tick looks at every device and decides whether to start
-- a backup; a backup is a run with a row, a thread and an activity; a finished run becomes a generation on
-- disk, of which retention keeps some and deep verification checks the files. People sign in with a
-- password, programs with a token, and a new device is trusted with a pairing code.
--
-- The parts and their files:
--
--   Clock, Scheduler (src/bioseasy/scheduler.py): times of day (HourMinute: `_parse_hhmm`), the window of a
--     device and its occurrences (Window), the attempts within one occurrence (Retry: `_attempt_allowed`),
--     and `decide` (Decide).
--   Ticker (src/bioseasy/ticker.py): the charging probe of `tick`; Round has the lease and `_verify_due`.
--   Jobs (src/bioseasy/jobs.py): Store has the rows of `runs` and `workers`, Sweep `sweep_orphan_runs`,
--     Manager the operations of `JobManager` on its state and the tables, Execute `_run` with its exception
--     handlers and what `activity.track` records around it, History the steps of several workers.
--   Retention (src/bioseasy/snapshots.py): Policy, and Plan with `plan_retention` and `apply_retention`.
--   Backups: Verify (src/bioseasy/verify.py), Inventory (src/bioseasy/inventory.py), Storage
--     (src/bioseasy/storage.py) and Mounts (src/bioseasy/mountinfo.py).
--   Devices: Defaults (src/bioseasy/defaults.py), Status (src/bioseasy/status.py), and Setup, the steps of
--     src/bioseasy/runtime.py that set a device up, with their rows; Discovery (src/bioseasy/discovery.py),
--     what a scan writes.
--   Activity (src/bioseasy/activity.py): the rows that the header shows.
--   Events (src/bioseasy/events.py): the feed of finished runs and verifications, in pages.
--   Accounts: Users and Throttle (src/bioseasy/auth.py), Tokens (src/bioseasy/tokens.py).
--   Onboarding: Handoff (src/bioseasy/handoff.py).
--   SignOn: Claims and Links (src/bioseasy/oidc.py), what a provider's token says and the accounts that it is
--     linked to, and Callback, the route `login_oidc_callback` of src/bioseasy/app.py.
--   Web: Accounts, the routes of src/bioseasy/app.py that create, change and remove accounts; Requests has
--     them, and the sign-on route, as the steps of a site.
--   Alerts: Connectors (src/bioseasy/connectors.py), the forms, Urls, and Table, which has the rows, the
--     routes that write them and `notify_targets` of src/bioseasy/runtime.py.
--   Prelude: names, tests and lemmas that the others share. The modules called Samples hold concrete inputs.
--
-- How the code is written here. A table is a list of rows in the order of their ids, and a query walks it.
-- A function that changes state takes the state and returns it; an exception is a value (Option, Started,
-- or the Result of a part). Constraints of the schema stand where the code relies on them: the index
-- runs_one_running and the foreign key of `runs`, the unique names, addresses, prefixes and hashes. Other
-- writes succeed. Hooks such as `_on_event` return. A text that the code only shows is a constructor or is
-- left out.
--
-- What is not under src/ is a parameter: the time zone database (TimeZone), Python's calendar (Calendar),
-- what Python and SQLite do with the case and the blanks of a text (Texts), argon2 (Hasher), `str` and
-- `int` of Python (Numerals), `split` and `normpath` (Paths), SHA-256 (a function on texts), what Python
-- does with the values of a token (Python), Fernet, and the patterns, Apprise's parser and the quoting of
-- URLs (Texts of Alerts.Connectors). A theorem that relies on one of them says so in a hypothesis. What the
-- disk and SQLite answer while files are checked is a record of answers, and so is what the device engine
-- returns during one run (Attempt).
--
-- Numbers: an instant in Scheduler is in microseconds since the year 1, a timestamp of a table in whole
-- seconds; the texts of one format are ordered as the numbers are. Instants lie far enough from 0 for the
-- subtractions of the code not to stop there. Settings, intervals and counts are not negative. Loops over
-- rows are by recursion on the list; the retries of a new token or pairing code are at most five, as in the
-- code, on the values that the random source gives. The notice lead is compared in microseconds.
-- A time of day is read as the Python 3.12 of the Dockerfile does it: from the decimal digits of Unicode
-- 15.0, and from at most 4300 of them.
-- The search for a free user name has fuel for one try more than there are accounts, which is enough where
-- the numerals of the tried names differ.
--
-- Not modelled: the templates and the other web routes, the device protocols, the calls of SMTP, MQTT,
-- Apprise and push services, file streams and decryption, the migrations, and threads below the level of
-- the calls. Of single sign-on, the exchange with the provider, the creation times and listings of links,
-- and the time of the last sign-in; of the setup steps, the activities around them and the texts of a
-- check; of the connectors, what the forms show again, and the invitation by mail; of the feed, the texts
-- that a page shows. A user is the row of `users` with the columns that the code reads; the index on
-- addresses is the one of a current schema.
pub mod Prelude
pub mod Clock
pub mod Scheduler
pub mod Ticker
pub mod Retention
pub mod Jobs
pub mod Accounts
pub mod SignOn
pub mod Onboarding
pub mod Alerts
pub mod Web
pub mod Backups
pub mod Devices
pub mod Activity
pub mod Events

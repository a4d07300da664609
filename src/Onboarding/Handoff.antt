-- ===== src/Onboarding/Handoff.antt =====
-- The pairing codes of src/bioseasy/handoff.py. Times are whole seconds, as the table keeps them; the
-- hash of a code is a parameter.
pub mod Codes
pub mod Once
use bioseasy.Prelude.{
  ℕ, zero, suc, ◌+◌, ◌-◌, ◌*◌, ◌/◌, ◌%◌, ◌^◌, ◌≤◌, ◌<◌, String, ◌≡◌, refl, sym, ap, ◌∙◌, subst, ◌≢◌,
  ◌↔◌, ◌⊎◌, inl, inr, Bool, true, false, not, ◌&&◌, ◌||◌, Option, none, some, List, [], ◌∷◌, ◌++◌,
  map, arith, str_eq, eq_iff, ltb, leb, ◌==◌, if◌then◌else◌, ltb→lt, leb→le, lt→ltb, le→leb,
  Bool-cases, Option-cases, is_none, List-cases, length, length-append, All,
}

pub record PairingCode : Type 0 where
  pub id : ℕ
  pub code_hash : String
  pub created_by : ℕ
  pub created_at : ℕ
  pub expires_at : ℕ
  pub used_at : Option ℕ
  pub consumed_udid : Option String

abbrev pub code_ttl : ℕ
code_ttl = 600

abbrev pub max_open_codes_per_user : ℕ
max_open_codes_per_user = 3

abbrev pub max_create_attempts : ℕ
max_create_attempts = 5

pub data Created : Type 0 where
  code_created : String → ℕ → Created
  too_many_open_codes : Created
  no_unique_code : Created

abbrev pub is_open : ℕ → PairingCode → Bool
is_open now c = is_none c.used_at && ltb now c.expires_at

-- SELECT COUNT(*) … WHERE created_by = ? AND used_at IS NULL AND expires_at > ?
unfoldable pub open_code_count : ℕ → ℕ → List PairingCode → ℕ
open_code_count user now [] = 0
open_code_count user now (c ∷ rest) =
    let n = open_code_count user now rest in
    if c.created_by == user && is_open now c then suc n else n

-- SELECT * FROM pairing_codes WHERE code_hash = ?, a unique column.
unfoldable pub find_hash : String → List PairingCode → Option PairingCode
find_hash hash [] = none
find_hash hash (c ∷ rest) = if str_eq c.code_hash hash then some c else find_hash hash rest

abbrev pub max_id : List PairingCode → ℕ
max_id [] = 0
max_id (c ∷ rest) = let m = max_id rest in if ltb m c.id then c.id else m

abbrev pub new_code : (String → String) → List PairingCode → ℕ → ℕ → String → PairingCode
new_code hash codes user now code = record {
  id = suc (max_id codes);
  code_hash = hash code;
  created_by = user;
  created_at = now;
  expires_at = now + code_ttl;
  used_at = none;
  consumed_udid = none;
}

-- The codes that `_generate_code` gives, one per attempt, at most `max_create_attempts` of them. An
-- INSERT with a hash that is there is an IntegrityError.
unfoldable pub attempts :
    (String → String) → ℕ → ℕ → ℕ → List String → List PairingCode → Created × List PairingCode
attempts hash user now zero generated codes = (no_unique_code, codes)
attempts hash user now (suc left) [] codes = (no_unique_code, codes)
attempts hash user now (suc left) (code ∷ generated) codes =
    let again = attempts hash user now left generated codes in
    if is_none (find_hash (hash code) codes)
    then (code_created code (now + code_ttl), codes ++ new_code hash codes user now code ∷ [])
    else again

unfoldable pub create_code :
    (String → String) → List String → List PairingCode → ℕ → ℕ → Created × List PairingCode
create_code hash generated codes user now =
    if leb max_open_codes_per_user (open_code_count user now codes)
    then (too_many_open_codes, codes)
    else attempts hash user now max_create_attempts generated codes

own : ℕ → Option PairingCode → Option PairingCode
own user none = none
own user (some c) = if c.created_by == user then some c else none

unfoldable pub get_code : (String → String) → List PairingCode → ℕ → String → Option PairingCode
unfolding own
get_code hash codes user code = own user (find_hash (hash code) codes)

still_open : ℕ → Option PairingCode → Option PairingCode
still_open now none = none
still_open now (some c) =
    if not (is_none c.used_at) then none else if leb c.expires_at now then none else some c

unfoldable pub consume : (String → String) → List PairingCode → String → ℕ → Option PairingCode
unfolding still_open
consume hash codes code now = still_open now (find_hash (hash code) codes)

-- UPDATE pairing_codes SET used_at = ?, consumed_udid = ? WHERE id = ?
unfoldable pub mark_consumed : List PairingCode → ℕ → String → ℕ → List PairingCode
mark_consumed [] i udid now = []
mark_consumed (c ∷ rest) i udid now =
    (if c.id == i then record c { used_at = some now; consumed_udid = some udid } else c)
    ∷ mark_consumed rest i udid now

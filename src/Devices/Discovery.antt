-- ===== src/Devices/Discovery.antt =====
-- What src/bioseasy/discovery.py writes of the devices that a scan finds: the table `seen_devices`, and
-- the model, the version and the name of an added device.
pub mod Scans
use bioseasy.Prelude.{
  ℕ, zero, suc, ◌+◌, ◌-◌, ◌*◌, ◌/◌, ◌%◌, ◌^◌, ◌≤◌, ◌<◌, String, ◌≡◌, refl, sym, ap, ◌∙◌, subst, ◌≢◌,
  ◌↔◌, ◌⊎◌, inl, inr, Bool, true, false, not, ◌&&◌, ◌||◌, Option, none, some, List, [], ◌∷◌, ◌++◌,
  map, arith, str_eq, eq_iff, ltb, leb, ◌==◌, if◌then◌else◌, ltb→lt, leb→le, lt→ltb, le→leb,
  Bool-cases, Option-cases, is_none, List-cases, length, length-append, All, if-holds,
}

pub data Transport : Type 0 where
  wifi usb : Transport

pub record DeviceSeen : Type 0 where
  pub udid : String
  pub name : Option String
  pub product_type : Option String
  pub os_version : Option String
  pub transport : Transport
  pub paired : Bool

pub record SeenRow : Type 0 where
  pub seen : DeviceSeen
  pub last_seen_at : ℕ

-- The columns of `devices` that a scan may write.
pub record Added : Type 0 where
  pub udid : String
  pub name : Option String
  pub name_custom : Bool
  pub product_type : Option String
  pub os_version : Option String

pub record ScanTables : Type 0 where
  pub seen : List SeenRow
  pub added : List Added

-- `value or None`
abbrev pub nonempty : Option String → Option String
nonempty none = none
nonempty (some s) = if str_eq s "" then none else some s

-- COALESCE(?, column)
abbrev pub coalesce : Option String → Option String → Option String
coalesce none column = column
coalesce (some v) column = some v

-- INSERT … ON CONFLICT(udid) DO UPDATE
unfoldable pub upsert_seen : DeviceSeen → ℕ → List SeenRow → List SeenRow
upsert_seen d now [] = record { seen = d; last_seen_at = now } ∷ []
upsert_seen d now (r ∷ rest) =
    let others = r ∷ upsert_seen d now rest in
    if str_eq r.seen.udid d.udid then record { seen = d; last_seen_at = now } ∷ rest else others

abbrev pub with_identity : Option String → Option String → Option String → Added → Added
with_identity product_type os_version name a = record a {
  product_type = coalesce (nonempty product_type) a.product_type;
  os_version = coalesce (nonempty os_version) a.os_version;
  name = if a.name_custom then a.name else coalesce (nonempty name) a.name;
}

unfoldable pub fill_device_identity :
    String → Option String → Option String → Option String → List Added → List Added
fill_device_identity udid product_type os_version name [] = []
fill_device_identity udid product_type os_version name (a ∷ rest) =
    (if str_eq a.udid udid then with_identity product_type os_version name a else a)
    ∷ fill_device_identity udid product_type os_version name rest

unfoldable pub refresh_seen_devices : List DeviceSeen → ℕ → ScanTables → ScanTables
refresh_seen_devices [] now t = t
refresh_seen_devices (d ∷ rest) now t = refresh_seen_devices rest now (record {
  seen = upsert_seen d now t.seen;
  added = fill_device_identity d.udid d.product_type d.os_version d.name t.added;
})

unfoldable pub added_of : String → List Added → Option Added
added_of udid [] = none
added_of udid (a ∷ rest) = if str_eq a.udid udid then some a else added_of udid rest

unfoldable pub seen_of : String → List SeenRow → Option SeenRow
seen_of udid [] = none
seen_of udid (r ∷ rest) = if str_eq r.seen.udid udid then some r else seen_of udid rest

-- ===== src/Devices/Discovery/Scans.antt =====
-- What the scans of src/bioseasy/discovery.py keep of the devices.
use bioseasy.Prelude.{
  ℕ, String, ◌≡◌, refl, ◌∙◌, subst, ◌≢◌, ◌⊎◌, inl, inr, true, false, Option, none, some, List, [],
  ◌∷◌, arith, str_eq, eq_iff, Bool-cases, is_none, All, if-holds,
}
use bioseasy.Devices.Discovery.{
  DeviceSeen, SeenRow, Added, ScanTables, nonempty, coalesce, upsert_seen, with_identity,
  fill_device_identity, refresh_seen_devices, added_of, seen_of,
}

-- A column that has a value keeps one, and a text that is not empty does not become empty.
abbrev pub StaysKnown : Option String → Option String → Type 0
StaysKnown old new =
    (is_none old ≡ false → is_none new ≡ false)
    × (is_none (nonempty old) ≡ false → is_none (nonempty new) ≡ false)

-- A device's row later: the owner's name for it stays, and what is known stays known.
pub record Keeps (a later : Added) : Type 0 where
  pub same_custom : later.name_custom ≡ a.name_custom
  pub custom_name : a.name_custom ≡ true → later.name ≡ a.name
  pub known_type : StaysKnown a.product_type later.product_type
  pub known_version : StaysKnown a.os_version later.os_version
  pub known_name : StaysKnown a.name later.name

StaysKnown-refl : (o : Option String) → StaysKnown o o
StaysKnown-refl o = (λ h. h, λ h. h)

StaysKnown-trans : (a b c : Option String) → StaysKnown a b → StaysKnown b c → StaysKnown a c
StaysKnown-trans a b c (some_b, text_b) (some_c, text_c) =
    (λ h. some_c (some_b h), λ h. text_c (text_b h))

Keeps-refl : (a : Added) → Keeps a a
Keeps-refl a = record {
  same_custom = refl;
  custom_name = λ h. refl;
  known_type = StaysKnown-refl a.product_type;
  known_version = StaysKnown-refl a.os_version;
  known_name = StaysKnown-refl a.name;
}

Keeps-trans : (a b c : Added) → Keeps a b → Keeps b c → Keeps a c
Keeps-trans a b c p q = record {
  same_custom = q.same_custom ∙ p.same_custom;
  custom_name = λ h. q.custom_name (p.same_custom ∙ h) ∙ p.custom_name h;
  known_type =
      StaysKnown-trans a.product_type b.product_type c.product_type p.known_type q.known_type;
  known_version =
      StaysKnown-trans a.os_version b.os_version c.os_version p.known_version q.known_version;
  known_name = StaysKnown-trans a.name b.name c.name p.known_name q.known_name;
}

coalesce-StaysKnown : (new old : Option String) → StaysKnown old (coalesce (nonempty new) old)
coalesce-StaysKnown none old = StaysKnown-refl old
coalesce-StaysKnown (some v) old = elim (Bool-cases (str_eq v "")) [
  | inl is_empty ↦ rw is_empty (StaysKnown-refl old)
  | inr filled ↦ (λ h. ground (arith, filled), λ h. ground (arith, filled))
]

with_identity-Keeps :
    (product_type os_version name : Option String) (a : Added)
    → Keeps a (with_identity product_type os_version name a)
with_identity-Keeps product_type os_version name a = record {
  same_custom = refl;
  custom_name = λ h. ground (arith, h);
  known_type = coalesce-StaysKnown product_type a.product_type;
  known_version = coalesce-StaysKnown os_version a.os_version;
  known_name =
      if-holds {x = a.name} {y = coalesce (nonempty name) a.name} (StaysKnown a.name) a.name_custom
        (StaysKnown-refl a.name) (coalesce-StaysKnown name a.name);
}

fill-Keeps :
    (udid k : String) (product_type os_version name : Option String) (l : List Added) (a : Added)
    → added_of udid l ≡ some a
    → (later : Added) × (added_of udid (fill_device_identity k product_type os_version name l)
        ≡ some later)
      × Keeps a later
unfolding added_of fill_device_identity
fill-Keeps udid k product_type os_version name [] a e = absurd (ground arith)
fill-Keeps udid k product_type os_version name (x ∷ rest) a e =
    let w = with_identity product_type os_version name x in
    elim (Bool-cases (str_eq x.udid udid)) [
      | inl here ↦
          let first : x ≡ a = ground (arith, here, e) in
          elim (Bool-cases (str_eq x.udid k)) [
            | inl hit ↦ (
              w,
              ground (arith, here, hit),
              subst (λ (y : Added). Keeps y w) first
                  (with_identity-Keeps product_type os_version name x),
            )
            | inr miss ↦ (
              x,
              ground (arith, here, miss),
              subst (λ (y : Added). Keeps y x) first (Keeps-refl x),
            )
          ]
      | inr apart ↦
          let (later, found, keeps) =
            fill-Keeps udid k product_type os_version name rest a (ground (arith, apart, e)) in
          (later, ground (arith, apart, found), keeps)
    ]

upsert-seen :
    (d : DeviceSeen) (now : ℕ) (l : List SeenRow)
    → seen_of d.udid (upsert_seen d now l) ≡ some (record { seen = d; last_seen_at = now })
unfolding seen_of upsert_seen
upsert-seen d now [] = ground (arith, eq_iff d.udid d.udid)
upsert-seen d now (r ∷ rest) = ground (arith, eq_iff d.udid d.udid, upsert-seen d now rest)

upsert-seen_other :
    (d : DeviceSeen) (udid : String) (now : ℕ) (l : List SeenRow)
    → d.udid ≢ udid
    → seen_of udid (upsert_seen d now l) ≡ seen_of udid l
unfolding seen_of upsert_seen
upsert-seen_other d udid now [] differ = ground (arith, eq_iff d.udid udid)
upsert-seen_other d udid now (r ∷ rest) differ = ground (
  arith,
  eq_iff d.udid udid,
  eq_iff r.seen.udid udid,
  eq_iff r.seen.udid d.udid,
  upsert-seen_other d udid now rest differ,
)

-- The device is found, and no device found after it has its udid.
abbrev pub IsLast : DeviceSeen → List DeviceSeen → Type 0
IsLast d [] = ⊥
IsLast d (x ∷ rest) = ((x ≡ d) × All (λ (y : DeviceSeen). y.udid ≢ d.udid) rest) ⊎ IsLast d rest

-- A scan that finds any devices, in any order and with any values, leaves the row of an added device
-- in place, with the name that its owner gave it, and with a name, a model and a version where it
-- had them, which are not empty where they were not. The list of seen devices then has what the scan found last of a device, at the scan's
-- time, and what it had before of a device that the scan did not find.
pub refresh_seen_devices-Keeps :
    (found : List DeviceSeen) (now : ℕ) (t : ScanTables)
    → ((udid : String) (a : Added)
        → added_of udid t.added ≡ some a
        → (later : Added) × (added_of udid (refresh_seen_devices found now t).added ≡ some later)
          × Keeps a later)
      × ((udid : String)
          → All (λ (d : DeviceSeen). d.udid ≢ udid) found
          → seen_of udid (refresh_seen_devices found now t).seen ≡ seen_of udid t.seen)
      × ((d : DeviceSeen)
          → IsLast d found
          → seen_of d.udid (refresh_seen_devices found now t).seen
            ≡ some (record { seen = d; last_seen_at = now }))
unfolding refresh_seen_devices
refresh_seen_devices-Keeps [] now t =
    (λ udid a e. (a, e, Keeps-refl a), λ udid h. refl, λ d h. absurd h)
refresh_seen_devices-Keeps (d ∷ rest) now t =
    let next : ScanTables = record {
      seen = upsert_seen d now t.seen;
      added = fill_device_identity d.udid d.product_type d.os_version d.name t.added;
    } in
    let (adds, sees, lasts) = refresh_seen_devices-Keeps rest now next in
    (
      λ udid a e.
          let (mid, at, first) =
            fill-Keeps udid d.udid d.product_type d.os_version d.name t.added a e in
          let (later, found, more) = adds udid mid at in
          (later, found, Keeps-trans a mid later first more),
      λ udid (differ, others). sees udid others ∙ upsert-seen_other d udid now t.seen differ,
      λ x h. elim h [
        | inl (same, others) ↦
            sees x.udid others
            ∙ subst
                (λ (y : DeviceSeen).
                  seen_of y.udid (upsert_seen d now t.seen)
                  ≡ some (record { seen = y; last_seen_at = now }))
                same (upsert-seen d now t.seen)
        | inr later ↦ lasts x later
      ],
    )

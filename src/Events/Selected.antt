-- ===== src/Events/Selected.antt =====
-- Which rows the queries of src/bioseasy/events.py select.
use bioseasy.Prelude.{
  ℕ, String, ◌≡◌, refl, sym, ap, ◌∙◌, ◌↔◌, ◌⊎◌, inl, inr, Bool, true, false, Option, none, some,
  List, [], ◌∷◌, ◌++◌, arith, if◌then◌else◌, Bool-cases,
}
use bioseasy.Jobs.Store.{Run}
use bioseasy.Backups.Verify.{Verification}
use bioseasy.Events.{
  Device, Tables, EventKind, Event, run_event, check_event, device_of, is_running, is_owned,
  with_device, run_row, verification_row, prepended, selected, matches, narrowed, query,
}

-- The element stands in the list.
abbrev pub IsIn : {A : Type 0} → A → List A → Type 0
IsIn a [] = ⊥
IsIn a (x ∷ rest) = (a ≡ x) ⊎ IsIn a rest

-- The event of a finished run, or of a verification, of a device in the scope.
abbrev pub IsEvent : Option ℕ → Tables → Event → Type 0
IsEvent owner t e =
    ((r : Run) × (d : Device) × IsIn r t.runs
      × (is_running r.status ≡ false)
      × (device_of r.udid t.devices ≡ some d)
      × (is_owned owner d.owner_id ≡ true)
      × (e ≡ run_event r d))
    ⊎ ((v : Verification) × (d : Device) × IsIn v t.verifications
        × (device_of v.udid t.devices ≡ some d)
        × (is_owned owner d.owner_id ≡ true)
        × (e ≡ check_event v d))

prepended-IsIn_iff :
    (o : Option Event) (rest : List Event) (e : Event)
    → IsIn e (prepended o rest) ↔ ((o ≡ some e) ⊎ IsIn e rest)
prepended-IsIn_iff none rest e = (λ h. inr h, λ h. elim h [ inl at ↦ cc | inr i ↦ i ])
prepended-IsIn_iff (some y) rest e = (
  λ h. elim h [ inl at ↦ inl (ap some (sym at)) | inr i ↦ inr i ],
  λ h. elim h [ inl at ↦ inl cc | inr i ↦ inr i ],
)

selected-IsIn_iff :
    {A : Type 0} (row : A → Option Event) (l : List A) (e : Event)
    → IsIn e (selected row l) ↔ ((a : A) × IsIn a l × (row a ≡ some e))
unfolding selected
selected-IsIn_iff row [] e = (λ h. absurd h, λ (a, h, at). absurd h)
selected-IsIn_iff row (x ∷ rest) e =
    let (to, from) = prepended-IsIn_iff (row x) (selected row rest) e in
    let (later, sooner) = selected-IsIn_iff row rest e in
    (
      λ h. elim (to h) [
        | inl at ↦ (x, inl refl, at)
        | inr i ↦ let (a, j, at) = later i in (a, inr j, at)
      ],
      λ (a, h, at).
          from
            (elim h [ inl same ↦ inl (ap row (sym same) ∙ at) | inr i ↦ inr (sooner (a, i, at)) ]),
    )

with_device-some_iff :
    (owner : Option ℕ) (o : Option Device) (make : Device → Event) (e : Event)
    → (with_device owner o make ≡ some e)
      ↔ ((d : Device) × (o ≡ some d) × (is_owned owner d.owner_id ≡ true) × (e ≡ make d))
unfolding with_device
with_device-some_iff owner none make e = (λ h. cc, λ (d, at, owned, same). cc)
with_device-some_iff owner (some d') make e = (
  λ h. elim (Bool-cases (is_owned owner d'.owner_id)) [
    | inl owned ↦ (d', refl, owned, ground (arith, h, owned))
    | inr other ↦ absurd (ground (arith, h, other))
  ],
  λ (d, at, owned, same). ground (arith, at, owned, same),
)

run_row-some_iff :
    (owner : Option ℕ) (devices : List Device) (r : Run) (e : Event)
    → (run_row owner devices r ≡ some e) ↔ (
        (d : Device) × (is_running r.status ≡ false)
        × (device_of r.udid devices ≡ some d)
        × (is_owned owner d.owner_id ≡ true)
        × (e ≡ run_event r d))
unfolding run_row
run_row-some_iff owner devices r e =
    let (to, from) = with_device-some_iff owner (device_of r.udid devices) (run_event r) e in
    elim (Bool-cases (is_running r.status)) [
      | inl on ↦ (
        λ h. absurd (ground (arith, h, on)),
        λ (d, off, at, owned, same). absurd (ground (arith, on, off)),
      )
      | inr off ↦ (
        λ h. let (d, at, owned, same) = to (ground (arith, h, off)) in (d, off, at, owned, same),
        λ (d, off', at, owned, same). ground (arith, off, from (d, at, owned, same)),
      )
    ]

if-IsIn_iff :
    (b : Bool) (x : Event) (l : List Event) (e : Event)
    → IsIn e (if b then x ∷ l else l) ↔ (((b ≡ true) × (e ≡ x)) ⊎ IsIn e l)
if-IsIn_iff true x l e = (
  λ h. elim h [ inl at ↦ inl (refl, at) | inr i ↦ inr i ],
  λ h. elim h [ inl (on, at) ↦ inl at | inr i ↦ inr i ],
)
if-IsIn_iff false x l e = (λ h. inr h, λ h. elim h [ inl (on, at) ↦ cc | inr i ↦ i ])

narrowed-IsIn_iff :
    (kind : Option EventKind) (udid : String) (l : List Event) (e : Event)
    → IsIn e (narrowed kind udid l) ↔ (IsIn e l × (matches kind udid e ≡ true))
unfolding narrowed
narrowed-IsIn_iff kind udid [] e = (λ h. absurd h, λ (h, at). h)
narrowed-IsIn_iff kind udid (x ∷ rest) e =
    let (to, from) = if-IsIn_iff (matches kind udid x) x (narrowed kind udid rest) e in
    let (later, sooner) = narrowed-IsIn_iff kind udid rest e in
    (
      λ h. elim (to h) [
        | inl (fits, at) ↦ (inl at, ap (matches kind udid) at ∙ fits)
        | inr i ↦ let (j, fits) = later i in (inr j, fits)
      ],
      λ (h, fits). from (elim h [
        | inl at ↦ inl (ap (matches kind udid) (sym at) ∙ fits, at)
        | inr i ↦ inr (sooner (i, fits))
      ]),
    )

append-IsIn_iff : (a b : List Event) (e : Event) → IsIn e (a ++ b) ↔ (IsIn e a ⊎ IsIn e b)
append-IsIn_iff [] b e = (λ h. inr h, λ h. elim h [ inl i ↦ absurd i | inr i ↦ i ])
append-IsIn_iff (x ∷ a) b e =
    let (to, from) = append-IsIn_iff a b e in
    (
      λ h. elim h [
        | inl at ↦ inl (inl at)
        | inr i ↦ elim (to i) [ inl j ↦ inl (inr j) | inr j ↦ inr j ]
      ],
      λ h. elim h [
        | inl (inl at) ↦ inl at
        | inl (inr j) ↦ inr (from (inl j))
        | inr j ↦ inr (from (inr j))
      ],
    )

pub query-IsIn_iff :
    (owner : Option ℕ) (kind : Option EventKind) (udid : String) (t : Tables) (e : Event)
    → IsIn e (query owner kind udid t) ↔ (IsEvent owner t e × (matches kind udid e ≡ true))
unfolding query verification_row
query-IsIn_iff owner kind udid t e =
    let runs = selected (run_row owner t.devices) t.runs in
    let checks = selected (verification_row owner t.devices) t.verifications in
    let (to, from) = narrowed-IsIn_iff kind udid (runs ++ checks) e in
    let (split, joined) = append-IsIn_iff runs checks e in
    (
      λ h.
          let (i, fits) = to h in
          (
            elim (split i) [
              | inl j ↦
                  let (r, at, made) = (selected-IsIn_iff (run_row owner t.devices) t.runs e).0 j in
                  let (d, off, found, owned, same) =
                    (run_row-some_iff owner t.devices r e).0 made in
                  inl (r, d, at, off, found, owned, same)
              | inr j ↦
                  let (v, at, made) =
                    (selected-IsIn_iff (verification_row owner t.devices) t.verifications e).0 j in
                  let (d, found, owned, same) =
                    (with_device-some_iff owner (device_of v.udid t.devices) (check_event v) e).0
                      made in
                  inr (v, d, at, found, owned, same)
            ],
            fits,
          ),
      λ (h, fits). from (
        joined (elim h [
          | inl (r, d, at, off, found, owned, same) ↦ inl (
              (selected-IsIn_iff (run_row owner t.devices) t.runs e).1
                (r, at, (run_row-some_iff owner t.devices r e).1 (d, off, found, owned, same)))
          | inr (v, d, at, found, owned, same) ↦ inr (
              (selected-IsIn_iff (verification_row owner t.devices) t.verifications e).1 (
                v,
                at,
                (with_device-some_iff owner (device_of v.udid t.devices) (check_event v) e).1
                    (d, found, owned, same),
              ))
        ]),
        fits,
      ),
    )

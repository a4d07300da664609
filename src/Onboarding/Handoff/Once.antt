-- ===== src/Onboarding/Handoff/Once.antt =====
-- A pairing code of src/bioseasy/handoff.py works once, and for ten minutes.
use bioseasy.Prelude.{
  ℕ, zero, suc, ◌+◌, String, ◌≡◌, refl, sym, ap, ◌∙◌, subst, ◌⊎◌, inl, inr, Bool, true, false, none,
  some, List, [], ◌∷◌, ◌++◌, arith, eq_iff, leb, ◌==◌, if◌then◌else◌, is_none,
}
use bioseasy.Onboarding.Handoff.{
  PairingCode, code_ttl, max_open_codes_per_user, max_create_attempts, Created, code_created,
  too_many_open_codes, open_code_count, find_hash, new_code, attempts, create_code, still_open,
  consume, mark_consumed,
}
use bioseasy.Onboarding.Handoff.Codes.{Reach, here, next, code_made, code_consumed, attempts-added}

-- The row of this hash is there, and used.
abbrev pub IsUsed : String → List PairingCode → Type 0
IsUsed hash codes =
    (c : PairingCode) × (find_hash hash codes ≡ some c) × (is_none c.used_at ≡ false)

find_hash-append :
    (hash : String) (codes : List PairingCode) (c d : PairingCode)
    → find_hash hash codes ≡ some c
    → find_hash hash (codes ++ d ∷ []) ≡ some c
unfolding find_hash
find_hash-append hash [] c d e = ground arith
find_hash-append hash (x ∷ rest) c d e = ground (arith, find_hash-append hash rest c d)

find_hash-mark :
    (hash : String) (codes : List PairingCode) (i : ℕ) (udid : String) (t : ℕ)
    → find_hash hash (mark_consumed codes i udid t) ≡ elim (find_hash hash codes) [
      | none ↦ none
      | some c ↦
          some (if c.id == i then record c { used_at = some t; consumed_udid = some udid } else c)
    ]
unfolding find_hash mark_consumed
find_hash-mark hash [] i udid t = refl
find_hash-mark hash (x ∷ rest) i udid t = ground (arith, find_hash-mark hash rest i udid t)

mark-IsUsed :
    (hash : String) (codes : List PairingCode) (i : ℕ) (udid : String) (t : ℕ)
    → IsUsed hash codes
    → IsUsed hash (mark_consumed codes i udid t)
mark-IsUsed hash codes i udid t (c, e, used) = (
  if c.id == i then record c { used_at = some t; consumed_udid = some udid } else c,
  ground (arith, find_hash-mark hash codes i udid t, e),
  ground (arith, used),
)

grown-IsUsed :
    (key : String) (codes later : List PairingCode)
    → (later ≡ codes) ⊎ ((c : PairingCode) × (later ≡ codes ++ c ∷ []))
    → IsUsed key codes
    → IsUsed key later
grown-IsUsed key codes later (inl same) used = subst (IsUsed key) (sym same) used
grown-IsUsed key codes later (inr (d, at)) (c, e, used) =
    (c, ap (find_hash key) at ∙ find_hash-append key codes c d e, used)

create_code-grown :
    (hash : String → String) (generated : List String) (codes : List PairingCode) (user now : ℕ)
    → let later = (create_code hash generated codes user now).1 in
      (later ≡ codes) ⊎ ((c : PairingCode) × (later ≡ codes ++ c ∷ []))
unfolding create_code
create_code-grown hash generated codes user now =
    grown too_many_open_codes (attempts hash user now max_create_attempts generated codes)
      (leb max_open_codes_per_user (open_code_count user now codes))
      (attempts-added hash user now max_create_attempts generated codes)
  where
    grown :
        (x : Created) (a : Created × List PairingCode) (b : Bool)
        → (a.1 ≡ codes) ⊎ ((c : PairingCode) × (c.created_by ≡ user) × (a.1 ≡ codes ++ c ∷ []))
        → let later = (if b then (x, codes) else a).1 in
          (later ≡ codes) ⊎ ((c : PairingCode) × (later ≡ codes ++ c ∷ []))
    grown x a true _ = inl refl
    grown x a false (inl same) = inl same
    grown x a false (inr (c, by, at)) = inr (c, at)

Reach-IsUsed :
    {hash : String → String} {s e : ℕ × List PairingCode} (key : String)
    → Reach hash s e
    → IsUsed key s.1
    → IsUsed key e.1
Reach-IsUsed key here used = used
Reach-IsUsed {hash} key (next before (code_made t now codes generated user later)) used =
    grown-IsUsed key codes _ (create_code-grown hash generated codes user now)
      (Reach-IsUsed key before used)
Reach-IsUsed key (next before (code_consumed t now codes i udid later)) used =
    mark-IsUsed key codes i udid now (Reach-IsUsed key before used)

used-refused :
    (hash : String → String) (codes : List PairingCode) (code : String) (now : ℕ)
    → IsUsed (hash code) codes
    → consume hash codes code now ≡ none
unfolding consume still_open
used-refused hash codes code now (c, e, used) = ap (still_open now) e ∙ ground (arith, used)

consumed-found :
    (hash : String → String) (codes : List PairingCode) (code : String) (now : ℕ) (c : PairingCode)
    → consume hash codes code now ≡ some c
    → find_hash (hash code) codes ≡ some c
unfolding consume still_open
consumed-found hash codes code now c e = ground arith

-- A code that was accepted once and then marked as consumed is refused at every later time, whatever
-- codes are made and consumed in between.
pub consume-once :
    {hash : String → String} (codes : List PairingCode) (code : String) (t : ℕ) (c : PairingCode)
    (udid : String) (e : ℕ × List PairingCode) (now : ℕ)
    → consume hash codes code t ≡ some c
    → Reach hash (t, mark_consumed codes c.id udid t) e
    → consume hash e.1 code now ≡ none
consume-once {hash} codes code t c udid e now accepted steps = used-refused hash e.1 code now (
    Reach-IsUsed (hash code) steps (
      record c { used_at = some t; consumed_udid = some udid },
      ground (
        arith,
        find_hash-mark (hash code) codes c.id udid t,
        consumed-found hash codes code t c accepted,
      ),
      refl,
    ))

find_hash-last :
    (hash : String) (codes : List PairingCode) (c : PairingCode)
    → is_none (find_hash hash codes) ≡ true
    → c.code_hash ≡ hash
    → find_hash hash (codes ++ c ∷ []) ≡ some c
unfolding find_hash
find_hash-last hash [] c free e = ground (arith, eq_iff c.code_hash hash)
find_hash-last hash (x ∷ rest) c free e = ground (arith, find_hash-last hash rest c)

-- The code is the one of this row, which is open and was not there.
abbrev pub IsFresh : (String → String) → ℕ → String → ℕ → List PairingCode → Type 0
IsFresh hash now code expires later =
    (c : PairingCode) × (find_hash (hash code) later ≡ some c)
    × (c.used_at ≡ none)
    × (c.expires_at ≡ expires)
    × (expires ≡ now + 600)

made-IsFresh :
    (hash : String → String) (user now : ℕ) (g : String) (codes : List PairingCode) (code : String)
    (expires : ℕ) (later : List PairingCode) (again : Created × List PairingCode) (b : Bool)
    → is_none (find_hash (hash g) codes) ≡ b
    → (again ≡ (code_created code expires, later) → IsFresh hash now code expires later)
    → (if b
        then (code_created g (now + code_ttl), codes ++ new_code hash codes user now g ∷ [])
        else again)
      ≡ (code_created code expires, later)
    → IsFresh hash now code expires later
made-IsFresh hash user now g codes code expires later again false _ ih same = ih same
made-IsFresh hash user now g codes code expires later again true free ih same = (
  new_code hash codes user now g,
  ground (arith, find_hash-last (hash g) codes (new_code hash codes user now g) free refl, same),
  refl,
  ground (arith, same),
  ground (arith, same),
)

attempts-IsFresh :
    (hash : String → String) (user now left : ℕ) (generated : List String)
    (codes : List PairingCode) (code : String) (expires : ℕ) (later : List PairingCode)
    → attempts hash user now left generated codes ≡ (code_created code expires, later)
    → IsFresh hash now code expires later
unfolding attempts
attempts-IsFresh hash user now zero generated codes code expires later e = ground arith
attempts-IsFresh hash user now (suc left) [] codes code expires later e = ground arith
attempts-IsFresh hash user now (suc left) (g ∷ generated) codes code expires later e =
    made-IsFresh hash user now g codes code expires later
      (attempts hash user now left generated codes) (is_none (find_hash (hash g) codes)) refl
      (attempts-IsFresh hash user now left generated codes code expires later) e

-- A code that was just created is accepted exactly until 600 seconds after its creation.
pub consume-create_code :
    (hash : String → String) (generated : List String) (codes : List PairingCode) (user now : ℕ)
    (code : String) (expires : ℕ) (later : List PairingCode) (t : ℕ)
    → create_code hash generated codes user now ≡ (code_created code expires, later)
    → is_none (consume hash later code t) ≡ leb (now + 600) t
unfolding create_code consume still_open
consume-create_code hash generated codes user now code expires later t e =
    let (c, found, unused, at, span) : IsFresh hash now code expires later =
      attempts-IsFresh hash user now max_create_attempts generated codes code expires later
        (ground (arith, e)) in
    ap (λ o. is_none (still_open t o)) found ∙ ground (arith, unused, at, span)

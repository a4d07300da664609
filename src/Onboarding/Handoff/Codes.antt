-- ===== src/Onboarding/Handoff/Codes.antt =====
-- What the pairing codes of src/bioseasy/handoff.py promise.
use bioseasy.Prelude.{
  ℕ, zero, suc, ◌+◌, ◌≤◌, String, ◌≡◌, refl, sym, subst, ◌≢◌, ◌⊎◌, inl, inr, Bool, true, false,
  List, [], ◌∷◌, ◌++◌, arith, leb, if◌then◌else◌, is_none,
}
use bioseasy.Onboarding.Handoff.{
  PairingCode, code_ttl, max_open_codes_per_user, max_create_attempts, Created, code_created,
  too_many_open_codes, open_code_count, find_hash, new_code, attempts, create_code, own,
  mark_consumed,
}

-- The operations on the table, each at a clock that does not go back.
pub data Step (hash : String → String) : ℕ × List PairingCode → ℕ × List PairingCode → Type 0 where
  code_made :
      (t now : ℕ) (codes : List PairingCode) (generated : List String) (user : ℕ)
      → t ≤ now
      → Step hash (t, codes) (now, (create_code hash generated codes user now).1)
  code_consumed :
      (t now : ℕ) (codes : List PairingCode) (i : ℕ) (udid : String)
      → t ≤ now
      → Step hash (t, codes) (now, mark_consumed codes i udid now)

pub data Reach (hash : String → String) (s : ℕ × List PairingCode)
    : ℕ × List PairingCode → Type 0 where
  here : Reach hash s s
  next : {m e : ℕ × List PairingCode} → Reach hash s m → Step hash m e → Reach hash s e

open_code_count-append :
    (user now : ℕ) (codes : List PairingCode) (c : PairingCode)
    → open_code_count user now (codes ++ c ∷ []) ≤ suc (open_code_count user now codes)
unfolding open_code_count
open_code_count-append user now [] c = ground arith
open_code_count-append user now (d ∷ rest) c =
    ground (arith, open_code_count-append user now rest c)

open_code_count-later :
    (user t now : ℕ) (codes : List PairingCode)
    → t ≤ now
    → open_code_count user now codes ≤ open_code_count user t codes
unfolding open_code_count
open_code_count-later user t now [] later = ground arith
open_code_count-later user t now (c ∷ rest) later =
    ground (arith, open_code_count-later user t now rest)

open_code_count-mark :
    (user now : ℕ) (codes : List PairingCode) (i : ℕ) (udid : String) (t : ℕ)
    → open_code_count user now (mark_consumed codes i udid t) ≤ open_code_count user now codes
unfolding open_code_count mark_consumed
open_code_count-mark user now [] i udid t = ground arith
open_code_count-mark user now (c ∷ rest) i udid t =
    ground (arith, open_code_count-mark user now rest i udid t)

-- At the last clock, no user has more than three open codes.
abbrev pub FewOpen : ℕ × List PairingCode → Type 0
FewOpen (now, codes) = (user : ℕ) → open_code_count user now codes ≤ max_open_codes_per_user

open_code_count-other :
    (user now : ℕ) (codes : List PairingCode) (c : PairingCode)
    → c.created_by ≢ user
    → open_code_count user now (codes ++ c ∷ []) ≡ open_code_count user now codes
unfolding open_code_count
open_code_count-other user now [] c other = ground arith
open_code_count-other user now (d ∷ rest) c other =
    ground (arith, open_code_count-other user now rest c other)

pub attempts-added :
    (hash : String → String) (user now left : ℕ) (generated : List String)
    (codes : List PairingCode)
    → ((attempts hash user now left generated codes).1 ≡ codes)
      ⊎ ((c : PairingCode) × (c.created_by ≡ user)
          × ((attempts hash user now left generated codes).1 ≡ codes ++ c ∷ []))
unfolding attempts
attempts-added hash user now zero generated codes = inl refl
attempts-added hash user now (suc left) [] codes = inl refl
attempts-added hash user now (suc left) (code ∷ generated) codes =
    if-added hash user now codes code (attempts hash user now left generated codes)
      (is_none (find_hash (hash code) codes)) (attempts-added hash user now left generated codes)
  where
    if-added :
        (hash : String → String) (user now : ℕ) (codes : List PairingCode) (code : String)
        (again : Created × List PairingCode) (b : Bool)
        → ((again.1 ≡ codes)
            ⊎ ((c : PairingCode) × (c.created_by ≡ user) × (again.1 ≡ codes ++ c ∷ [])))
        → let result =
            (if b
              then (
                code_created code (now + code_ttl),
                codes ++ new_code hash codes user now code ∷ [],
              )
              else again) in
          (result.1 ≡ codes)
          ⊎ ((c : PairingCode) × (c.created_by ≡ user) × (result.1 ≡ codes ++ c ∷ []))
    if-added hash user now codes code again true ih =
        inr (new_code hash codes user now code, refl, refl)
    if-added hash user now codes code again false ih = ih

create_code-FewOpen :
    (hash : String → String) (generated : List String) (codes : List PairingCode)
    (user t now other : ℕ)
    → t ≤ now
    → FewOpen (t, codes)
    → open_code_count other now (create_code hash generated codes user now).1 ≤ 3
unfolding create_code
create_code-FewOpen hash generated codes user t now other later few =
    let before : open_code_count other now codes ≤ 3 =
      ground (arith, open_code_count-later other t now codes later, few other) in
    added (leb 3 (open_code_count user now codes)) refl before
      (attempts-added hash user now max_create_attempts generated codes)
  where
    added :
        (b : Bool)
        → leb 3 (open_code_count user now codes) ≡ b
        → open_code_count other now codes ≤ 3
        → (((attempts hash user now max_create_attempts generated codes).1 ≡ codes)
            ⊎ ((c : PairingCode) × (c.created_by ≡ user)
                × ((attempts hash user now max_create_attempts generated codes).1
                    ≡ codes ++ c ∷ [])))
        → open_code_count other now
            (if b
              then (too_many_open_codes, codes)
              else attempts hash user now max_create_attempts generated codes).1
          ≤ 3
    added true e before _ = before
    added false e before (inl same) =
        subst (λ cs. open_code_count other now cs ≤ 3) (sym same) before
    added false e before (inr (c, by, at)) =
        subst (λ cs. open_code_count other now cs ≤ 3) (sym at)
          (ground (
            arith,
            open_code_count-append other now codes c,
            open_code_count-other other now codes c,
            e,
            before,
            own,
          ))

Step-FewOpen :
    {hash : String → String} {s e : ℕ × List PairingCode} → Step hash s e → FewOpen s → FewOpen e
Step-FewOpen {hash} (code_made t now codes generated user later) few other =
    create_code-FewOpen hash generated codes user t now other later few
Step-FewOpen (code_consumed t now codes i udid later) few other = ground (
  arith,
  open_code_count-mark other now codes i udid now,
  open_code_count-later other t now codes later,
  few other,
)

-- If no user has more than three open codes, then none has after any number of codes made and
-- consumed, at clocks that do not go back.
pub Reach-FewOpen :
    {hash : String → String} {s e : ℕ × List PairingCode} → FewOpen s → Reach hash s e → FewOpen e
Reach-FewOpen few here = few
Reach-FewOpen few (next before step) = Step-FewOpen step (Reach-FewOpen few before)

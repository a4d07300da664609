-- ===== src/Retention/Plan.antt =====
-- `plan_retention` and `apply_retention` of src/bioseasy/snapshots.py.
use bioseasy.Prelude.{
  ℕ, zero, suc, String, ◌≡◌, refl, Bool, true, false, ◌&&◌, ◌||◌, List, [], ◌∷◌, ◌++◌, arith, ◌==◌,
  if◌then◌else◌,
}
use bioseasy.Retention.Policy.{RetentionPolicy}

pub record Snapshot : Type 0 where
  pub name : String
  pub taken_at : ℕ
  pub pinned : Bool

pub data Period : Type 0 where
  daily weekly monthly yearly : Period

pub data Reason : Type 0 where
  pinned latest newest : Reason
  per : Period → Reason

-- `taken_at.astimezone(tz)` with its date and its ISO week.
pub record Calendar : Type 0 where
  pub year : ℕ → ℕ
  pub month : ℕ → ℕ
  pub day : ℕ → ℕ
  pub iso_year : ℕ → ℕ
  pub iso_week : ℕ → ℕ

-- The tuples of one period have one length.
unfoldable pub bucket_key : Calendar → Period → ℕ → List ℕ
bucket_key c daily t = c.year t ∷ c.month t ∷ c.day t ∷ []
bucket_key c weekly t = c.iso_year t ∷ c.iso_week t ∷ []
bucket_key c monthly t = c.year t ∷ c.month t ∷ []
bucket_key c yearly t = c.year t ∷ []

same_key : List ℕ → List ℕ → Bool
same_key [] [] = true
same_key (a ∷ xs) (b ∷ ys) = a == b && same_key xs ys
same_key _ _ = false

-- `key in seen`.
unfoldable pub key_in : List ℕ → List (List ℕ) → Bool
unfolding same_key
key_in key [] = false
key_in key (k ∷ seen) = same_key key k || key_in key seen

-- The reasons of each snapshot so far, beside it.
abbrev pub Entry : Type 0
Entry = Snapshot × List Reason

unfoldable pub add_pinned : List Entry → List Entry
add_pinned [] = []
add_pinned ((s, rs) ∷ rest) = (s, if s.pinned then rs ++ pinned ∷ [] else rs) ∷ add_pinned rest

-- The first `n` entries, or all of them.
unfoldable pub add_latest : ℕ → List Entry → List Entry
add_latest n [] = []
add_latest zero (e ∷ rest) = e ∷ rest
add_latest (suc n) ((s, rs) ∷ rest) = (s, rs ++ latest ∷ []) ∷ add_latest n rest

-- The loop over one period: `left` is `count - kept`, and at 0 it breaks.
unfoldable pub add_period : Calendar → Period → ℕ → List (List ℕ) → List Entry → List Entry
add_period c p left seen [] = []
add_period c p zero seen (e ∷ rest) = e ∷ rest
add_period c p (suc left) seen ((s, rs) ∷ rest) = elim (key_in (bucket_key c p s.taken_at) seen) [
  | true ↦ (s, rs) ∷ add_period c p (suc left) seen rest
  | false ↦ (s, rs ++ per p ∷ []) ∷ add_period c p left (bucket_key c p s.taken_at ∷ seen) rest
]

unfoldable pub add_newest : List Entry → List Entry
add_newest ((s, []) ∷ rest) = (s, newest ∷ []) ∷ rest
add_newest entries = entries

abbrev pub unmarked : List Snapshot → List Entry
unmarked [] = []
unmarked (s ∷ rest) = (s, []) ∷ unmarked rest

unfoldable pub plan_retention : Calendar → RetentionPolicy → List Snapshot → List Entry
plan_retention c policy snaps = add_newest (
    add_period c yearly policy.keep_yearly [] (
      add_period c monthly policy.keep_monthly [] (
        add_period c weekly policy.keep_weekly [] (
          add_period c daily policy.keep_daily []
            (add_latest policy.keep_last (add_pinned (unmarked snaps)))))))

-- What `apply_retention` leaves on disk, and the names that it removes.
abbrev pub kept : List Entry → List Snapshot
kept [] = []
kept ((s, []) ∷ rest) = kept rest
kept ((s, r ∷ rs) ∷ rest) = s ∷ kept rest

abbrev pub removed : List Entry → List Snapshot
removed [] = []
removed ((s, []) ∷ rest) = s ∷ removed rest
removed ((s, r ∷ rs) ∷ rest) = removed rest

unfoldable pub apply_retention :
    Calendar → RetentionPolicy → List Snapshot → List Snapshot × List Snapshot
apply_retention c policy snaps =
    let plan = plan_retention c policy snaps in (kept plan, removed plan)

same_key→eq : (xs ys : List ℕ) → same_key xs ys ≡ true → xs ≡ ys
unfolding same_key
same_key→eq [] [] h = refl
same_key→eq [] (b ∷ ys) h = cc
same_key→eq (a ∷ xs) [] h = cc
same_key→eq (a ∷ xs) (b ∷ ys) h = ground (arith, same_key→eq xs ys)

pub key_in-cons_old :
    (k old : List ℕ) (seen : List (List ℕ))
    → key_in old seen ≡ true
    → key_in k (old ∷ seen) ≡ key_in k seen
unfolding key_in
key_in-cons_old k old seen h = ground (arith, same_key→eq k old)

pub key_in-cons :
    (k new : List ℕ) (seen other : List (List ℕ))
    → key_in k seen ≡ key_in k other
    → key_in k (new ∷ seen) ≡ key_in k (new ∷ other)
unfolding key_in
key_in-cons k new seen other h = ground arith
